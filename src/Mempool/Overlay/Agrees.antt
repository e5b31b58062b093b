-- ===== src/Mempool/Overlay/Agrees.antt =====
-- The overlay of src/mempool.py shows the ledger that src/state.py would have.
use lapsecoin.Prelude.{◌+◌, ◌-◌, String, ◌≡◌, refl, Bool, arith}
use lapsecoin.Prelude.Int.{ℤ, pos_part, ◌+ℤ◌}
use lapsecoin.Prelude.Result.{ok}
use lapsecoin.Dict.{insert, IsKeyed, lookup-insert, lookup-erase}
use lapsecoin.Json.{Items, nil, cons, Fields}
use lapsecoin.State
use lapsecoin.State.{State, get_or, settle, count_post}
use lapsecoin.State.Ledger.{IsLedger}
use lapsecoin.State.Apply.{Credited, credit_outputs-Credited, Applied, apply_tx-Applied}
use lapsecoin.Mempool.Overlay.{
  Overlay, credit, debit, set_nonce, credit_outputs, apply_tx, over, get_balance, get_nonce,
}

-- Every address has the same balance and the same nonce in both.
pub record Agrees (o : Overlay) (s : State) : Type 0 where
  pub balance-eq : (a : String) → get_balance o a ≡ State.get_balance s a
  pub nonce-eq : (a : String) → get_nonce o a ≡ State.get_nonce s a

pub over-Agrees : (s : State) → Agrees (over s) s
over-Agrees s = record { balance-eq = λ a. refl; nonce-eq = λ a. refl }

credit-Agrees :
    (a : String) (z : ℤ) (o : Overlay) (s : State) {s' : State}
    → Agrees o s
    → State.credit a z s ≡ ok s'
    → (o' : Overlay) × (credit a z o ≡ ok o') × Agrees o' s'
unfolding State.credit credit
credit-Agrees a z o s h e = (
  record o { own_balances = insert a (get_balance o a + pos_part z) o.own_balances },
  ground arith,
  record {
    balance-eq = λ b. ground (
      arith,
      h.balance-eq a,
      h.balance-eq b,
      lookup-insert a b (get_balance o a + pos_part z) o.own_balances,
      lookup-insert a b (State.get_balance s a + pos_part z) s.balances,
    );
    nonce-eq = λ b. ground (arith, h.nonce-eq b);
  },
)

debit-Agrees :
    (a : String) (z : ℤ) (o : Overlay) (s : State) {s' : State}
    → IsKeyed s.balances
    → Agrees o s
    → State.debit a z s ≡ ok s'
    → (o' : Overlay) × (debit a z o ≡ ok o') × Agrees o' s'
unfolding State.debit debit
debit-Agrees a z o s k h e = (
  record o { own_balances = insert a (get_balance o a - pos_part z) o.own_balances },
  ground (arith, h.balance-eq a),
  record {
    balance-eq = λ b. ground (
      arith,
      h.balance-eq a,
      h.balance-eq b,
      lookup-insert a b (get_balance o a - pos_part z) o.own_balances,
      lookup-insert a b (State.get_balance s a - pos_part z) s.balances,
      lookup-erase a b s.balances k,
    );
    nonce-eq = λ b. ground (arith, h.nonce-eq b);
  },
)

credit_outputs-Agrees :
    (os : Items) (o : Overlay) (s : State) {s' : State}
    → Agrees o s
    → State.credit_outputs os s ≡ ok s'
    → (o' : Overlay) × (credit_outputs os o ≡ ok o') × Agrees o' s'
unfolding State.credit_outputs credit_outputs
credit_outputs-Agrees nil o s h e = (
  o,
  refl,
  record {
    balance-eq = λ b. ground (arith, h.balance-eq b);
    nonce-eq = λ b. ground (arith, h.nonce-eq b);
  },
)
credit_outputs-Agrees (cons out os) o s {s' = s'} h e =
    let k : Credited out os s s' = credit_outputs-Credited out os s e in
    let (o1, e1, h1) = credit-Agrees k.addr k.amount o s h k.paid in
    let (o2, e2, h2) = credit_outputs-Agrees os o1 k.next h1 k.rest in
    (o2, rw (k.addr-eq, k.amount-eq, e1) e2, h2)

finish-Agrees :
    (p : Bool) (a : String) (n : ℤ) (o : Overlay) (s : State) {s' : State}
    → Agrees o s
    → ok (count_post p (State.set_nonce a n s)) ≡ ok s'
    → Agrees (set_nonce a n o) s'
unfolding State.set_nonce set_nonce
finish-Agrees p a n o s h e = record {
  balance-eq = λ b. ground (arith, h.balance-eq b);
  nonce-eq = λ b.
      ground (arith, h.nonce-eq b, lookup-insert a b n s.nonces, lookup-insert a b n o.own_nonces);
}

-- A transaction that a well-formed ledger can apply can be applied to an overlay that agrees with
-- it on every balance and nonce, and the two agree afterwards.
pub apply_tx-Agrees :
    (tx : Fields) (o : Overlay) (s : State) {s' : State}
    → IsLedger s
    → Agrees o s
    → State.apply_tx tx s ≡ ok s'
    → (o' : Overlay) × (apply_tx tx o ≡ ok o') × Agrees o' s'
unfolding apply_tx
apply_tx-Agrees tx o s {s' = s'} l h e =
    let k : Applied tx s s' = apply_tx-Applied tx s e in
    let (o1, e1, h1) = debit-Agrees k.from (k.total_out +ℤ k.fee) o s l.keyed h k.debit-eq in
    let (o2, e2, h2) = credit_outputs-Agrees k.os o1 k.debited h1 k.credit-eq in
    (
      set_nonce k.from k.nonce o2,
      rw (k.from-eq, k.os-eq, k.total_out-eq, k.fee-eq, e1, e2, k.nonce-eq) refl,
      finish-Agrees k.post k.from k.nonce o2 k.credited h2 k.final-eq,
    )
