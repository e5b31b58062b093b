-- ===== src/State/Accept.antt =====
-- `apply_tx` of src/state.py on a transaction that `validate` of src/tx.py has accepted.
use lapsecoin.Prelude.{ℕ, String, ◌≡◌, refl, ◌∙◌, Bool, false, Option, arith, eq_iff, if◌then◌else◌}
use lapsecoin.Prelude.Int.{ℤ, pos, ◌+ℤ◌, ◌≤ℤ◌, int_laws, leb_ℤ, ltb_ℤ}
use lapsecoin.Prelude.Result.{ok}
use lapsecoin.Dict.{lookup-insert}
use lapsecoin.Json.{Items, nil, cons, Fields}
use lapsecoin.Crypto.{Crypto}
use lapsecoin.Tx.{sum_amounts, sender, outputs, int_field, is_board_post}
use lapsecoin.Tx.Signature.{LruCache}
use lapsecoin.Tx.Validate.{validate}
use lapsecoin.Tx.Payable.{ArePayments, IsWellFormed, check_fields_and_outputs-IsWellFormed}
use lapsecoin.Tx.Accepted.{Passed, validate-Passed, check_nonce-ok, check_balance-ok}
use lapsecoin.State.{
  State, get_balance, get_nonce, count_post, credit, debit, set_nonce, credit_outputs, apply_tx,
  view,
}
use lapsecoin.State.Apply.{Applied, apply_tx-Applied}

if-false {ℓ} : {A : Type ℓ} (b : Bool) (x y : A) → b ≡ false → (if b then x else y) ≡ y
if-false b x y h = rw h

credit-ok : (a : String) (z : ℤ) (s : State) → pos 1 ≤ℤ z → (s' : State) × (credit a z s ≡ ok s')
unfolding credit
credit-ok a z s p = (_, if-false (leb_ℤ z (pos 0)) _ _ (ground arith))

debit-ok :
    (a : String) (z : ℤ) (s : State)
    → pos 1 ≤ℤ z
    → z ≤ℤ pos (get_balance s a)
    → (s' : State) × (debit a z s ≡ ok s')
unfolding debit
debit-ok a z s p q = (
  _,
  if-false (leb_ℤ z (pos 0)) _ _ (ground arith)
      ∙ if-false (ltb_ℤ (pos (get_balance s a)) z) _ _ (ground arith),
)

credit_outputs-ok :
    (c : Crypto) (tx : Fields) (os : Items) (s : State)
    → ArePayments c tx os
    → (s' : State) × (credit_outputs os s ≡ ok s')
unfolding credit_outputs
credit_outputs-ok c tx nil s h = (s, refl)
credit_outputs-ok c tx (cons o os) s h =
    let (next, e) = credit-ok h.0.addr h.0.amount s h.0.is_positive in
    let (s', r) = credit_outputs-ok c tx os next h.1 in
    (s', rw (h.0.to-eq, h.0.value-eq, h.0.amount-eq, e) r)

-- With every part known, the transaction is applied.
apply_tx-parts :
    (tx : Fields) (s debited credited : State) (from : String) (os : Items) (total fee nonce : ℤ)
    (post : Bool)
    → sender tx ≡ ok from
    → outputs tx ≡ ok os
    → sum_amounts os ≡ ok total
    → int_field "fee" tx ≡ ok fee
    → int_field "nonce" tx ≡ ok nonce
    → is_board_post tx ≡ ok post
    → debit from (total +ℤ fee) s ≡ ok debited
    → credit_outputs os debited ≡ ok credited
    → apply_tx tx s ≡ ok (count_post post (set_nonce from nonce credited))
unfolding apply_tx
apply_tx-parts tx s debited credited from os total fee nonce post e0 e1 e2 e3 e4 e5 e6 e7 =
    rw (e0, e1, e2, e3, e6, e7, e4, e5)

module _ (c : Crypto) (lru : LruCache) (tx : Fields) (s : State) (floor : Option ℕ) (m : lru.Cache)
    (accepted : (validate c lru tx (view s) floor m).0 ≡ ok tt) where
  -- A transaction that validate accepts against a state is applied to that state without an
  -- exception.
  pub validate-apply_tx : (s' : State) × (apply_tx tx s ≡ ok s')
  validate-apply_tx =
      let p : Passed c lru tx (view s) floor m =
        validate-Passed c lru tx (view s) floor m accepted in
      let w : IsWellFormed c tx = check_fields_and_outputs-IsWellFormed c tx p.fields in
      let (from, e0, e1) = check_nonce-ok tx (view s) p.nonce in
      let covered =
        check_balance-ok tx (view s) from w.os w.total_out w.fee p.balance e0 w.os-eq w.total_out-eq
          w.fee-eq in
      let positive : pos 1 ≤ℤ w.total_out +ℤ w.fee =
        omega (int_laws, w.at_least_one, w.fee_nonneg) in
      let (debited, e2) = debit-ok from (w.total_out +ℤ w.fee) s positive covered in
      let (credited, e3) = credit_outputs-ok c tx w.os debited w.payments in
      (
        _,
        apply_tx-parts tx s debited credited from w.os w.total_out w.fee w.nonce w.post e0 w.os-eq
            w.total_out-eq w.fee-eq w.nonce-eq w.post-eq e2 e3,
      )

get_nonce-final :
    (p : Bool) (a : String) (n : ℤ) (s : State) {s' : State}
    → ok (count_post p (set_nonce a n s)) ≡ ok s'
    → get_nonce s' a ≡ n
unfolding set_nonce
get_nonce-final p a n s e = ground (arith, lookup-insert a a n s.nonces, eq_iff a a)

pub get_balance-final :
    (p : Bool) (a : String) (n : ℤ) (s : State) {s' : State} (b : String)
    → ok (count_post p (set_nonce a n s)) ≡ ok s'
    → get_balance s' b ≡ get_balance s b
unfolding set_nonce
get_balance-final p a n s b e = ground arith

-- An applied transaction leaves its own nonce behind.
pub get_nonce-apply_tx :
    (tx : Fields) (s : State) {s' : State} {from : String} {n : ℤ}
    → apply_tx tx s ≡ ok s'
    → sender tx ≡ ok from
    → int_field "nonce" tx ≡ ok n
    → get_nonce s' from ≡ n
get_nonce-apply_tx tx s {s' = s'} {from = from} {n = n} e f g =
    let k : Applied tx s s' = apply_tx-Applied tx s e in
    let same : k.from ≡ from = cc (k.from-eq) in
    let nonce : k.nonce ≡ n = cc (k.nonce-eq) in
    let at = get_nonce-final k.post k.from k.nonce k.credited k.final-eq in cc (same, nonce, at)

no_fixed_nonce : (a b : ℤ) → a ≡ b +ℤ pos 1 → b +ℤ pos 1 ≡ a +ℤ pos 1 → ⊥
no_fixed_nonce a b h k = grind int_laws

-- A transaction that was accepted and applied is not accepted again in the state it leaves,
-- whatever the signature cache then holds.
pub validate-apply_tx_twice :
    (c : Crypto) (lru : LruCache) (tx : Fields) (s : State) {s' : State} (floor : Option ℕ)
    (m m' : lru.Cache)
    → (validate c lru tx (view s) floor m).0 ≡ ok tt
    → apply_tx tx s ≡ ok s'
    → ¬ ((validate c lru tx (view s') floor m').0 ≡ ok tt)
validate-apply_tx_twice c lru tx s {s' = s'} floor m m' h e again =
    let p = validate-Passed c lru tx (view s) floor m h in
    let q = validate-Passed c lru tx (view s') floor m' again in
    let (from, e0, e1) = check_nonce-ok tx (view s) p.nonce in
    let (from', f0, f1) = check_nonce-ok tx (view s') q.nonce in
    let same : from' ≡ from = cc (e0, f0) in
    let now = get_nonce-apply_tx tx s e e0 e1 in
    let next : get_nonce s from +ℤ pos 1 ≡ get_nonce s' from +ℤ pos 1 = cc (e1, f1, same) in
    no_fixed_nonce (get_nonce s' from) (get_nonce s from) now next
