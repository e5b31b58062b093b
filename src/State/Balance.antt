-- ===== src/State/Balance.antt =====
-- What `apply_tx` of src/state.py does to the balance of every single address.
use lapsecoin.Prelude.{ℕ, ◌+◌, ◌-◌, String, ◌≡◌, str_eq, eq_iff, if◌then◌else◌}
use lapsecoin.Prelude.Int.{ℤ, pos, pos_part, ◌+ℤ◌, int_laws}
use lapsecoin.Prelude.Result.{Result, ok}
use lapsecoin.Dict.{IsKeyed, lookup-insert, lookup-erase}
use lapsecoin.Json.{Items, nil, cons, Fields}
use lapsecoin.Tx.{addr_of, amount_of, sum_amounts, sender, outputs, int_field}
use lapsecoin.State.{State, get_balance, credit, debit, credit_outputs, apply_tx}
use lapsecoin.State.Ledger.{IsLedger}
use lapsecoin.State.Apply.{Credited, credit_outputs-Credited, Applied, apply_tx-Applied}
use lapsecoin.State.Accept.{get_balance-final}

-- An amount that goes to `b` if it goes to `a`.
abbrev pub share : String → String → ℤ → ℤ
share a b z = if str_eq a b then z else pos 0

balance-credit :
    (a b : String) (z : ℤ) (s : State) {s' : State}
    → credit a z s ≡ ok s'
    → pos (get_balance s' b) ≡ pos (get_balance s b) +ℤ share a b z
unfolding credit
balance-credit a b z s e =
    grind (int_laws, eq_iff a b, lookup-insert a b (get_balance s a + pos_part z) s.balances)

balance-debit :
    (a b : String) (z : ℤ) (s : State) {s' : State}
    → IsKeyed s.balances
    → debit a z s ≡ ok s'
    → pos (get_balance s' b) +ℤ share a b z ≡ pos (get_balance s b)
unfolding debit
balance-debit a b z s h e = grind (
  int_laws,
  eq_iff a b,
  lookup-insert a b (get_balance s a - pos_part z) s.balances,
  lookup-erase a b s.balances h,
)

-- What the outputs pay to `b`, by a reading of its own.
abbrev output_share : Result String → Result ℤ → String → ℤ
output_share (ok a) (ok z) b = share a b z
output_share _ _ b = pos 0

pub received : String → Items → ℤ
received b nil = pos 0
received b (cons o os) = output_share (addr_of o) (amount_of o) b +ℤ received b os

balance-credit_outputs :
    (b : String) (os : Items) (s : State) {s' : State}
    → credit_outputs os s ≡ ok s'
    → pos (get_balance s' b) ≡ pos (get_balance s b) +ℤ received b os
unfolding credit_outputs received
balance-credit_outputs b nil s e = grind int_laws
balance-credit_outputs b (cons o os) s {s' = s'} e =
    let k : Credited o os s s' = credit_outputs-Credited o os s e in
    let paid : output_share (addr_of o) (amount_of o) b ≡ share k.addr b k.amount =
      cc (k.addr-eq, k.amount-eq) in
    grind (
      int_laws,
      balance-credit k.addr b k.amount s k.paid,
      balance-credit_outputs b os k.next k.rest,
    )

balance_chain :
    (final credited debited start : ℕ) (taken got : ℤ)
    → final ≡ credited
    → pos credited ≡ pos debited +ℤ got
    → pos debited +ℤ taken ≡ pos start
    → pos final +ℤ taken ≡ pos start +ℤ got
balance_chain final credited debited start taken got e f g = grind int_laws

-- For every address, an applied transaction takes the outputs' total and the fee from the sender
-- and adds what the outputs pay to that address, and changes nothing else in the balance.
pub balance-apply_tx :
    (tx : Fields) (b from : String) (os : Items) (total_out fee : ℤ) (s : State) {s' : State}
    → IsLedger s
    → apply_tx tx s ≡ ok s'
    → sender tx ≡ ok from
    → outputs tx ≡ ok os
    → sum_amounts os ≡ ok total_out
    → int_field "fee" tx ≡ ok fee
    → pos (get_balance s' b) +ℤ share from b (total_out +ℤ fee)
      ≡ pos (get_balance s b) +ℤ received b os
balance-apply_tx tx b from os total_out fee s {s' = s'} h e e0 e1 e2 e3 =
    let k : Applied tx s s' = apply_tx-Applied tx s e in
    let from' : k.from ≡ from = cc (k.from-eq) in
    let os' : k.os ≡ os = cc (k.os-eq) in
    let total' : k.total_out ≡ total_out = cc (k.total_out-eq, os') in
    let fee' : k.fee ≡ fee = cc (k.fee-eq) in
    let same : share k.from b (k.total_out +ℤ k.fee) ≡ share from b (total_out +ℤ fee) =
      cc (from', total', fee') in
    let got : received b k.os ≡ received b os = cc os' in
    rw (← same, ← got)
      (balance_chain _ _ _ _ _ _ (get_balance-final k.post k.from k.nonce k.credited b k.final-eq)
        (balance-credit_outputs b k.os k.debited k.credit-eq)
        (balance-debit k.from b (k.total_out +ℤ k.fee) s h.keyed k.debit-eq))
