-- ===== src/State/Apply.antt =====
-- What `apply_tx` and `apply_reward_distribution` of src/state.py do to the ledger as a whole.
use lapsecoin.Prelude.{sym, ◌∙◌, String, ◌≡◌, Bool, arith}
use lapsecoin.Prelude.Int.{ℤ, pos, ◌+ℤ◌, int_laws}
use lapsecoin.Prelude.Result.{ok, ◌>>=◌, >>=-eq-ok}
use lapsecoin.Json.{Json, Items, nil, cons, Fields}
use lapsecoin.Tx.{addr_of, amount_of, sum_amounts, sender, outputs, int_field, is_board_post}
use lapsecoin.State.{State, count_post, credit, debit, set_nonce, credit_outputs, apply_tx}
use lapsecoin.State.Ledger.{
  IsLedger, supply, credit-IsLedger, debit-IsLedger, supply-credit, supply-debit,
}

credit_outputs-IsLedger :
    (os : Items) (s : State) {s' : State} → IsLedger s → credit_outputs os s ≡ ok s' → IsLedger s'
unfolding credit_outputs
credit_outputs-IsLedger nil s h e = grind arith
credit_outputs-IsLedger (cons o os) s h e =
    grind (arith, credit-IsLedger, credit_outputs-IsLedger os)

-- One round of the loop that went through.
pub record Credited (o : Json) (os : Items) (s s' : State) : Type 0 where
  pub addr : String
  pub amount : ℤ
  pub next : State
  pub addr-eq : addr_of o ≡ ok addr
  pub amount-eq : amount_of o ≡ ok amount
  pub paid : credit addr amount s ≡ ok next
  pub rest : credit_outputs os next ≡ ok s'

pub credit_outputs-Credited :
    (o : Json) (os : Items) (s : State) {s' : State}
    → credit_outputs (cons o os) s ≡ ok s'
    → Credited o os s s'
unfolding credit_outputs
credit_outputs-Credited o os s e =
    let (a, e0, r0) = >>=-eq-ok (addr_of o) _ e in
    let (z, e1, r1) = >>=-eq-ok (amount_of o) _ r0 in
    let (next, e2, r2) = >>=-eq-ok (credit a z s) _ r1 in
    record { addr = a; amount = z; next = next; addr-eq = e0; amount-eq = e1; paid = e2; rest = r2 }

sum_amounts-cons :
    (o : Json) (os : Items) (z : ℤ)
    → amount_of o ≡ ok z
    → sum_amounts (cons o os) ≡ (do r ← sum_amounts os; ok (z +ℤ r))
unfolding sum_amounts
sum_amounts-cons o os z e = rw e

supply-credit_outputs :
    (os : Items) (s : State) {s' : State} {z : ℤ}
    → credit_outputs os s ≡ ok s'
    → sum_amounts os ≡ ok z
    → pos (supply s') ≡ pos (supply s) +ℤ z
unfolding credit_outputs sum_amounts
supply-credit_outputs nil s e f = grind int_laws
supply-credit_outputs (cons o os) s {s' = s'} {z = z} e f =
    let k : Credited o os s s' = credit_outputs-Credited o os s e in
    let (r, f0, f1) =
      >>=-eq-ok (sum_amounts os) _ (sym (sum_amounts-cons o os k.amount k.amount-eq) ∙ f) in
    grind
      (int_laws, supply-credit k.addr k.amount s k.paid, supply-credit_outputs os k.next k.rest f0)

-- A transaction that went through, and the state after each part of it.
pub record Applied (tx : Fields) (s s' : State) : Type 0 where
  pub from : String
  pub os : Items
  pub total_out : ℤ
  pub fee : ℤ
  pub nonce : ℤ
  pub post : Bool
  pub debited : State
  pub credited : State
  pub from-eq : sender tx ≡ ok from
  pub os-eq : outputs tx ≡ ok os
  pub total_out-eq : sum_amounts os ≡ ok total_out
  pub fee-eq : int_field "fee" tx ≡ ok fee
  pub nonce-eq : int_field "nonce" tx ≡ ok nonce
  pub post-eq : is_board_post tx ≡ ok post
  pub debit-eq : debit from (total_out +ℤ fee) s ≡ ok debited
  pub credit-eq : credit_outputs os debited ≡ ok credited
  pub final-eq : ok (count_post post (set_nonce from nonce credited)) ≡ ok s'

pub apply_tx-Applied :
    (tx : Fields) (s : State) {s' : State} → apply_tx tx s ≡ ok s' → Applied tx s s'
unfolding apply_tx
apply_tx-Applied tx s e =
    let (from, e0, r0) = >>=-eq-ok (sender tx) _ e in
    let (os, e1, r1) = >>=-eq-ok (outputs tx) _ r0 in
    let (total, e2, r2) = >>=-eq-ok (sum_amounts os) _ r1 in
    let (fee, e3, r3) = >>=-eq-ok (int_field "fee" tx) _ r2 in
    let (debited, e4, r4) = >>=-eq-ok (debit from (total +ℤ fee) s) _ r3 in
    let (credited, e5, r5) = >>=-eq-ok (credit_outputs os debited) _ r4 in
    let (nonce, e6, r6) = >>=-eq-ok (int_field "nonce" tx) _ r5 in
    let (post, e7, r7) = >>=-eq-ok (is_board_post tx) _ r6 in
    record {
      from = from;
      os = os;
      total_out = total;
      fee = fee;
      nonce = nonce;
      post = post;
      debited = debited;
      credited = credited;
      from-eq = e0;
      os-eq = e1;
      total_out-eq = e2;
      fee-eq = e3;
      nonce-eq = e6;
      post-eq = e7;
      debit-eq = e4;
      credit-eq = e5;
      final-eq = r7;
    }

count_post-IsLedger :
    (p : Bool) (a : String) (n : ℤ) (s : State) {s' : State}
    → IsLedger s
    → ok (count_post p (set_nonce a n s)) ≡ ok s'
    → IsLedger s'
unfolding set_nonce
count_post-IsLedger p a n s h e = ground arith

supply-count_post :
    (p : Bool) (a : String) (n : ℤ) (s : State) {s' : State}
    → ok (count_post p (set_nonce a n s)) ≡ ok s'
    → supply s' ≡ supply s
unfolding set_nonce
supply-count_post p a n s e = ground arith

-- An applied transaction leaves a well-formed ledger well formed: no address twice, no balance of
-- 0.
pub apply_tx-IsLedger :
    (tx : Fields) (s : State) {s' : State} → IsLedger s → apply_tx tx s ≡ ok s' → IsLedger s'
apply_tx-IsLedger tx s {s' = s'} h e =
    let k : Applied tx s s' = apply_tx-Applied tx s e in
    let d : IsLedger k.debited = debit-IsLedger k.from (k.total_out +ℤ k.fee) s h k.debit-eq in
    count_post-IsLedger k.post k.from k.nonce k.credited
      (credit_outputs-IsLedger k.os k.debited d k.credit-eq) k.final-eq

-- An applied transaction lowers the sum of all balances by exactly its fee.
pub supply-apply_tx :
    (tx : Fields) (s : State) {s' : State} {fee : ℤ}
    → apply_tx tx s ≡ ok s'
    → int_field "fee" tx ≡ ok fee
    → pos (supply s') +ℤ fee ≡ pos (supply s)
supply-apply_tx tx s {s' = s'} {fee = fee} e f =
    let k : Applied tx s s' = apply_tx-Applied tx s e in
    let same : k.fee ≡ fee = cc k.fee-eq in
    grind (
      int_laws,
      supply-debit k.from (k.total_out +ℤ k.fee) s k.debit-eq,
      supply-credit_outputs k.os k.debited k.credit-eq k.total_out-eq,
      supply-count_post k.post k.from k.nonce k.credited k.final-eq,
    )
