-- ===== src/Tx/Accepted.antt =====
-- What `validate` of src/tx.py has established when it answers `(True, None)`.
use lapsecoin.Prelude.{ℕ, String, ◌≡◌, refl, true, false, not, Option, arith}
use lapsecoin.Prelude.Int.{ℤ, pos, ◌+ℤ◌, ◌≤ℤ◌, ltb_ℤ, eqb_ℤ, eq_of_parts}
use lapsecoin.Prelude.Result.{
  Check, ok, refused, raised, >>=-eq-ok, refuse_if-eq-ok, bad_nonce, insufficient_balance,
  board_fee_low,
}
use lapsecoin.Json.{Items, Fields}
use lapsecoin.Crypto.{Crypto}
use lapsecoin.Tx.{sum_amounts, sender, outputs, int_field, is_board_post}
use lapsecoin.Tx.Shape.{check_fields_and_outputs, check_not_from_burn_address}
use lapsecoin.Tx.Signature.{LruCache, check_signature}
use lapsecoin.Tx.Validate.{
  LedgerView, check_nonce, check_balance, check_board_fee, check_floor, board_floor, checks_before,
  checks_after, after_shape, validate,
}

-- The answers of the six checks, in the order in which they run.
pub record Passed (c : Crypto) (lru : LruCache) (tx : Fields) (st : LedgerView) (floor : Option ℕ)
    (m : lru.Cache) : Type 0 where
  pub fields : check_fields_and_outputs c tx ≡ ok tt
  pub not_burn : check_not_from_burn_address c tx ≡ ok tt
  pub signature : (check_signature c lru tx m).0 ≡ ok tt
  pub nonce : check_nonce tx st ≡ ok tt
  pub balance : check_balance tx st ≡ ok tt
  pub board : check_board_fee tx st floor ≡ ok tt

after_shape-ok :
    (c : Crypto) (lru : LruCache) (r : Check) (tx : Fields) (st : LedgerView) (floor : Option ℕ)
    (m : lru.Cache) {u : Unit {0}}
    → (after_shape c lru r tx st floor m).0 ≡ ok u
    → (r ≡ ok tt) × ((check_signature c lru tx m).0 ≡ ok tt) × (checks_after tx st floor ≡ ok tt)
unfolding after_shape
after_shape-ok c lru (ok v) tx st floor m e =
    let (w, e0, e1) = >>=-eq-ok (check_signature c lru tx m).0 _ e in (refl, e0, e1)
after_shape-ok c lru (refused x) tx st floor m e = cc
after_shape-ok c lru (raised x) tx st floor m e = cc

-- Acceptance is acceptance by each check.
pub validate-Passed :
    (c : Crypto) (lru : LruCache) (tx : Fields) (st : LedgerView) (floor : Option ℕ) (m : lru.Cache)
    {u : Unit {0}}
    → (validate c lru tx st floor m).0 ≡ ok u
    → Passed c lru tx st floor m
unfolding validate checks_before checks_after
validate-Passed c lru tx st floor m e =
    let (before, signed, after) = after_shape-ok c lru (checks_before c tx) tx st floor m e in
    let (u0, e0, r0) = >>=-eq-ok (check_fields_and_outputs c tx) _ before in
    let (u1, e1, r1) = >>=-eq-ok (check_nonce tx st) _ after in
    let (u2, e2, r2) = >>=-eq-ok (check_balance tx st) _ r1 in
    record { fields = e0; not_burn = r0; signature = signed; nonce = e1; balance = e2; board = r2 }

eqb_ℤ-eq : (a b : ℤ) → not (eqb_ℤ a b) ≡ false → a ≡ b
eqb_ℤ-eq a b h = ground (arith, eq_of_parts a b)

ltb_ℤ_false-le : (a b : ℤ) → ltb_ℤ a b ≡ false → b ≤ℤ a
ltb_ℤ_false-le a b h = ground arith

-- The nonce is one more than the last.
pub check_nonce-ok :
    (tx : Fields) (st : LedgerView) {u : Unit {0}}
    → check_nonce tx st ≡ ok u
    → (from : String) × (sender tx ≡ ok from)
      × (int_field "nonce" tx ≡ ok (st.get_nonce from +ℤ pos 1))
unfolding check_nonce
check_nonce-ok tx st e =
    let (from, e0, r0) = >>=-eq-ok (sender tx) _ e in
    let (n, e1, r1) = >>=-eq-ok (int_field "nonce" tx) _ r0 in
    let same = eqb_ℤ-eq n (st.get_nonce from +ℤ pos 1) (refuse_if-eq-ok _ bad_nonce r1) in
    (from, e0, cc (e1, same))

-- The balance covers the outputs and the fee.
pub check_balance-ok :
    (tx : Fields) (st : LedgerView) (from : String) (os : Items) (total_out fee : ℤ) {u : Unit {0}}
    → check_balance tx st ≡ ok u
    → sender tx ≡ ok from
    → outputs tx ≡ ok os
    → sum_amounts os ≡ ok total_out
    → int_field "fee" tx ≡ ok fee
    → total_out +ℤ fee ≤ℤ pos (st.get_balance from)
unfolding check_balance
check_balance-ok tx st from os total_out fee e e0 e1 e2 e3 =
    ltb_ℤ_false-le (pos (st.get_balance from)) (total_out +ℤ fee)
      (refuse_if-eq-ok _ insufficient_balance (rw (e1, e2, e0, e3) at e))

-- A board post that passes the check of its fee pays at least the floor in force.
pub check_board_fee-ok :
    (tx : Fields) (st : LedgerView) (floor : Option ℕ) (fee : ℤ) {u : Unit {0}}
    → check_board_fee tx st floor ≡ ok u
    → is_board_post tx ≡ ok true
    → int_field "fee" tx ≡ ok fee
    → pos (board_floor floor st) ≤ℤ fee
unfolding check_board_fee check_floor
check_board_fee-ok tx st floor fee e post e0 =
    ltb_ℤ_false-le fee (pos (board_floor floor st))
      (refuse_if-eq-ok _ board_fee_low (rw (post, e0) at e))
