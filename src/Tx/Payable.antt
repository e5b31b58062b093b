-- ===== src/Tx/Payable.antt =====
-- What the checks of src/tx.py on the fields establish: a transaction that passes them can be read
-- without an exception, and what it pays is positive.
use lapsecoin.Prelude.{
  ◌<◌, ◌≤◌, String, ◌≡◌, refl, Bool, true, false, not, Option, none, some, arith, ltb, ltb-false-le,
}
use lapsecoin.Prelude.Int.{ℤ, pos, ◌+ℤ◌, ◌≤ℤ◌, int_laws}
use lapsecoin.Prelude.Result.{
  ok, >>=-eq-ok, refuse_if, refuse_if-eq-ok, output_keys, amount_not_positive, invalid_address,
  fee_negative, nonce_not_int, unexpected_fields, too_many_outputs,
}
use lapsecoin.Json.{
  Json, Items, nil, cons, Fields, str, arr, get, index, int_of, subscript, contains,
}
use text.Mathlib.Text.{starts_with}
use lapsecoin.Crypto.{Crypto, is_valid_address}
use lapsecoin.Tx.{
  sum_amounts, outputs, int_field, is_board_post, starts_with_tag, board_memo_tag, max_outputs,
}
use lapsecoin.Tx.Shape.{
  check_output, check_outputs, check_memo, check_fields_and_outputs, positive_int, non_negative_int,
  is_int, is_sender, lacks_amount, has_unexpected, require_fields, required_fields, non_empty_list,
  count_items,
}

valid_address-str :
    (c : Crypto) (v : Json) → is_valid_address c v ≡ true → (a : String) × (v ≡ str a)
unfolding is_valid_address
valid_address-str c (str s) h = (s, refl)
valid_address-str c _ h = cc

positive_int-some : (o : Option ℤ) → positive_int o ≡ true → (z : ℤ) × (o ≡ some z) × (pos 1 ≤ℤ z)
positive_int-some none h = cc
positive_int-some (some z) h = (z, refl, ground arith)

non_negative_int-some :
    (o : Option ℤ) → non_negative_int o ≡ true → (z : ℤ) × (o ≡ some z) × (pos 0 ≤ℤ z)
non_negative_int-some none h = cc
non_negative_int-some (some z) h = (z, refl, ground arith)

not-false : (b : Bool) → not b ≡ false → b ≡ true
not-false true h = refl
not-false false h = cc

-- An output with a valid address and a positive amount.
pub record IsPayment (c : Crypto) (tx : Fields) (o : Json) : Type 0 where
  pub addr : String
  pub value : Json
  pub amount : ℤ
  pub to-eq : subscript "to" o ≡ ok (str addr)
  pub value-eq : subscript "amount" o ≡ ok value
  pub amount-eq : int_of value ≡ some amount
  pub is_positive : pos 1 ≤ℤ amount
  pub is_valid : is_valid_address c (str addr) ≡ true
  pub not_own : is_sender (str addr) (get "from" tx) ≡ false

check_output-IsPayment :
    (c : Crypto) (tx : Fields) (o : Json) {u : Unit {0}}
    → check_output c tx o ≡ ok u
    → IsPayment c tx o
unfolding check_output
check_output-IsPayment c tx o e =
    let (has, e0, r0) = >>=-eq-ok (contains "to" o) _ e in
    let (lacks, e1, r1) = >>=-eq-ok (lacks_amount has o) _ r0 in
    let (u2, e2, r2) = >>=-eq-ok (refuse_if lacks output_keys) _ r1 in
    let (v, e3, r3) = >>=-eq-ok (subscript "amount" o) _ r2 in
    let (u4, e4, r4) =
      >>=-eq-ok (refuse_if (not (positive_int (int_of v))) amount_not_positive) _ r3 in
    let (to, e5, r5) = >>=-eq-ok (subscript "to" o) _ r4 in
    let (u6, e6, r6) = >>=-eq-ok (refuse_if (not (is_valid_address c to)) invalid_address) _ r5 in
    let is_pos = not-false (positive_int (int_of v)) (refuse_if-eq-ok _ _ e4) in
    let is_addr = not-false (is_valid_address c to) (refuse_if-eq-ok _ _ e6) in
    let (z, q0, q1) = positive_int-some (int_of v) is_pos in
    let (a, q2) = valid_address-str c to is_addr in
    record {
      addr = a;
      value = v;
      amount = z;
      to-eq = cc (e5, q2);
      value-eq = e3;
      amount-eq = q0;
      is_positive = q1;
      is_valid = cc (is_addr, q2);
      not_own = cc (refuse_if-eq-ok _ _ r6, q2);
    }

abbrev pub ArePayments : Crypto → Fields → Items → Type 0
ArePayments c tx nil = Unit
ArePayments c tx (cons o os) = IsPayment c tx o × ArePayments c tx os

check_outputs-ArePayments :
    (c : Crypto) (tx : Fields) (os : Items) {u : Unit {0}}
    → check_outputs c tx os ≡ ok u
    → ArePayments c tx os
unfolding check_outputs
check_outputs-ArePayments c tx nil e = tt
check_outputs-ArePayments c tx (cons o os) e =
    let (u0, e0, r0) = >>=-eq-ok (check_output c tx o) _ e in
    (check_output-IsPayment c tx o e0, check_outputs-ArePayments c tx os r0)

-- A list of payments has a sum, which is at least the number of them.
sum_amounts-ArePayments :
    (c : Crypto) (tx : Fields) (os : Items)
    → ArePayments c tx os
    → (z : ℤ) × (sum_amounts os ≡ ok z) × (pos (count_items os) ≤ℤ z)
unfolding sum_amounts count_items
sum_amounts-ArePayments c tx nil h = (pos 0, refl, omega arith)
sum_amounts-ArePayments c tx (cons o os) h =
    let (z, e, p) = sum_amounts-ArePayments c tx os h.1 in
    (h.0.amount +ℤ z, rw (h.0.value-eq, h.0.amount-eq, e), omega (int_laws, h.0.is_positive))

non_empty_list-cons :
    (v : Json) (os : Items) → non_empty_list v ≡ ok os → (v ≡ arr os) × (0 < count_items os)
unfolding non_empty_list count_items
non_empty_list-cons (arr (cons o os)) l h = ground arith
non_empty_list-cons _ l h = cc

is_int-some : (o : Option ℤ) → is_int o ≡ true → (z : ℤ) × (o ≡ some z)
is_int-some none h = cc
is_int-some (some z) h = (z, refl)

starts_with_tag-ok :
    (memo : Option Json) {u : Unit {0}}
    → check_memo memo ≡ ok u
    → (b : Bool) × (starts_with_tag memo ≡ ok b)
unfolding check_memo
starts_with_tag-ok none e = (false, refl)
starts_with_tag-ok (some (str s)) e = (starts_with s board_memo_tag, refl)
starts_with_tag-ok (some _) e = cc

is_board_post-ok :
    (tx : Fields) {u : Unit {0}}
    → check_memo (get "memo" tx) ≡ ok u
    → (b : Bool) × (is_board_post tx ≡ ok b)
unfolding is_board_post
is_board_post-ok tx e = starts_with_tag-ok (get "memo" tx) e

outputs-ok :
    (tx : Fields) (v : Json) (os : Items)
    → index "outputs" tx ≡ ok v
    → v ≡ arr os
    → outputs tx ≡ ok os
unfolding outputs
outputs-ok tx v os e f = rw (e, f)

int_field-ok :
    (k : String) (tx : Fields) (v : Json) (z : ℤ)
    → index k tx ≡ ok v
    → int_of v ≡ some z
    → int_field k tx ≡ ok z
unfolding int_field
int_field-ok k tx v z e f = rw (e, f)

-- What `_check_fields_and_outputs` lets through.
pub record IsWellFormed (c : Crypto) (tx : Fields) : Type 0 where
  pub os : Items
  pub total_out : ℤ
  pub fee : ℤ
  pub nonce : ℤ
  pub post : Bool
  pub allowed : has_unexpected tx ≡ false
  pub os-eq : outputs tx ≡ ok os
  pub payments : ArePayments c tx os
  pub total_out-eq : sum_amounts os ≡ ok total_out
  pub at_least_one : pos 1 ≤ℤ total_out
  pub at_most : count_items os ≤ max_outputs
  pub fee-eq : int_field "fee" tx ≡ ok fee
  pub fee_nonneg : pos 0 ≤ℤ fee
  pub nonce-eq : int_field "nonce" tx ≡ ok nonce
  pub post-eq : is_board_post tx ≡ ok post

-- A transaction that passes the check of its fields has only allowed fields, at most the maximal
-- number of outputs, each to a valid address that is not the sender's with a positive amount, a
-- fee that is not negative, an integer nonce, and a memo that can be tested for the board's tag.
pub check_fields_and_outputs-IsWellFormed :
    (c : Crypto) (tx : Fields) {u : Unit {0}}
    → check_fields_and_outputs c tx ≡ ok u
    → IsWellFormed c tx
unfolding check_fields_and_outputs
check_fields_and_outputs-IsWellFormed c tx e =
    let (u0, e0, r0) = >>=-eq-ok (refuse_if (has_unexpected tx) unexpected_fields) _ e in
    let (u1, e1, r1) = >>=-eq-ok (require_fields required_fields tx) _ r0 in
    let (v, e2, r2) = >>=-eq-ok (index "outputs" tx) _ r1 in
    let (os, e3, r3) = >>=-eq-ok (non_empty_list v) _ r2 in
    let (u4, e4, r4) =
      >>=-eq-ok (refuse_if (ltb max_outputs (count_items os)) too_many_outputs) _ r3 in
    let (u5, e5, r5) = >>=-eq-ok (check_outputs c tx os) _ r4 in
    let (f, e6, r6) = >>=-eq-ok (index "fee" tx) _ r5 in
    let (u7, e7, r7) =
      >>=-eq-ok (refuse_if (not (non_negative_int (int_of f))) fee_negative) _ r6 in
    let (n, e8, r8) = >>=-eq-ok (index "nonce" tx) _ r7 in
    let (u9, e9, r9) = >>=-eq-ok (refuse_if (not (is_int (int_of n))) nonce_not_int) _ r8 in
    let list = non_empty_list-cons v os e3 in
    let paid = check_outputs-ArePayments c tx os e5 in
    let (total, q0, q1) = sum_amounts-ArePayments c tx os paid in
    let (fee, q2, q3) = non_negative_int-some (int_of f) (not-false _ (refuse_if-eq-ok _ _ e7)) in
    let (nonce, q4) = is_int-some (int_of n) (not-false _ (refuse_if-eq-ok _ _ e9)) in
    let (post, q5) = is_board_post-ok tx r9 in
    record {
      os = os;
      total_out = total;
      fee = fee;
      nonce = nonce;
      post = post;
      allowed = refuse_if-eq-ok _ _ e0;
      os-eq = outputs-ok tx v os e2 list.0;
      payments = paid;
      total_out-eq = q0;
      at_least_one = omega (arith, list.1, q1);
      at_most = ltb-false-le _ _ (refuse_if-eq-ok _ _ e4);
      fee-eq = int_field-ok "fee" tx f fee e6 q2;
      fee_nonneg = q3;
      nonce-eq = int_field-ok "nonce" tx n nonce e8 q4;
      post-eq = q5;
    }
