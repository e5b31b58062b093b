-- ===== src/Tx/Shape.antt =====
-- The checks of src/tx.py that read the transaction alone: its fields and outputs, and the sender.
use lapsecoin.Prelude.{
  ℕ, suc, String, Bool, true, false, not, ◌||◌, Option, none, some, List, [], ◌∷◌, str_eq, ltb,
}
use lapsecoin.Prelude.Int.{ℤ, pos, leb_ℤ, ltb_ℤ}
use lapsecoin.Prelude.Text.{codes, encode, has_code}
use lapsecoin.Prelude.Result.{
  Result, Check, ok, refused, ◌>>=◌, ◌>>◌, refuse_if, unexpected_fields, outputs_not_list,
  too_many_outputs, output_keys, amount_not_positive, invalid_address, own_address, fee_negative,
  nonce_not_int, memo_not_str, memo_null_byte, memo_too_long, burn_sender, missing_field,
}
use lapsecoin.Json.{
  Json, Items, nil, cons, Fields, end, field, str, arr, get, index, int_of, is_str, contains,
  subscript,
}
use lapsecoin.Prelude.{length}
use lapsecoin.Crypto.{Crypto, is_valid_address, burn_address}
use lapsecoin.Tx.{max_outputs, max_memo_bytes}

abbrev pub required_fields : List String
required_fields = "from" ∷ "pubkey" ∷ "outputs" ∷ "nonce" ∷ "fee" ∷ "signature" ∷ []

-- `k in _ALLOWED_FIELDS`
is_one_of : String → List String → Bool
is_one_of k [] = str_eq k "memo"
is_one_of k (r ∷ rs) = str_eq k r || is_one_of k rs

-- Has the transaction a field that it may not carry?
unfoldable pub has_unexpected : Fields → Bool
unfolding is_one_of
has_unexpected end = false
has_unexpected (field k v d) = not (is_one_of k required_fields) || has_unexpected d

unfoldable pub require_fields : List String → Fields → Check
require_fields [] tx = ok tt
require_fields (k ∷ ks) tx = elim (get k tx) [
  | none ↦ refused (missing_field k)
  | some _ ↦ require_fields ks tx
]

-- `isinstance(v, int) and v > 0`
abbrev pub positive_int : Option ℤ → Bool
positive_int none = false
positive_int (some z) = ltb_ℤ (pos 0) z

-- `isinstance(v, int) and v >= 0`
abbrev pub non_negative_int : Option ℤ → Bool
non_negative_int none = false
non_negative_int (some z) = leb_ℤ (pos 0) z

-- `v == tx_dict.get("from")`, for a `v` that is a valid address and so a text
unfoldable pub is_sender : Json → Option Json → Bool
is_sender (str a) (some v) = is_str v a
is_sender _ _ = false

-- `"to" not in out or "amount" not in out` asks for the second key only if the first is there.
unfoldable pub lacks_amount : Bool → Json → Result Bool
lacks_amount true out = do has ← contains "amount" out; ok (not has)
lacks_amount false out = ok true

-- `len(outputs)`
unfoldable pub count_items : Items → ℕ
count_items nil = 0
count_items (cons o os) = suc (count_items os)

-- `not isinstance(outputs, list) or not outputs`
unfoldable pub non_empty_list : Json → Result Items
non_empty_list (arr (cons o os)) = ok (cons o os)
non_empty_list _ = refused outputs_not_list

unfoldable pub check_memo : Option Json → Check
check_memo none = ok tt
check_memo (some (str memo)) = do
  refuse_if (has_code 0 (codes memo)) memo_null_byte
  refuse_if (ltb max_memo_bytes (length (encode memo))) memo_too_long
check_memo (some _) = refused memo_not_str

-- `not isinstance(tx_dict["nonce"], int)`
abbrev pub is_int : Option ℤ → Bool
is_int none = false
is_int (some _) = true

module _ (c : Crypto) where
  -- One round of the loop over the outputs.
  unfoldable pub check_output : Fields → Json → Check
  check_output tx out = do
    has_to ← contains "to" out
    lacks ← lacks_amount has_to out
    refuse_if lacks output_keys
    amount ← subscript "amount" out
    refuse_if (not (positive_int (int_of amount))) amount_not_positive
    to ← subscript "to" out
    refuse_if (not (is_valid_address c to)) invalid_address
    refuse_if (is_sender to (get "from" tx)) own_address

  unfoldable pub check_outputs : Fields → Items → Check
  check_outputs tx nil = ok tt
  check_outputs tx (cons o os) = do check_output tx o; check_outputs tx os

  unfoldable pub check_fields_and_outputs : Fields → Check
  check_fields_and_outputs tx = do
    refuse_if (has_unexpected tx) unexpected_fields
    require_fields required_fields tx
    outputs ← index "outputs" tx
    os ← non_empty_list outputs
    refuse_if (ltb max_outputs (count_items os)) too_many_outputs
    check_outputs tx os
    fee ← index "fee" tx
    refuse_if (not (non_negative_int (int_of fee))) fee_negative
    nonce ← index "nonce" tx
    refuse_if (not (is_int (int_of nonce))) nonce_not_int
    check_memo (get "memo" tx)

  -- `tx_dict.get("from") == burn_address()`
  abbrev from_burn : Option Json → Bool
  from_burn none = false
  from_burn (some v) = is_str v (burn_address c)

  unfoldable pub check_not_from_burn_address : Fields → Check
  check_not_from_burn_address tx = refuse_if (from_burn (get "from" tx)) burn_sender
