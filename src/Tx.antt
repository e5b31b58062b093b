-- ===== src/Tx.antt =====
-- src/tx.py: a transaction is a decoded JSON dict. Here are the parts that other modules use; the
-- checks of `validate` are in the children.
pub mod Shape
pub mod Signature
pub mod Validate
pub mod Payable
pub mod Accepted
pub mod Cached
use lapsecoin.Prelude.{
  ℕ, zero, suc, ◌+◌, ◌*◌, ◌/◌, ◌^◌, ◌<◌, String, Bool, true, false, ◌&&◌, Option, none, some, List,
  [], ◌∷◌, length, str_eq, ltb, if◌then◌else◌,
}
use lapsecoin.Prelude.Int.{ℤ, pos, ◌+ℤ◌}
use lapsecoin.Prelude.Result.{Result, ok, raised, attribute_error, type_error, ◌>>=◌}
use lapsecoin.Json.{
  Json, Items, nil, cons, Fields, end, field, arr, get, index, as_int, as_str, str_of,
  or_attribute_error, subscript,
}
use lapsecoin.Crypto.{Crypto}
use text.Mathlib.Text.{starts_with}

abbrev pub max_memo_bytes : ℕ
max_memo_bytes = 200

abbrev pub board_memo_tag : String
board_memo_tag = "[board] "

abbrev pub board_base_fee : ℕ
board_base_fee = 1

abbrev pub board_step_size : ℕ
board_step_size = 250

abbrev pub board_fee_ratio : ℕ
board_fee_ratio = 3

abbrev pub max_outputs : ℕ
max_outputs = 500

-- `{k: v for k, v in tx_dict.items() if k != "signature"}`
unfoldable pub unsigned : Fields → Fields
unsigned end = end
unsigned (field k v d) =
    let rest = unsigned d in if str_eq k "signature" then rest else field k v rest

unfoldable pub serialize_for_signing : Crypto → Fields → List ℕ
unfolding unsigned
serialize_for_signing c tx = c.canonical_json (unsigned tx)

unfoldable pub tx_hash : Crypto → Fields → String
unfolding unsigned
tx_hash c tx = c.sha256_hex (c.canonical_json (unsigned tx))

unfoldable pub tx_size : Crypto → Fields → ℕ
unfolding unsigned
tx_size c tx = length (c.canonical_json (unsigned tx))

unfoldable pub tx_size_in_block : Crypto → Fields → ℕ → ℕ
tx_size_in_block c tx position = length (c.canonical_json tx) + (if ltb 0 position then 1 else 0)

-- `tx_dict.get("memo", "").startswith(BOARD_MEMO_TAG)`: a memo that is no text has no such method.
abbrev pub starts_with_tag : Option Json → Result Bool
starts_with_tag none = ok false
starts_with_tag (some memo) = do
  s ← or_attribute_error (str_of memo)
  ok (starts_with s board_memo_tag)

unfoldable pub is_board_post : Fields → Result Bool
is_board_post tx = starts_with_tag (get "memo" tx)

unfoldable pub board_fee_floor : ℕ → ℕ
board_fee_floor total_board_posts =
    let step = total_board_posts / board_step_size in board_base_fee * board_fee_ratio ^ step

-- `out["to"]` and `out["amount"]`, where the code uses them as a key and as a number.
abbrev pub addr_of : Json → Result String
addr_of out = do to ← subscript "to" out; as_str to

abbrev pub amount_of : Json → Result ℤ
amount_of out = do amount ← subscript "amount" out; as_int amount

-- `sum(o["amount"] for o in outputs)`
unfoldable pub sum_amounts : Items → Result ℤ
sum_amounts nil = ok (pos 0)
sum_amounts (cons o os) = do z ← amount_of o; rest ← sum_amounts os; ok (z +ℤ rest)

-- The list that a `for` over the outputs walks.
abbrev pub as_items : Json → Result Items
as_items (arr os) = ok os
as_items _ = raised type_error

-- `tx_dict["from"]` as the key of a table, `tx_dict["outputs"]` as a list to walk, and
-- `tx_dict["nonce"]` or `tx_dict["fee"]` as a number.
unfoldable pub sender : Fields → Result String
sender tx = do from ← index "from" tx; as_str from

unfoldable pub outputs : Fields → Result Items
outputs tx = do os ← index "outputs" tx; as_items os

unfoldable pub int_field : String → Fields → Result ℤ
int_field k tx = do v ← index k tx; as_int v
