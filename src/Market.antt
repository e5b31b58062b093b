-- ===== src/Market.antt =====
-- The orders of src/market.py that arrive from the network: `verify_order` and what it calls. The
-- Stellar SDK's test of an address is a parameter, and the table of orders is a list of rows.
pub mod Offer
use lapsecoin.Prelude.{
  ℕ, suc, String, Bool, true, false, not, ◌&&◌, ◌||◌, Option, none, some, List, [], ◌∷◌, str_eq,
  leb, if◌then◌else◌,
}
use lapsecoin.Prelude.Int.{ℤ, pos, ◌+ℤ◌, leb_ℤ, ltb_ℤ}
use lapsecoin.Prelude.Text.{from_hex}
use lapsecoin.Prelude.Result.{
  Result, Check, ok, refused, raised, index_error, ◌>>=◌, ◌>>◌, refuse_if, order_rejected,
}
use lapsecoin.Json.{Json, Fields, end, field, obj, str, int, get, index, is_str}
use lapsecoin.Crypto.{Crypto, verify, public_key_to_address, is_valid_address}

abbrev pub signed_fields : List String
signed_fields =
    "order_id" ∷ "maker_lapse_addr" ∷ "maker_xlm_addr" ∷ "direction" ∷ "lapse_total"
    ∷ "price_stroops_per_lapse" ∷ "min_fill" ∷ "max_fill" ∷ "expiry_block" ∷ "pubkey" ∷ []

abbrev pub max_orders_per_maker : ℕ
max_orders_per_maker = 20

abbrev pub max_expiry_horizon_blocks : ℕ
max_expiry_horizon_blocks = 100_000

abbrev pub max_orders_total : ℕ
max_orders_total = 50_000

-- A row of the table of orders, as far as the admission reads it.
pub record Row : Type 0 where
  pub maker_lapse_addr : String
  pub cancelled : Bool

unfoldable pub is_signed_field : String → List String → Bool
is_signed_field k [] = false
is_signed_field k (f ∷ fs) = str_eq k f || is_signed_field k fs

unfoldable pub has_unsigned : Fields → Bool
has_unsigned end = false
has_unsigned (field k v d) =
    not (is_signed_field k signed_fields || str_eq k "signature") || has_unsigned d

unfoldable pub lacks_field : List String → Fields → Bool
lacks_field [] order = false
lacks_field (k ∷ ks) order = elim (get k order) [ none ↦ true | some _ ↦ lacks_field ks order ]

-- `isinstance(v, int) and not isinstance(v, bool)`
unfoldable pub whole : String → Json → Result ℤ
whole k (int z) = ok z
whole k _ = refused (order_rejected k)

unfoldable pub whole_field : String → Fields → Result ℤ
whole_field k order = index k order >>= whole k

-- `{k: order[k] for k in SIGNED_FIELDS}`
unfoldable pub signed_part : List String → Fields → Result Fields
signed_part [] order = ok end
signed_part (k ∷ ks) order = do v ← index k order; rest ← signed_part ks order; ok (field k v rest)

unfoldable pub check_direction : Json → Check
check_direction v = refuse_if (not (is_str v "buy" || is_str v "sell")) (order_rejected "direction")

unfoldable pub check_terms : ℤ → ℤ → ℤ → ℤ → Check
check_terms lapse_total price min_fill max_fill = do
  refuse_if (leb_ℤ lapse_total (pos 0)) (order_rejected "lapse_total")
  refuse_if (leb_ℤ price (pos 0)) (order_rejected "price")
  refuse_if (ltb_ℤ min_fill (pos 0) || ltb_ℤ max_fill (pos 0)) (order_rejected "fill bounds")
  refuse_if (ltb_ℤ lapse_total min_fill) (order_rejected "min_fill")
  refuse_if (ltb_ℤ (pos 0) max_fill && ltb_ℤ max_fill min_fill) (order_rejected "max_fill")

unfoldable pub check_expiry : Option ℤ → ℤ → Check
check_expiry none expiry = ok tt
check_expiry (some height) expiry = do
  refuse_if (leb_ℤ expiry height) (order_rejected "already expired")
  refuse_if (ltb_ℤ (height +ℤ pos max_expiry_horizon_blocks) expiry)
      (order_rejected "too far ahead")

unfoldable pub count_rows : List Row → ℕ
count_rows [] = 0
count_rows (r ∷ rows) = suc (count_rows rows)

-- The orders of the maker that are not cancelled.
unfoldable pub live_orders : Json → List Row → ℕ
live_orders maker [] = 0
live_orders maker (r ∷ rows) =
    let rest = live_orders maker rows in
    if is_str maker r.maker_lapse_addr && not r.cancelled then suc rest else rest

unfoldable pub check_admission : List Row → Json → Check
check_admission rows maker = do
  refuse_if (leb max_orders_total (count_rows rows)) (order_rejected "book is full")
  refuse_if (leb max_orders_per_maker (live_orders maker rows))
      (order_rejected "maker at the limit")

-- `bytes.fromhex`, whose ValueError and TypeError are a refusal.
unfoldable pub hex_or_refuse : Json → Result (List ℕ)
hex_or_refuse (str s) = elim (from_hex s) [ none ↦ refused (order_rejected "hex") | some b ↦ ok b ]
hex_or_refuse _ = refused (order_rejected "hex")

module _ (c : Crypto) where
  unfoldable pub address_of : List ℕ → Result String
  address_of pubkey = elim (public_key_to_address c pubkey) [
    | none ↦ raised index_error
    | some a ↦ ok a
  ]

  unfoldable pub verify_signature : Fields → Check
  verify_signature order = do
    pubkey_hex ← index "pubkey" order
    signature_hex ← index "signature" order
    pubkey ← hex_or_refuse pubkey_hex
    signature ← hex_or_refuse signature_hex
    address ← address_of pubkey
    maker ← index "maker_lapse_addr" order
    refuse_if (not (is_str maker address)) (order_rejected "pubkey does not match")
    signed ← signed_part signed_fields order
    refuse_if (not (verify c (c.canonical_json signed) signature pubkey))
        (order_rejected "signature")

  unfoldable pub verify_fields : (Json → Bool) → List Row → Option ℤ → Fields → Check
  verify_fields is_stellar_address rows height order = do
    refuse_if (lacks_field signed_fields order) (order_rejected "missing field")
    refuse_if (lacks_field ("signature" ∷ []) order) (order_rejected "missing signature")
    refuse_if (has_unsigned order) (order_rejected "unexpected field")
    direction ← index "direction" order
    check_direction direction
    lapse_total ← whole_field "lapse_total" order
    price ← whole_field "price_stroops_per_lapse" order
    min_fill ← whole_field "min_fill" order
    max_fill ← whole_field "max_fill" order
    expiry ← whole_field "expiry_block" order
    check_terms lapse_total price min_fill max_fill
    maker ← index "maker_lapse_addr" order
    refuse_if (not (is_valid_address c maker)) (order_rejected "maker_lapse_addr")
    maker_xlm ← index "maker_xlm_addr" order
    refuse_if (not (is_stellar_address maker_xlm)) (order_rejected "maker_xlm_addr")
    check_expiry height expiry
    check_admission rows maker
    verify_signature order

  unfoldable pub verify_order : (Json → Bool) → List Row → Option ℤ → Json → Check
  verify_order is_stellar_address rows height (obj order) =
      verify_fields is_stellar_address rows height order
  verify_order is_stellar_address rows height _ = refused (order_rejected "not an object")
