-- ===== src/Block.antt =====
-- src/block.py: a block, its hash and size, and what its VDF is evaluated over. A block is a dict
-- with fixed keys; the record has an `Option` for each key that the code reads by `.get` or whose
-- type it tests, `none` being both absence and another type; `extra` holds the keys that no check
-- reads (the genesis message, `tx_bytes`). Timestamps are in microseconds.
pub mod Retarget
pub mod Validate
pub mod Ran
pub mod Assemble
use lapsecoin.Prelude.{
  ℕ, ◌+◌, ◌*◌, String, Option, none, some, List, [], ◌∷◌, ◌++◌, length, Bool, true, false, str_eq,
  if◌then◌else◌,
}
use lapsecoin.Prelude.Int.{ℤ, pos, ◌+ℤ◌}
use lapsecoin.Prelude.Text.{encode, from_hex}
use lapsecoin.Prelude.Result.{Result, ok, raised, key_error, value_error, type_error, ◌>>=◌}
use lapsecoin.Params.{vdf_iterations, genesis_message, genesis_timestamp}
use lapsecoin.Json.{Json, null, str, obj, Fields, field, end, get, as_int}
use lapsecoin.Crypto.{Crypto}

pub record Block : Type 0 where
  pub height : ℕ
  pub previous_hash : String
  pub timestamp : Option ℤ
  pub transactions : List Json
  pub builder : Json
  pub vdf_output : Option String
  pub vdf_proof : Option String
  pub claimed_iterations : Option ℕ
  pub hash : Option String
  pub extra : Fields

-- What stands outside the repository: the primitives of crypto.py, the serializer on a block, and
-- the class group VDF of chiavdf, whose calls may raise.
pub record World : Type 0 where
  pub crypto : Crypto
  pub open crypto use *
  pub block_json : Block → List ℕ
  pub create_discriminant : List ℕ → Option (List ℕ)
  pub verify_n_wesolowski : List ℕ → List ℕ → ℕ → Option Bool

-- `vdf.verify`: whatever raises makes the proof invalid.
unfoldable pub vdf_verify : World → List ℕ → String → String → ℕ → Bool
vdf_verify w challenge output proof iterations = elim (w.create_discriminant challenge) [
  | none ↦ false
  | some disc ↦ elim (from_hex output) [
    | none ↦ false
    | some out ↦ elim (from_hex proof) [
      | none ↦ false
      | some prf ↦ elim (w.verify_n_wesolowski disc (out ++ prf) iterations) [
        | none ↦ false
        | some answer ↦ answer
      ]
    ]
  ]
]

abbrev pub or_value_error {ℓ} : {A : Type ℓ} → Option A → Result A
or_value_error none = raised value_error
or_value_error (some a) = ok a

abbrev pub or_missing {ℓ} : {A : Type ℓ} → Option A → Result A
or_missing none = raised key_error
or_missing (some a) = ok a

unfoldable pub vdf_challenge : World → String → String → Result (List ℕ)
vdf_challenge w previous_hash builder = do
  prefix ← or_value_error (from_hex previous_hash)
  ok (w.sha256 (prefix ++ encode builder))

-- `blk.get("vdf_output") or blk["hash"]`
abbrev first_text : Option String → Option String → Result String
first_text none hash = or_missing hash
first_text (some output) hash = if str_eq output "" then or_missing hash else ok output

unfoldable pub tie_break_key : Block → Result String
tie_break_key blk = first_text blk.vdf_output blk.hash

unfoldable pub block_hash : World → Block → String
block_hash w blk = w.sha256_hex (w.block_json (record blk { hash = none }))

unfoldable pub block_size : World → Block → ℕ
block_size w blk = length (w.block_json blk)

-- `t.get("fee", 0)`
abbrev fee_or_zero : Option Json → Result ℤ
fee_or_zero none = ok (pos 0)
fee_or_zero (some v) = as_int v

unfoldable pub tx_fee : Json → Result ℤ
tx_fee (obj t) = fee_or_zero (get "fee" t)
tx_fee _ = raised type_error

unfoldable pub sum_fees : List Json → Result ℤ
sum_fees [] = ok (pos 0)
sum_fees (t ∷ ts) = do fee ← tx_fee t; rest ← sum_fees ts; ok (fee +ℤ rest)

unfoldable pub block_fees : Block → Result ℤ
block_fees blk = sum_fees blk.transactions

-- `create`: the block with the hash of its own fields.
unfoldable pub create : World → Block → Block
unfolding block_hash
create w blk = record blk { hash = some (block_hash w blk) }

-- `"0" * 64`
abbrev pub zero_hash : String
zero_hash = "0000000000000000000000000000000000000000000000000000000000000000"

unfoldable pub create_genesis : World → Block
unfolding create
create_genesis w = create w (record {
  height = 0;
  previous_hash = zero_hash;
  timestamp = some (pos genesis_timestamp);
  transactions = [];
  builder = null;
  vdf_output = none;
  vdf_proof = none;
  claimed_iterations = some vdf_iterations;
  hash = none;
  extra = field "message" (str genesis_message) end;
})
