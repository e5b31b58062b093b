-- ===== src/Block/Validate.antt =====
-- `validate` of src/block.py and its five checks. The clock is an argument; the last check applies
-- the transactions to the state that the caller hands over, a private copy.
use lapsecoin.Prelude.{
  ℕ, ◌+◌, String, Bool, false, not, Option, none, some, List, [], ◌∷◌, str_eq, ltb, ◌==◌,
  if◌then◌else◌,
}
use lapsecoin.Prelude.Int.{ℤ, pos, ◌+ℤ◌, ltb_ℤ}
use lapsecoin.Prelude.Result.{
  Result, Check, ok, refused, raised, ◌>>=◌, ◌>>◌, refuse_if, over_size_limit, hash_mismatch,
  no_parent, parent_mismatch, height_gap, no_timestamp, timestamp_ahead, timestamp_early,
  invalid_builder, no_vdf, iterations_mismatch, invalid_vdf, tx_not_dict, invalid_tx, type_error,
}
use lapsecoin.Params.{
  block_size_limit, vdf_iterations, timestamp_skew_seconds, min_block_spacing_seconds,
}
use lapsecoin.Json.{Json, str, obj}
use lapsecoin.Crypto.{is_valid_address}
use lapsecoin.Tx.{board_fee_floor}
use lapsecoin.Tx.Signature.{LruCache}
use lapsecoin.Tx.Validate
use lapsecoin.State.{State, apply_tx, view}
use lapsecoin.Block.{Block, World, or_missing, block_hash, block_size, vdf_challenge, vdf_verify}
use lapsecoin.Block.Retarget.{get_vdf_iterations, iterations_or}

-- `chain[-1] if chain else None`
abbrev pub last? {ℓ} : {A : Type ℓ} → List A → Option A
last? [] = none
last? (b ∷ []) = some b
last? (b ∷ c ∷ chain) = last? (c ∷ chain)

abbrev pub same_text : Option String → String → Bool
same_text none s = false
same_text (some t) s = str_eq t s

module _ (w : World) where
  unfoldable pub check_size : Block → Check
  check_size blk = refuse_if (ltb block_size_limit (block_size w blk)) over_size_limit

  unfoldable pub check_hash : Block → Check
  check_hash blk = refuse_if (not (same_text blk.hash (block_hash w blk))) hash_mismatch

  abbrev pub follows : Block → Option Block → Check
  follows blk none = refused no_parent
  follows blk (some parent) = do
    parent_hash ← or_missing parent.hash
    refuse_if (not (str_eq blk.previous_hash parent_hash)) parent_mismatch
    refuse_if (not (blk.height == parent.height + 1)) height_gap

  unfoldable pub check_parent : Block → List Block → Check
  check_parent blk chain = if blk.height == 0 then ok tt else follows blk (last? chain)

  abbrev pub spaced : ℤ → Option Block → Check
  spaced ts none = ok tt
  spaced ts (some parent) = do
    parent_ts ← or_missing parent.timestamp
    refuse_if (ltb_ℤ ts (parent_ts +ℤ pos min_block_spacing_seconds)) timestamp_early

  abbrev pub timely : ℤ → Option ℤ → Option Block → Check
  timely now none parent = refused no_timestamp
  timely now (some ts) parent = do
    refuse_if (ltb_ℤ (now +ℤ pos timestamp_skew_seconds) ts) timestamp_ahead
    spaced ts parent

  unfoldable pub check_timestamp : ℤ → Block → List Block → Check
  check_timestamp now blk chain = timely now blk.timestamp (last? chain)

  abbrev pub builder_text : Json → Result String
  builder_text (str s) = ok s
  builder_text _ = refused invalid_builder

  abbrev pub or_no_vdf : Option String → Result String
  or_no_vdf none = refused no_vdf
  or_no_vdf (some s) = ok s

  -- `chain[-1]["hash"]`: this runs after `_check_parent`, so there is a last block.
  abbrev pub tip_hash : Option Block → Result String
  tip_hash none = raised type_error
  tip_hash (some b) = or_missing b.hash

  unfoldable pub check_proof : Block → List Block → Check
  check_proof blk chain = do
    refuse_if (not (is_valid_address w.crypto blk.builder)) invalid_builder
    builder ← builder_text blk.builder
    output ← or_no_vdf blk.vdf_output
    proof ← or_no_vdf blk.vdf_proof
    expected ← get_vdf_iterations chain
    refuse_if (not (iterations_or vdf_iterations blk.claimed_iterations == expected))
        iterations_mismatch
    parent ← tip_hash (last? chain)
    challenge ← vdf_challenge w parent builder
    refuse_if
        (not (
          vdf_verify w challenge output proof
            (iterations_or vdf_iterations blk.claimed_iterations)))
        invalid_vdf

  unfoldable pub check_builder_and_vdf : Block → List Block → Check
  check_builder_and_vdf blk chain = if blk.height == 0 then ok tt else check_proof blk chain

  unfoldable pub header_checks : ℤ → Block → List Block → Check
  header_checks now blk chain = do
    check_size blk
    check_hash blk
    check_parent blk chain
    check_timestamp now blk chain
    check_builder_and_vdf blk chain

  -- `return False, f"invalid tx: {err}"`
  abbrev pub as_invalid_tx : Check → Check
  as_invalid_tx (ok u) = ok u
  as_invalid_tx (refused e) = refused (invalid_tx e)
  as_invalid_tx (raised x) = raised x

  module _ (lru : LruCache) where
    open lru use {Cache}

    -- What follows one transaction: the rest of the loop, or its early return.
    abbrev pub continue :
        Result State × Cache → (State → Cache → Result State × Cache) → Result State × Cache
    continue (ok s, m) rest = rest s m
    continue (refused e, m) rest = (refused e, m)
    continue (raised x, m) rest = (raised x, m)

    unfoldable pub include_tx : ℕ → Json → State → Cache → Result State × Cache
    include_tx floor (obj t) s m =
        let (answer, m') = Validate.validate w.crypto lru t (view s) (some floor) m in
        ((do as_invalid_tx answer; apply_tx t s), m')
    include_tx floor _ s m = (refused tx_not_dict, m)

    unfoldable pub include_all : ℕ → List Json → State → Cache → Result State × Cache
    include_all floor [] s m = (ok s, m)
    include_all floor (t ∷ ts) s m =
        continue (include_tx floor t s m) (λ s' m'. include_all floor ts s' m')

    -- `_apply_transactions`: the floor is that of the state before the block's own transactions.
    unfoldable pub apply_transactions : Block → State → Cache → Result State × Cache
    apply_transactions blk s m =
        include_all (board_fee_floor s.total_board_posts) blk.transactions s m

    abbrev pub after_header : Check → Block → State → Cache → Result State × Cache
    after_header (ok u) blk s m = apply_transactions blk s m
    after_header (refused e) blk s m = (refused e, m)
    after_header (raised x) blk s m = (raised x, m)

    -- The state is the one that the transactions leave.
    unfoldable pub validate : ℤ → Block → State → List Block → Cache → Result State × Cache
    validate now blk s chain m = after_header (header_checks now blk chain) blk s m
