-- ===== src/Chain/Forged.antt =====
-- A block that claims height 0 on top of a chain: src/block.py takes it for a genesis block, and
-- neither its parent nor its VDF is looked at.
use lapsecoin.Prelude.{
  ℕ, ◌+◌, ◌<◌, ◌≤◌, ◌≡◌, refl, ap, Bool, true, false, not, Option, none, some, List, [], ◌∷◌, ◌++◌,
  arith, eq_iff,
}
use lapsecoin.Prelude.Int.{ℤ, pos, ◌+ℤ◌, ltb_ℤ}
use lapsecoin.Prelude.Result.{
  Check, Reason, over_size_limit, hash_mismatch, timestamp_ahead, timestamp_early, ok, ◌>>◌,
  refuse_if,
}
use lapsecoin.Params.{block_size_limit, timestamp_skew_seconds, min_block_spacing_seconds}
use lapsecoin.Json.{null, end}
use lapsecoin.Tx.Signature.{LruCache}
use lapsecoin.Block.{Block, World, block_hash, block_size, create}
use lapsecoin.Block.Validate
use lapsecoin.Block.Validate.{
  last?, check_size, check_hash, check_parent, check_timestamp, check_builder_and_vdf,
  header_checks, timely, spaced,
}
use lapsecoin.Chain.{ChainState, validate_and_apply, apply_block_with_state, apply_to_state, truthy}
use lapsecoin.Chain.Fork.{is_better_than}

-- No parent, no builder, no proof, and a count of the author's choice.
abbrev pub forged : World → ℤ → ℕ → Block
forged w ts n = create w (record {
  height = 0;
  previous_hash = "";
  timestamp = some ts;
  transactions = [];
  builder = null;
  vdf_output = none;
  vdf_proof = none;
  claimed_iterations = some n;
  hash = none;
  extra = end;
})

abbrev pub with_forged : World → ChainState → ℤ → ℕ → ChainState
with_forged w cs ts n = record {
  chain = cs.chain ++ forged w ts n ∷ [];
  state = cs.state;
  cumulative_iterations = cs.cumulative_iterations + n;
}

refuse_if-false : (b : Bool) (r : Reason) → b ≡ false → refuse_if b r ≡ ok tt
refuse_if-false b r h = rw h refl

pass : (c d : Check) → c ≡ ok tt → d ≡ ok tt → (c >> d) ≡ ok tt
pass c d e f = rw (e, f) refl

-- The checks of a block on a tip with a time, in the tip's own words.
spaced-ok :
    (w : World) (ts t0 : ℤ) (o : Option Block) {tip : Block}
    → o ≡ some tip
    → tip.timestamp ≡ some t0
    → ltb_ℤ ts (t0 +ℤ pos min_block_spacing_seconds) ≡ false
    → spaced w ts o ≡ ok tt
spaced-ok w ts t0 o e f lo = rw (e, f) (refuse_if-false _ timestamp_early lo)

forged-hash : (w : World) (ts : ℤ) (n : ℕ) → check_hash w (forged w ts n) ≡ ok tt
unfolding check_hash block_hash create
forged-hash w ts n =
    refuse_if-false _ hash_mismatch
      (ap not ((eq_iff (block_hash w (forged w ts n)) (block_hash w (forged w ts n))).1 refl))

forged-timestamp :
    (w : World) (now ts t0 : ℤ) (n : ℕ) (chain : List Block) {tip : Block}
    → last? chain ≡ some tip
    → tip.timestamp ≡ some t0
    → ltb_ℤ ts (t0 +ℤ pos min_block_spacing_seconds) ≡ false
    → ltb_ℤ (now +ℤ pos timestamp_skew_seconds) ts ≡ false
    → check_timestamp w now (forged w ts n) chain ≡ ok tt
unfolding check_timestamp create
forged-timestamp w now ts t0 n chain e f lo hi =
    pass _ _ (refuse_if-false _ timestamp_ahead hi) (spaced-ok w ts t0 (last? chain) e f lo)

forged-header :
    (w : World) (now ts t0 : ℤ) (n : ℕ) (chain : List Block) {tip : Block}
    → last? chain ≡ some tip
    → tip.timestamp ≡ some t0
    → ltb_ℤ ts (t0 +ℤ pos min_block_spacing_seconds) ≡ false
    → ltb_ℤ (now +ℤ pos timestamp_skew_seconds) ts ≡ false
    → block_size w (forged w ts n) ≤ block_size_limit
    → header_checks w now (forged w ts n) chain ≡ ok tt
unfolding header_checks check_size check_parent check_builder_and_vdf create
forged-header w now ts t0 n chain e f lo hi size =
    pass _ _ (refuse_if-false _ over_size_limit (ground arith)) (
      pass _ _ (forged-hash w ts n)
        (pass _ _ refl (pass _ _ (forged-timestamp w now ts t0 n chain e f lo hi) refl)))

is_better_than-more :
    (w : World) (a b : ChainState)
    → b.cumulative_iterations < a.cumulative_iterations
    → is_better_than w a b ≡ ok true
unfolding is_better_than
is_better_than-more w a b h = ground arith

-- A block without transactions, builder, parent, VDF proof or other keys, that claims height 0 and
-- a number of iterations that is not 0, with its own hash, is accepted on top of any chain whose
-- tip has a time, when its time keeps the minimal spacing from the tip's and is not too far ahead
-- of the clock, and its size is within the limit; the ledger stays, the cumulative iterations grow
-- by the number that the block claims, and the longer chain is better than the one before.
pub validate_and_apply-forged :
    (w : World) (lru : LruCache) (m : lru.Cache)
    → (cs : ChainState) (tip : Block) (now ts t0 : ℤ) (n : ℕ) → last? cs.chain ≡ some tip
    → tip.timestamp ≡ some t0
    → ltb_ℤ ts (t0 +ℤ pos min_block_spacing_seconds) ≡ false
    → ltb_ℤ (now +ℤ pos timestamp_skew_seconds) ts ≡ false
    → block_size w (forged w ts n) ≤ block_size_limit
    → 0 < n
    → (validate_and_apply w lru now cs (forged w ts n) m ≡ (ok (with_forged w cs ts n), m))
      × (is_better_than w (with_forged w cs ts n) cs ≡ ok true)
unfolding validate_and_apply Validate.validate Validate.apply_transactions Validate.include_all
    apply_block_with_state apply_to_state truthy create
validate_and_apply-forged w lru m cs tip now ts t0 n e f lo hi size h = (
  rw (forged-header w now ts t0 n cs.chain e f lo hi size) refl,
  is_better_than-more w _ _ (omega arith),
)
