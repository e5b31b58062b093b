-- ===== src/Chain.antt =====
-- src/chainstate.py: the chain and its ledger as one value. A method returns a new `ChainState`.
pub mod Fork
pub mod Supply
pub mod Accepted
pub mod Extends
pub mod Backed
pub mod Replay
pub mod Grow
pub mod Forged
use lapsecoin.Prelude.{
  ℕ, zero, suc, ◌+◌, String, Bool, true, false, not, Option, none, some, List, [], ◌∷◌, ◌++◌,
  str_eq, ltb, leb, ◌==◌, if◌then◌else◌,
}
use lapsecoin.Prelude.Int.{ℤ, pos, ltb_ℤ}
use lapsecoin.Prelude.Result.{Result, ok, refused, raised, ◌>>=◌, type_error}
use lapsecoin.Json.{
  Json, null, bool, int, float, str, arr, obj, Fields, Items, nil, cons, end, field,
}
use lapsecoin.Tx.Signature.{LruCache}
use lapsecoin.State
use lapsecoin.State.{State, credit, apply_tx, apply_reward_distribution, compute_block_reward}
use lapsecoin.Block.{Block, World, block_fees, create_genesis}
use lapsecoin.Block.Retarget.{iterations_or}
use lapsecoin.Block.Validate

-- Python's truth of a value; a number is true unless it is zero.
unfoldable pub truthy : Json → Bool
truthy null = false
truthy (bool b) = b
truthy (int (pos zero)) = false
truthy (float (pos zero)) = false
truthy (str s) = not (str_eq s "")
truthy (arr nil) = false
truthy (obj end) = false
truthy _ = true

unfoldable pub credit_fees : String → ℤ → State → Result State
credit_fees builder total_fees s =
    if ltb_ℤ (pos 0) total_fees then credit builder total_fees s else ok s

unfoldable pub mint_reward : String → State → Result State
mint_reward builder s =
    let reward = compute_block_reward s in
    if leb 1 reward then apply_reward_distribution ((builder, pos reward) ∷ []) s else ok s

unfoldable pub apply_builder_reward : State → String → Block → Result State
apply_builder_reward s builder blk = do
  total_fees ← block_fees blk
  s' ← credit_fees builder total_fees s
  mint_reward builder s'

-- The ledger's key is a text; a builder that is true and no text does not pass validation, except
-- in a block of height 0, and is an exception here.
unfoldable pub reward_builder : Json → State → Block → Result State
reward_builder (str builder) s blk = apply_builder_reward s builder blk
reward_builder _ s blk = raised type_error

unfoldable pub apply_to_state : State → Block → Result State
apply_to_state s blk = if truthy blk.builder then reward_builder blk.builder s blk else ok s

pub record ChainState : Type 0 where
  pub chain : List Block
  pub state : State
  pub cumulative_iterations : ℕ

-- `sum(blk.get("vdf_iterations", 0) for blk in chain if blk["height"] > 0)`
unfoldable pub cumulative : List Block → ℕ
cumulative [] = 0
cumulative (b ∷ chain) =
    (if ltb 0 b.height then iterations_or 0 b.claimed_iterations else 0) + cumulative chain

unfoldable pub from_genesis : World → ChainState
from_genesis w = record {
  chain = create_genesis w ∷ [];
  state = State.empty;
  cumulative_iterations = 0;
}

-- `for t in blk["transactions"]: state.apply_tx(t)`
unfoldable pub apply_all : List Json → State → Result State
apply_all [] s = ok s
apply_all (obj t ∷ ts) s = do s' ← apply_tx t s; apply_all ts s'
apply_all (_ ∷ ts) s = raised type_error

-- One round of the replay; the genesis block does nothing.
unfoldable pub replay_block : Block → State → Result State
replay_block blk s =
    if blk.height == 0 then ok s else (do s' ← apply_all blk.transactions s; apply_to_state s' blk)

unfoldable pub replay : List Block → State → Result State
replay [] s = ok s
replay (b ∷ chain) s = do s' ← replay_block b s; replay chain s'

unfoldable pub from_chain : List Block → Result ChainState
from_chain chain = do
  s ← replay chain State.empty
  ok (record { chain = chain; state = s; cumulative_iterations = cumulative chain })

unfoldable pub from_storage : List Block → State → ChainState
from_storage chain stored = record {
  chain = chain;
  state = stored;
  cumulative_iterations = cumulative chain;
}

-- `_apply_block_with_state`
unfoldable pub apply_block_with_state : ChainState → Block → State → Result ChainState
apply_block_with_state cs blk post_tx = do
  s ← apply_to_state post_tx blk
  ok (record {
    chain = cs.chain ++ blk ∷ [];
    state = s;
    cumulative_iterations = cs.cumulative_iterations + iterations_or 0 blk.claimed_iterations;
  })

unfoldable pub apply_block : ChainState → Block → Result ChainState
apply_block cs blk = do
  post_tx ← apply_all blk.transactions cs.state
  apply_block_with_state cs blk post_tx

-- The probe is a copy of the state. A refusal is `(False, err, self)`: the chain state is as it was.
unfoldable pub validate_and_apply :
    (w : World) (lru : LruCache)
    → ℤ
    → ChainState
    → Block
    → lru.Cache
    → Result ChainState × lru.Cache
validate_and_apply w lru now cs blk m =
    let (probe, m') = Validate.validate w lru now blk cs.state cs.chain m in
    ((do s ← probe; apply_block_with_state cs blk s), m')
