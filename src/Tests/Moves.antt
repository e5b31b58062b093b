-- ===== src/Tests/Moves.antt =====
-- Runs of the moves of src/node.py: a block that comes in, one that is committed, and a chain that
-- is taken.
use lapsecoin.Prelude.{◌≤◌, ◌≡◌, refl, some, none, List, [], ◌∷◌, arith, take, length, All}
use lapsecoin.Prelude.Int.{◌+ℤ◌}
use lapsecoin.Prelude.Result.{ok}
use lapsecoin.State
use lapsecoin.State.{State}
use lapsecoin.Block
use lapsecoin.Block.{Block, create_genesis}
use lapsecoin.Chain
use lapsecoin.Chain.{ChainState, from_genesis, from_chain}
use lapsecoin.Chain.Fork
use lapsecoin.Chain.Fork.Search
use lapsecoin.Chain.Fork.Search.{first_difference}
use lapsecoin.Chain.Grow.{NotGenesis}
use lapsecoin.Chain.Replay.{from_genesis-Replays}
use lapsecoin.Mempool
use lapsecoin.Mempool.{Mempool}
use lapsecoin.Node
use lapsecoin.Node.{Node, drop, resume_point}
use lapsecoin.Node.Judge.Sound.{Backed}
use lapsecoin.Node.Draw as Draws
use lapsecoin.Node.Draw.{Draw}
use lapsecoin.Node.Live
use lapsecoin.Node.Live.{Live, commit, apply_better_chain}
use lapsecoin.Node.Live.Inbound.{handle_inbound_block}
use lapsecoin.Node.Live.Relay.{Handled, handle_inbound_block-Handled}
use lapsecoin.Node.Coherent.{IsCoherent}
use lapsecoin.Node.Coherent.Moves.{commit-IsCoherent}
use lapsecoin.Node.Coherent.Resume.{resume_point-from_chain}
use lapsecoin.Node.Coherent.Adopts.{apply_better_chain-IsCoherent}
use lapsecoin.Tests.Data.{no_cache, now, block_1, block_2, value_or}
use lapsecoin.Tests.Draws.{all_verdicts, marked, unjudged, at_genesis}
use lapsecoin.Tests.Pending.{by_fee, no_txs}

abbrev live : Live marked no_cache all_verdicts by_fee
live = record {
  node = record { cs = at_genesis; recent = [] };
  pool = no_txs;
  draw = record { contest = none; anchor = 0; closes = 0 };
  memory = unjudged;
  hint = record { peer = none; reached = 0 };
}

genesis_built : IsCoherent live.node
unfolding Chain.from_genesis Block.create_genesis Block.create
genesis_built = record {
  built = record {
    replays = from_genesis-Replays marked;
    numbered = (refl, tt);
    nonempty = omega arith;
  };
  kept = tt;
}

genesis_named : Fork.tip_hash marked live.node.cs.chain ≡ ok "00"
unfolding Block.block_hash Block.create Block.create_genesis Chain.from_genesis Fork.tip_hash
genesis_named = refl

nothing_judged : Backed marked no_cache all_verdicts live.node.cs "00" live.memory.judged
nothing_judged = λ c. cc c

handle_inbound_block-Handled_example :
    Handled marked no_cache all_verdicts by_fee "00" block_1 live (
      handle_inbound_block marked no_cache all_verdicts by_fee
        (λ i. now)
        5
        block_1
        (some "peer")
        live)
handle_inbound_block-Handled_example =
    handle_inbound_block-Handled marked no_cache all_verdicts by_fee (λ i. now) 5 "00" block_1
      (some "peer") live genesis_named nothing_judged

abbrev committed : Live marked no_cache all_verdicts by_fee
unfolding Live.commit Live.hashes_of Live.switch_to Node.remember_state Node.keep_last
    Chain.apply_block Chain.apply_all Chain.apply_block_with_state Chain.apply_to_state Chain.truthy
    Chain.reward_builder Chain.apply_builder_reward Chain.credit_fees Chain.mint_reward
    Chain.from_genesis Block.create_genesis Block.create Block.block_hash Block.block_fees
    Block.sum_fees State.compute_block_reward State.compute_can_mint State.compute_reward
    State.mint_to State.apply_reward_distribution State.credit ◌+ℤ◌ Draws.open_draw
    Mempool.remove_many
committed = value_or live (commit marked no_cache all_verdicts by_fee 30 5 block_1 live)

block_1-committed : commit marked no_cache all_verdicts by_fee 30 5 block_1 live ≡ ok committed
unfolding Live.commit Live.hashes_of Live.switch_to Node.remember_state Node.keep_last
    Chain.apply_block Chain.apply_all Chain.apply_block_with_state Chain.apply_to_state Chain.truthy
    Chain.reward_builder Chain.apply_builder_reward Chain.credit_fees Chain.mint_reward
    Chain.from_genesis Block.create_genesis Block.create Block.block_hash Block.block_fees
    Block.sum_fees State.compute_block_reward State.compute_can_mint State.compute_reward
    State.mint_to State.apply_reward_distribution State.credit ◌+ℤ◌ Draws.open_draw
    Mempool.remove_many
block_1-committed = refl

one_block : block_1.height ≡ length live.node.cs.chain
unfolding Chain.from_genesis Block.create
one_block = refl

abbrev remote : List Block
remote = create_genesis marked ∷ block_1 ∷ []

shared :
    take (first_difference live.node.cs.chain remote) remote
    ≡ take (first_difference live.node.cs.chain remote) live.node.cs.chain
unfolding Chain.from_genesis Block.create_genesis Block.create Block.block_hash
    Search.first_difference
shared = refl

later : All NotGenesis (drop (first_difference live.node.cs.chain remote) remote)
unfolding Chain.from_genesis Block.create_genesis Block.create Block.block_hash
    Search.first_difference
later = (λ e. omega (arith, e), tt)

apply_better_chain-IsCoherent_example :
    IsCoherent
      (apply_better_chain marked no_cache all_verdicts by_fee (λ i. now) 5 remote live).1.node
apply_better_chain-IsCoherent_example =
    apply_better_chain-IsCoherent marked no_cache all_verdicts by_fee (λ i. now) 5 remote live
      genesis_built shared later

-- The chain with the first block, left for another one: the state at genesis is resumed from.
abbrev rivals : List Block
rivals = create_genesis marked ∷ block_2 ∷ []

abbrev base : ChainState
base = record { chain = create_genesis marked ∷ []; state = State.empty; cumulative_iterations = 0 }

after_commit : IsCoherent committed.node
after_commit =
    commit-IsCoherent marked no_cache all_verdicts by_fee 30 5 block_1 live genesis_built one_block
      block_1-committed

resumed_at_genesis : resume_point committed.node 1 rivals ≡ some base
unfolding Node.resume_point Chain.from_genesis committed
resumed_at_genesis = refl

same_genesis : take 1 rivals ≡ take 1 committed.node.cs.chain
unfolding committed
same_genesis = refl

long_enough : 1 ≤ length committed.node.cs.chain
unfolding committed
long_enough = omega arith

resume_point-from_chain_example :
    (base.chain ≡ take 1 rivals) × (from_chain (take 1 rivals) ≡ ok base)
resume_point-from_chain_example =
    resume_point-from_chain marked no_cache committed.node after_commit rivals 1 same_genesis
      long_enough resumed_at_genesis
