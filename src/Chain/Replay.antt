-- ===== src/Chain/Replay.antt =====
-- `from_chain` of src/chainstate.py rebuilds what `validate_and_apply` built block by block.
use lapsecoin.Prelude.{ℕ, ◌+◌, ◌≡◌, ◌≢◌, refl, ap, ◌∙◌, List, [], ◌∷◌, ◌++◌, arith}
use lapsecoin.Prelude.Int.{ℤ}
use lapsecoin.Prelude.Result.{ok, ◌>>=◌, bind-ok, bind_assoc}
use lapsecoin.Json.{Json}
use lapsecoin.Tx.{board_fee_floor}
use lapsecoin.Tx.Signature.{LruCache}
use lapsecoin.State
use lapsecoin.State.{State}
use lapsecoin.Block.{Block, World, create_genesis}
use lapsecoin.Block.Retarget.{iterations_or}
use lapsecoin.Block.Ran.{Ran, done, step}
use lapsecoin.Chain.{
  ChainState, cumulative, apply_all, apply_to_state, replay_block, replay, from_chain, from_genesis,
  validate_and_apply,
}
use lapsecoin.Chain.Accepted.{Accepted, validate_and_apply-Accepted}

-- The chain's own blocks lead to its state and its count of proven iterations.
pub record Replays (cs : ChainState) : Type 0 where
  pub state-eq : replay cs.chain State.empty ≡ ok cs.state
  pub iterations-eq : cumulative cs.chain ≡ cs.cumulative_iterations

pub replay-append :
    (chain : List Block) (blk : Block) (s : State)
    → replay (chain ++ blk ∷ []) s ≡ (do s' ← replay chain s; replay_block blk s')
unfolding replay
replay-append [] blk s = bind-ok (replay_block blk s)
replay-append (b ∷ chain) blk s =
    bind_assoc (replay_block b s) (replay chain) (replay_block blk) (replay (chain ++ blk ∷ []))
      (replay-append chain blk)

pub cumulative-append :
    (chain : List Block) (blk : Block)
    → cumulative (chain ++ blk ∷ []) ≡ cumulative chain + cumulative (blk ∷ [])
unfolding cumulative
cumulative-append [] blk = omega arith
cumulative-append (b ∷ chain) blk = omega (arith, cumulative-append chain blk)

pub cumulative-one :
    (blk : Block) → blk.height ≢ 0 → cumulative (blk ∷ []) ≡ iterations_or 0 blk.claimed_iterations
unfolding cumulative
cumulative-one blk h = ground arith

Ran-apply_all :
    (w : World) (lru : LruCache) (floor : ℕ) {ts : List Json} {s s' : State}
    → Ran w lru floor ts s s'
    → apply_all ts s ≡ ok s'
unfolding apply_all
Ran-apply_all w lru floor done = refl
Ran-apply_all w lru floor (step tx m a e r) = rw e (Ran-apply_all w lru floor r)

pub replay_block-eq :
    (blk : Block) (s probe s' : State)
    → blk.height ≢ 0
    → apply_all blk.transactions s ≡ ok probe
    → apply_to_state probe blk ≡ ok s'
    → replay_block blk s ≡ ok s'
unfolding replay_block
replay_block-eq blk s probe s' h e f = ground arith

-- The genesis chain replays to the empty ledger.
pub from_genesis-Replays : (w : World) → Replays (from_genesis w)
unfolding from_genesis create_genesis replay replay_block cumulative
from_genesis-Replays w = record { state-eq = refl; iterations-eq = refl }

-- An accepted block that is not a genesis block keeps the chain replayable.
pub validate_and_apply-Replays :
    (w : World) (lru : LruCache) (now : ℤ) (cs : ChainState) (blk : Block) (m : lru.Cache)
    {cs' : ChainState}
    → Replays cs
    → blk.height ≢ 0
    → (validate_and_apply w lru now cs blk m).0 ≡ ok cs'
    → Replays cs'
validate_and_apply-Replays w lru now cs blk m {cs' = cs'} r h e =
    let a : Accepted w lru now cs blk cs' = validate_and_apply-Accepted w lru now cs blk m e in
    let floor = board_fee_floor cs.state.total_board_posts in
    let one =
      replay_block-eq blk cs.state a.probe cs'.state h (Ran-apply_all w lru floor a.ran)
        a.settled in
    record {
      state-eq =
          ap (λ c. replay c State.empty) a.chain-eq
          ∙ replay-append cs.chain blk State.empty
          ∙ ap (λ q. q >>= replay_block blk) r.state-eq
          ∙ one;
      iterations-eq =
          ap cumulative a.chain-eq
          ∙ cumulative-append cs.chain blk
          ∙ omega (arith, r.iterations-eq, cumulative-one blk h, a.iterations-eq);
    }

-- What `from_chain` makes of a replayable chain is the chain state itself.
pub from_chain-Replays : (cs : ChainState) → Replays cs → from_chain cs.chain ≡ ok cs
unfolding from_chain
from_chain-Replays cs r = rw (r.state-eq, r.iterations-eq)
