-- ===== src/Node.antt =====
-- src/node.py: what a node does with a chain from a peer, and the states that it keeps to resume
-- from. The states are kept by height, the oldest first.
pub mod Adopt
pub mod Judge
pub mod Draw
pub mod Live
pub mod Coherent
use lapsecoin.Prelude.{
  String, ℕ, zero, suc, ◌+◌, ◌-◌, Bool, true, false, not, Option, none, some, List, [], ◌∷◌, ◌++◌,
  length, take, ltb, leb, ◌==◌, str_eq, if◌then◌else◌,
}
use lapsecoin.Prelude.Int.{ℤ}
use lapsecoin.Prelude.Result.{
  Result, ok, refused, raised, ◌>>=◌, ◌>>◌, refuse_if, index_error, genesis_mismatch,
  validation_error, not_better,
}
use lapsecoin.Tx.Signature.{LruCache}
use lapsecoin.State
use lapsecoin.State.{State}
use lapsecoin.Block.{Block, World, or_missing}
use lapsecoin.Chain.{ChainState}
use lapsecoin.Chain.Fork.{is_better_than}
use lapsecoin.Block.Validate.{last?}
use lapsecoin.Chain.Fork.Search.{first_difference}
use lapsecoin.Chain.Grow.{extend, validate_tail}

abbrev pub recent_state_cache_size : ℕ
recent_state_cache_size = 20

abbrev pub Recent : Type 0
Recent = List (ℕ × (State × ℕ))

pub record Node : Type 0 where
  pub cs : ChainState
  pub recent : Recent

abbrev pub state_at : ℕ → Recent → Option (State × ℕ)
state_at h [] = none
state_at h ((i, v) ∷ r) = if i == h then some v else state_at h r

abbrev pub without : ℕ → Recent → Recent
without h [] = []
without h ((i, v) ∷ r) = let rest = without h r in if i == h then rest else (i, v) ∷ rest

-- `while len(...) > n: popitem(last=False)`
unfoldable pub keep_last : ℕ → Recent → Recent
keep_last n [] = []
keep_last n (e ∷ r) = let rest = keep_last n r in if ltb n (length (e ∷ r)) then rest else e ∷ r

abbrev pub height_of : Option Block → Result ℕ
height_of none = raised index_error
height_of (some b) = ok b.height

-- `cs.height`: what the last block says.
abbrev pub height : ChainState → Result ℕ
height cs = height_of (last? cs.chain)

unfoldable pub remember_state : ChainState → Node → Result Node
remember_state cs node = do
  h ← height cs
  ok (record node {
    recent =
        keep_last recent_state_cache_size
          (without h node.recent ++ (h, (cs.state, cs.cumulative_iterations)) ∷ []);
  })

abbrev pub below : ℕ → Recent → Recent
below h [] = []
below h ((i, v) ∷ r) = let rest = below h r in if leb h i then rest else (i, v) ∷ rest

unfoldable pub forget_states_from : ℕ → Node → Node
forget_states_from h node = record node { recent = below h node.recent }

abbrev resumed : List Block → Option (State × ℕ) → Option ChainState
resumed prefix none = none
resumed prefix (some (s, n)) =
    some (record { chain = prefix; state = s; cumulative_iterations = n })

-- `fork_point` is at least 1, since the genesis blocks are the same; at 0 there is no height to
-- resume from.
abbrev from_cache : Node → ℕ → List Block → Option ChainState
from_cache node zero remote = none
from_cache node (suc zero) remote = resumed (take 1 remote) (some (State.empty, 0))
from_cache node (suc (suc h)) remote =
    resumed (take (suc (suc h)) remote) (state_at (suc h) node.recent)

unfoldable pub resume_point : Node → ℕ → List Block → Option ChainState
resume_point node fork remote =
    if fork == length node.cs.chain then some node.cs else from_cache node fork remote

abbrev pub drop : ℕ → List Block → List Block
drop zero l = l
drop (suc n) [] = []
drop (suc n) (b ∷ l) = drop n l

abbrev hash_at_genesis : List Block → Result String
hash_at_genesis [] = refused genesis_mismatch
hash_at_genesis (b ∷ l) = or_missing b.hash

-- `self.cs.genesis_hash`
abbrev genesis_hash : List Block → Result String
genesis_hash [] = raised index_error
genesis_hash (b ∷ l) = or_missing b.hash

-- `except Exception`: a validation that raises is a rejection.
abbrev caught : Result ChainState → Result ChainState
caught (ok cs) = ok cs
caught (refused e) = refused e
caught (raised x) = refused validation_error

module _ (w : World) (lru : LruCache) where
  open lru use {Cache}

  unfoldable pub same_genesis : Node → List Block → Result (Unit {0})
  same_genesis node remote = do
    theirs ← hash_at_genesis remote
    ours ← genesis_hash node.cs.chain
    refuse_if (not (str_eq theirs ours)) genesis_mismatch

  abbrev built :
      Option ChainState → (ℕ → ℤ) → List Block → List Block → Cache → Result ChainState × Cache
  built (some base) clock tail prefix m = extend w lru clock 0 tail base m
  built none clock tail prefix m = validate_tail w lru clock tail prefix m

  unfoldable pub build_remote : Node → (ℕ → ℤ) → List Block → Cache → Result ChainState × Cache
  build_remote node clock remote m =
      let fork = first_difference node.cs.chain remote in
      built (resume_point node fork remote) clock (drop fork remote) (take fork remote) m

  abbrev only_better : Node → ChainState → Result ChainState
  only_better node remote_cs = do
    better ← is_better_than w remote_cs node.cs
    refuse_if (not better) not_better
    ok remote_cs

  abbrev judge : Result (Unit {0}) → Node → (ℕ → ℤ) → List Block → Cache → Result ChainState × Cache
  judge (ok u) node clock remote m =
      let (r, m') = build_remote node clock remote m in
      ((do remote_cs ← caught r; only_better node remote_cs), m')
  judge (refused e) node clock remote m = (refused e, m)
  judge (raised x) node clock remote m = (raised x, m)

  unfoldable pub evaluate_remote_chain :
      Node → (ℕ → ℤ) → List Block → Cache → Result ChainState × Cache
  evaluate_remote_chain node clock remote m = judge (same_genesis node remote) node clock remote m
