-- ===== src/Chain/Fork.antt =====
-- Fork choice of src/chainstate.py: the first difference of two chains, and which chain is better.
pub mod Search
pub mod Linked
pub mod Tie
use lapsecoin.Prelude.{
  ℕ, zero, suc, ◌+◌, ◌-◌, ◌/◌, String, Bool, true, false, ◌&&◌, ◌||◌, Option, none, some, List, [],
  ◌∷◌, length, get_elem?, str_eq, ltb, ◌==◌, if◌then◌else◌,
}
use Prim.Native.Nat.{min}
use lapsecoin.Prelude.Text.{codes, encode, join}
use lapsecoin.Prelude.Result.{Result, ok, raised, index_error, ◌>>=◌}
use lapsecoin.Block.{Block, World, or_missing, tie_break_key}
use lapsecoin.Block.Retarget.{block_at}
use lapsecoin.Block.Validate.{last?}
use lapsecoin.Chain.{ChainState}

-- Do two optional texts hold the same text? A block of a chain has its hash.
abbrev pub same_hash : Option String → Option String → Bool
same_hash (some a) (some b) = str_eq a b
same_hash _ _ = false

abbrev block_agrees : Option Block → Option Block → Bool
block_agrees (some a) (some b) = same_hash a.hash b.hash
block_agrees _ _ = false

-- `chain_a[i]["hash"] == chain_b[i]["hash"]`
unfoldable pub agree : List Block → List Block → ℕ → Bool
agree chain_a chain_b i = block_agrees (get_elem? chain_a i) (get_elem? chain_b i)

-- The binary search, on fuel; `none` is running out of it.
unfoldable pub search_fork : (ℕ → Bool) → ℕ → ℕ → ℕ → Option ℕ
search_fork same zero lo hi = none
search_fork same (suc fuel) lo hi = elim (ltb lo hi) [
  | false ↦ some lo
  | true ↦
      let mid = (lo + hi) / 2 in
      elim (same mid) [
        | true ↦ search_fork same fuel (mid + 1) hi
        | false ↦ search_fork same fuel lo mid
      ]
]

-- The interval halves, so its length and one round more is enough fuel.
unfoldable pub fork_point : List Block → List Block → Option ℕ
fork_point chain_a chain_b =
    let hi = min (length chain_a) (length chain_b) in
    search_fork (agree chain_a chain_b) (hi + 1) 0 hi

-- Python's `<` on texts: by code points, a prefix first.
unfoldable pub codes_lt : List ℕ → List ℕ → Bool
codes_lt [] [] = false
codes_lt [] (y ∷ ys) = true
codes_lt (x ∷ xs) [] = false
codes_lt (x ∷ xs) (y ∷ ys) = ltb x y || (x == y && codes_lt xs ys)

abbrev pub text_lt : String → String → Bool
text_lt a b = codes_lt (codes a) (codes b)

unfoldable pub key_at : List Block → ℕ → Result String
key_at chain i = do b ← block_at chain i; tie_break_key b

pub record Tally : Type 0 where
  pub self_wins : ℕ
  pub other_wins : ℕ

abbrev pub vote : String → String → Tally → Tally
vote a b t =
    if text_lt a b
    then record t { self_wins = suc t.self_wins }
    else if text_lt b a
    then record t { other_wins = suc t.other_wins }
    else t

-- `for i in range(i, i + n)`
unfoldable pub tally : ℕ → List Block → List Block → ℕ → Result Tally
tally zero self other i = ok (record { self_wins = 0; other_wins = 0 })
tally (suc n) self other i = do
  a ← key_at self i
  b ← key_at other i
  rest ← tally n self other (i + 1)
  ok (vote a b rest)

unfoldable pub keys : ℕ → List Block → ℕ → Result (List String)
keys zero chain i = ok []
keys (suc n) chain i = do k ← key_at chain i; ks ← keys n chain (i + 1); ok (k ∷ ks)

module _ (w : World) where
  -- `_fallback_key`
  unfoldable pub fallback_key : List Block → ℕ → ℕ → Result String
  fallback_key chain fork_idx n = do
    ks ← keys n chain fork_idx
    ok (w.sha256_hex (encode (join "" ks)))

  abbrev pub or_stuck : Option ℕ → Result ℕ
  or_stuck none = raised index_error
  or_stuck (some i) = ok i

  abbrev pub decide_tie : Tally → Result String → Result String → Result Bool
  decide_tie t a b =
      if t.self_wins == t.other_wins
      then (do ka ← a; kb ← b; ok (text_lt ka kb))
      else ok (ltb t.other_wins t.self_wins)

  -- `_wins_tie_break`; `end - fork_idx` is the number of shared heights after the fork.
  unfoldable pub wins_tie_break : List Block → List Block → Result Bool
  wins_tie_break self other = do
    fork_idx ← or_stuck (fork_point self other)
    let n = min (length self) (length other) - fork_idx
    t ← tally n self other fork_idx
    decide_tie t (fallback_key self fork_idx n) (fallback_key other fork_idx n)

  -- `self.tip["hash"]`
  unfoldable pub tip_hash : List Block → Result String
  tip_hash chain = elim (last? chain) [ none ↦ raised index_error | some b ↦ or_missing b.hash ]

  abbrev pub unless_same_tip : String → String → List Block → List Block → Result Bool
  unless_same_tip a b self other = if str_eq a b then ok false else wins_tie_break self other

  unfoldable pub is_better_than : ChainState → ChainState → Result Bool
  is_better_than self other =
      if self.cumulative_iterations == other.cumulative_iterations
      then (do
        a ← tip_hash self.chain
        b ← tip_hash other.chain
        unless_same_tip a b self.chain other.chain)
      else ok (ltb other.cumulative_iterations self.cumulative_iterations)
