-- ===== src/Node/Live/Inbound.antt =====
-- and whom to ask when it shows that the node is behind.
use lapsecoin.Prelude.{
  ℕ, ◌+◌, String, Bool, true, false, not, ◌&&◌, Option, none, some, List, [], ◌∷◌, ◌++◌, str_eq,
  ltb, ◌==◌, if◌then◌else◌,
}
use lapsecoin.Prelude.Int.{ℤ}
use lapsecoin.Prelude.Result.{Result, Check, ok, refused, raised, ◌>>=◌, index_error}
use lapsecoin.Tx.Signature.{LruCache}
use lapsecoin.Block.{Block, World, or_missing, tie_break_key}
use lapsecoin.Block.Validate.{last?, same_text}
use lapsecoin.Chain.{ChainState}
use lapsecoin.Chain.Fork.{text_lt, tip_hash}
use lapsecoin.Mempool.{Rates}
use lapsecoin.Node.{height}
use lapsecoin.Node.Judge.{VerdictCache, Memory, validate_candidate}
use lapsecoin.Node.Draw.{draw_is_open}
use lapsecoin.Node.Live.{Live, apply_better_chain}

-- `cs.chain[-1]`
abbrev pub or_index {ℓ} : {A : Type ℓ} → Option A → Result A
or_index none = raised index_error
or_index (some a) = ok a

-- `cs.chain[:-1]`
abbrev pub but_last : List Block → List Block
but_last [] = []
but_last (b ∷ []) = []
but_last (b ∷ c ∷ l) = b ∷ but_last (c ∷ l)

-- A guard: the tests after it are not made once it fails.
abbrev pub and_then : Bool → Result Bool → Result Bool
and_then false r = ok false
and_then true r = r

module _ (w : World) (lru : LruCache) (vc : VerdictCache) (rates : Rates) where
  abbrev pub lesser_key : Block → Option Block → Result Bool
  lesser_key blk tip = do
    theirs ← tie_break_key blk
    b ← or_index tip
    ours ← tie_break_key b
    ok (text_lt theirs ours)

  abbrev pub on_our_parent : Block → ChainState → Result Bool
  on_our_parent blk cs = do
    below ← or_index (last? (but_last cs.chain))
    parent ← or_missing below.hash
    and_then (str_eq blk.previous_hash parent) (do
      ours ← tip_hash w cs.chain
      and_then (not (same_text blk.hash ours)) (lesser_key blk (last? cs.chain)))

  -- The guards of `_reorg_to_sibling`.
  unfoldable pub sibling_wins : ℕ → Block → Live w lru vc rates → Result Bool
  sibling_wins time blk live = and_then (draw_is_open blk.height time live.draw) (do
    h ← height live.node.cs
    and_then (blk.height == h && not (h == 0)) (on_our_parent blk live.node.cs))

  abbrev pub is_ok : Check → Result Bool
  is_ok (ok u) = ok true
  is_ok (refused e) = ok false
  is_ok (raised x) = raised x

  abbrev pub reorg_if :
      Result Bool → (ℕ → ℤ) → ℕ → Block → Live w lru vc rates → Result Bool × Live w lru vc rates
  reorg_if (ok true) clock time blk live =
      let (r, live') =
        apply_better_chain w lru vc rates clock time (but_last live.node.cs.chain ++ blk ∷ [])
          live in
      (is_ok r, live')
  reorg_if (ok false) clock time blk live = (ok false, live)
  reorg_if (refused e) clock time blk live = (refused e, live)
  reorg_if (raised x) clock time blk live = (raised x, live)

  unfoldable pub reorg_to_sibling :
      (ℕ → ℤ) → ℕ → Block → Live w lru vc rates → Result Bool × Live w lru vc rates
  unfolding sibling_wins
  reorg_to_sibling clock time blk live = reorg_if (sibling_wins time blk live) clock time blk live

  -- The strongest claim is kept, rather than the latest.
  abbrev pub hinted : Option String → ℕ → Live w lru vc rates → Live w lru vc rates
  hinted none h live = live
  hinted (some sender) h live =
      if ltb live.hint.reached h
      then record live { hint = record { peer = some sender; reached = h } }
      else live

  abbrev pub judged_next :
      Result Bool × Memory w lru vc → Live w lru vc rates → Result Bool × Live w lru vc rates
  judged_next (r, mem) live = (r, record live { memory = mem })

  abbrev pub same_height_or_above :
      ℕ
      → String
      → (ℕ → ℤ)
      → ℕ
      → Block
      → Option String
      → Live w lru vc rates
      → Result Bool × Live w lru vc rates
  same_height_or_above h tip clock time blk sender live =
      if blk.height == h
      then (if same_text blk.hash tip
          then (ok true, live)
          else reorg_to_sibling clock time blk live)
      else (ok false, if ltb h blk.height then hinted sender blk.height live else live)

  abbrev pub handled :
      Result ℕ
      → Result String
      → (ℕ → ℤ)
      → ℕ
      → Block
      → Option String
      → Live w lru vc rates
      → Result Bool × Live w lru vc rates
  handled (ok h) (ok tip) clock time blk sender live =
      if blk.height == h + 1 && str_eq blk.previous_hash tip
      then judged_next (validate_candidate w lru vc (clock 0) blk live.node.cs live.memory) live
      else same_height_or_above h tip clock time blk sender live
  handled (ok h) (refused e) clock time blk sender live = (refused e, live)
  handled (ok h) (raised x) clock time blk sender live = (raised x, live)
  handled (refused e) tip clock time blk sender live = (refused e, live)
  handled (raised x) tip clock time blk sender live = (raised x, live)

  -- Whether the block is passed on, and the node after it. The tip of the node has its hash.
  unfoldable pub handle_inbound_block :
      (ℕ → ℤ) → ℕ → Block → Option String → Live w lru vc rates → Result Bool × Live w lru vc rates
  unfolding reorg_to_sibling
  handle_inbound_block clock time blk sender live =
      handled (height live.node.cs) (tip_hash w live.node.cs.chain) clock time blk sender live
