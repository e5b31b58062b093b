-- ===== src/Node/Draw.antt =====
-- The draw for a height in src/node.py: how long it is open, whether a build can still enter it, and
-- which block wins. The monotonic clock and the times are in microseconds.
pub mod Window
pub mod Winner
pub mod Pick
pub mod Forged
use lapsecoin.Prelude.{
  ℕ, ◌+◌, String, Bool, true, false, not, ◌&&◌, Option, none, some, List, [], ◌∷◌, ◌++◌, str_eq,
  ltb, ◌==◌, if◌then◌else◌,
}
use lapsecoin.Prelude.Int.{ℤ, pos, ◌-ℤ◌, ltb_ℤ, leb_ℤ}
use lapsecoin.Prelude.Result.{Result, ok, refused, raised, ◌>>=◌}
use lapsecoin.Tx.Signature.{LruCache}
use lapsecoin.Block.{Block, World, tie_break_key}
use lapsecoin.Chain.{ChainState}
use lapsecoin.Chain.Fork.{text_lt, tip_hash}
use lapsecoin.Node.{height}
use lapsecoin.Node.Judge.{VerdictCache, Memory, validate_candidate}

pub record Draw : Type 0 where
  pub contest : Option ℕ
  pub anchor : ℕ
  pub closes : ℕ

abbrev pub same_height : Option ℕ → ℕ → Bool
same_height none h = false
same_height (some i) h = i == h

-- `_draw_is_open`
unfoldable pub draw_is_open : ℕ → ℕ → Draw → Bool
draw_is_open h now d = same_height d.contest h && ltb now d.closes

-- `window` is the setting `draw_window_seconds`.
unfoldable pub open_draw : ℕ → ℕ → ℕ → Draw → Draw
open_draw window h now d =
    if same_height d.contest h && ltb now d.closes
    then d
    else record { contest = some h; anchor = now; closes = now + window }

-- The last tests of `_should_abandon`, on the time that the build still needs and the time that the
-- window is still open.
abbrev pub too_late : ℤ → ℤ → Bool
too_late remaining window_left =
    if leb_ℤ window_left (pos 0) then true else ltb_ℤ window_left remaining

abbrev pub hopeless : ℕ → ℕ → ℕ → ChainState → Draw → Result Bool
hopeless own_median now vdf_start cs d = do
  h ← height cs
  ok (
      if not (same_height d.contest (h + 1))
      then false
      else too_late (pos own_median -ℤ (pos now -ℤ pos vdf_start)) (pos d.closes -ℤ pos now))

-- `own_median` is `own_vdf_median()`, `none` when nothing is known of this machine.
unfoldable pub should_abandon : Option ℕ → ℕ → ℕ → ChainState → List Block → Draw → Result Bool
should_abandon own_median now vdf_start cs [] d = ok false
should_abandon none now vdf_start cs (b ∷ blocks) d = ok false
should_abandon (some own_median) now vdf_start cs (b ∷ blocks) d =
    hopeless own_median now vdf_start cs d

-- A block in the running, and whether it came from a peer.
abbrev pub Entrant : Type 0
Entrant = Block × Bool

abbrev pub lesser : Entrant → String → Entrant → String → Entrant × String
lesser e k best key = if text_lt k key then (e, k) else (best, key)

-- `min(entrants, key=tie_break_key)`: the first of the least; every key is computed.
unfoldable pub least : Entrant → String → List Entrant → Result Entrant
least best key [] = ok best
least best key (e ∷ l) = do
  k ← tie_break_key e.0
  let (best', key') = lesser e k best key
  least best' key' l

abbrev pub first_least : List Entrant → Result (Option Entrant)
first_least [] = ok none
first_least (e ∷ l) = do k ← tie_break_key e.0; winner ← least e k l; ok (some winner)

-- A candidate that was built on another tip is dropped.
abbrev pub still_current : Option Block → String → List Entrant
still_current none tip = []
still_current (some b) tip = if str_eq b.previous_hash tip then (b, false) ∷ [] else []

module _ (w : World) (lru : LruCache) (vc : VerdictCache) where
  abbrev pub Peers : Type 0
  Peers = Result (List Entrant) × Memory w lru vc

  abbrev pub with_valid : Bool → Block → Peers → Peers
  with_valid v blk (r, mem) = ((do l ← r; ok (if v then (blk, true) ∷ l else l)), mem)

  abbrev pub entered : Result Bool × Memory w lru vc → Block → (Memory w lru vc → Peers) → Peers
  entered (ok v, mem) blk rest = with_valid v blk (rest mem)
  entered (refused e, mem) blk rest = (refused e, mem)
  entered (raised x, mem) blk rest = (raised x, mem)

  -- The peers' blocks that are valid; `clock i` is the time at which the i-th is looked at.
  unfoldable pub valid_peers : (ℕ → ℤ) → ℕ → List Block → ChainState → Memory w lru vc → Peers
  valid_peers clock i [] cs mem = (ok [], mem)
  valid_peers clock i (blk ∷ blocks) cs mem =
      entered (validate_candidate w lru vc (clock i) blk cs mem) blk
        (λ mem'. valid_peers clock (i + 1) blocks cs mem')

  abbrev pub decided : ChainState → Option Block → Result (List Entrant) → Result (Option Entrant)
  decided cs candidate peers = do
    tip ← tip_hash w cs.chain
    l ← peers
    first_least (still_current candidate tip ++ l)

  unfoldable pub pick_winner :
      (ℕ → ℤ)
      → ChainState
      → Option Block
      → List Block
      → Memory w lru vc
      → Result (Option Entrant) × Memory w lru vc
  pick_winner clock cs candidate peer_blocks mem =
      let (peers, mem') = valid_peers clock 0 peer_blocks cs mem in
      (decided cs candidate peers, mem')

  -- `_consider_inbound_block`: the draw, the candidates of this cycle and the verdicts.
  abbrev pub considered :
      ℕ
      → ℕ
      → Block
      → Draw
      → List Block
      → Result Bool × Memory w lru vc
      → Result (Draw × List Block) × Memory w lru vc
  considered window time blk d blocks (ok true, mem) =
      (ok (open_draw window blk.height time d, blocks ++ blk ∷ []), mem)
  considered window time blk d blocks (ok false, mem) = (ok (d, blocks), mem)
  considered window time blk d blocks (refused e, mem) = (refused e, mem)
  considered window time blk d blocks (raised x, mem) = (raised x, mem)

  unfoldable pub consider_inbound_block :
      ℕ
      → ℤ
      → ℕ
      → Block
      → ChainState
      → Draw
      → List Block
      → Memory w lru vc
      → Result (Draw × List Block) × Memory w lru vc
  unfolding open_draw
  consider_inbound_block window now time blk cs d blocks mem =
      considered window time blk d blocks (validate_candidate w lru vc now blk cs mem)
