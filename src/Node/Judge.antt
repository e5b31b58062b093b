-- ===== src/Node/Judge.antt =====
-- The verdicts on blocks that extend the tip, src/node.py `_judged_cache` to `_validate_candidate`:
-- kept by the hash that a block claims, and dropped when the tip moves. The clock is an argument.
pub mod Repeats
pub mod Sound
pub mod Looks
use lapsecoin.Prelude.{
  ℕ, ◌+◌, String, ◌≡◌, ◌⊎◌, Bool, true, false, Option, none, some, str_eq, ◌==◌, if◌then◌else◌,
}
use lapsecoin.Prelude.Int.{ℤ}
use lapsecoin.Prelude.Result.{Result, ok, refused, raised, ◌>>=◌}
use lapsecoin.Tx.Signature.{LruCache}
use lapsecoin.State.{State}
use lapsecoin.Block.{Block, World}
use lapsecoin.Block.Validate
use lapsecoin.Block.Validate.{same_text}
use lapsecoin.Chain.{ChainState}
use lapsecoin.Chain.Fork.{tip_hash}
use lapsecoin.Node.{height}

-- The cache of the library, by hash: a look-up may reorder it, a store may drop other entries, and
-- what was stored last is there.
pub record VerdictCache : Type 1 where
  pub Verdicts : Type 0
  pub empty : Verdicts
  pub get : Verdicts → String → Option Bool
  pub touch : Verdicts → String → Verdicts
  pub set : Verdicts → String → Bool → Verdicts
  pub get-empty : (h : String) → get empty h ≡ none
  pub get-touch : (m : Verdicts) (h j : String) → get (touch m h) j ≡ get m j
  pub get-set_same : (m : Verdicts) (h : String) (v : Bool) → get (set m h v) h ≡ some v
  pub get-set :
      (m : Verdicts) (h j : String) (v w : Bool)
      → get (set m h v) j ≡ some w
      → ((h ≡ j) × (v ≡ w)) ⊎ (get m j ≡ some w)

module _ (w : World) (lru : LruCache) (vc : VerdictCache) where
  open lru use {Cache}
  open vc use {Verdicts}

  -- `_judged_tip` and `_judged_at_tip`
  pub record Judged : Type 0 where
    pub tip : Option String
    pub verdicts : Verdicts

  -- Both caches that a look at a block may change.
  pub record Memory : Type 0 where
    pub judged : Judged
    pub signatures : Cache

  unfoldable pub judged_cache : String → Judged → Judged
  judged_cache tip j =
      if same_text j.tip tip then j else record { tip = some tip; verdicts = vc.empty }

  abbrev pub touched : Option String → Judged → Judged
  touched none j = j
  touched (some h) j = record j { verdicts = vc.touch j.verdicts h }

  abbrev pub stored : Option String → Judged → Option Bool
  stored none j = none
  stored (some h) j = vc.get j.verdicts h

  -- `_judged`, with the cache after the look-up.
  unfoldable pub look_up : String → Block → Judged → Option Bool × Judged
  look_up tip blk j = let j' = judged_cache tip j in (stored blk.hash j', touched blk.hash j')

  abbrev pub noted : Option String → Bool → Judged → Judged
  noted none v j = j
  noted (some h) v j = if str_eq h "" then j else record j { verdicts = vc.set j.verdicts h v }

  unfoldable pub remember_judgement : String → Block → Bool → Judged → Judged
  remember_judgement tip blk v j = noted blk.hash v (judged_cache tip j)

  -- What validation said; an exception leaves no verdict.
  abbrev pub concluded : String → Block → Result State → Judged → Cache → Result Bool × Memory
  concluded tip blk (ok s) j m =
      (ok true, record { judged = remember_judgement tip blk true j; signatures = m })
  concluded tip blk (refused e) j m =
      (ok false, record { judged = remember_judgement tip blk false j; signatures = m })
  concluded tip blk (raised x) j m = (raised x, record { judged = j; signatures = m })

  abbrev pub answered :
      String → ℤ → Block → ChainState → Option Bool × Judged → Cache → Result Bool × Memory
  answered tip now blk cs (some v, j) m = (ok v, record { judged = j; signatures = m })
  answered tip now blk cs (none, j) m =
      let (r, m') = Validate.validate w lru now blk cs.state cs.chain m in concluded tip blk r j m'

  abbrev pub considered : Result String → ℤ → Block → ChainState → Memory → Result Bool × Memory
  considered (ok tip) now blk cs mem =
      if str_eq blk.previous_hash tip
      then answered tip now blk cs (look_up tip blk mem.judged) mem.signatures
      else (ok false, mem)
  considered (refused e) now blk cs mem = (refused e, mem)
  considered (raised x) now blk cs mem = (raised x, mem)

  abbrev pub at_height : Result ℕ → ℤ → Block → ChainState → Memory → Result Bool × Memory
  at_height (ok h) now blk cs mem =
      if blk.height == h + 1
      then considered (tip_hash w cs.chain) now blk cs mem
      else (ok false, mem)
  at_height (refused e) now blk cs mem = (refused e, mem)
  at_height (raised x) now blk cs mem = (raised x, mem)

  unfoldable pub validate_candidate : ℤ → Block → ChainState → Memory → Result Bool × Memory
  unfolding look_up remember_judgement
  validate_candidate now blk cs mem = at_height (height cs) now blk cs mem
