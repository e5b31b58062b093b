-- ===== src/Node/Judge/Looks.antt =====
-- Any looks of src/node.py `_validate_candidate` at blocks on one tip, each at its time.
use lapsecoin.Prelude.{String, ◌≡◌, ◌≢◌, Bool, true, false, some, List, [], ◌∷◌, All}
use lapsecoin.Prelude.Int.{ℤ}
use lapsecoin.Prelude.Result.{ok}
use lapsecoin.Tx.Signature.{LruCache}
use lapsecoin.Block.{Block, World}
use lapsecoin.Block.Validate.{same_text}
use lapsecoin.Chain.{ChainState}
use lapsecoin.Chain.Fork.{tip_hash}
use lapsecoin.Node.Judge.{VerdictCache, Memory, validate_candidate}
use lapsecoin.Node.Judge.Repeats.{Follows, validate_candidate_repeats}
use lapsecoin.Node.Judge.Sound.{Validated, Backed, validate_candidate-Looked}

module _ (w : World) (lru : LruCache) (vc : VerdictCache) where
  -- Looks at blocks on one chain, each at its time.
  abbrev pub looks : List (ℤ × Block) → ChainState → Memory w lru vc → Memory w lru vc
  looks [] cs mem = mem
  looks ((now, blk) ∷ l) cs mem = looks l cs (validate_candidate w lru vc now blk cs mem).1

  pub looks-Backed :
      (cs : ChainState) (tip : String) (l : List (ℤ × Block)) (mem : Memory w lru vc)
      → tip_hash w cs.chain ≡ ok tip
      → Backed w lru vc cs tip mem.judged
      → Backed w lru vc cs tip (looks l cs mem).judged
  looks-Backed cs tip [] mem e b = b
  looks-Backed cs tip ((now, blk) ∷ l) mem e b =
      looks-Backed cs tip l (validate_candidate w lru vc now blk cs mem).1 e
        (validate_candidate-Looked w lru vc cs tip now blk mem e b).backed

  -- After any looks at blocks on a tip that the cache of verdicts had not met, a block that is
  -- judged true claims the hash of a block that passed validation on that chain at some time, and
  -- that hash is that block's own.
  pub validate_candidate-Validated :
      (cs : ChainState) (tip : String) (l : List (ℤ × Block)) (now : ℤ) (blk : Block)
      (mem : Memory w lru vc)
      → tip_hash w cs.chain ≡ ok tip
      → same_text mem.judged.tip tip ≡ false
      → (validate_candidate w lru vc now blk cs (looks l cs mem)).0 ≡ ok true
      → (claim : String) × (blk.hash ≡ some claim) × Validated w lru vc cs claim
  validate_candidate-Validated cs tip l now blk mem e new =
      (validate_candidate-Looked w lru vc cs tip now blk (looks l cs mem) e
        (looks-Backed cs tip l mem e (λ c. absurd (cc (c, new))))).answer

  -- The block is the next one on the tip and claims this hash.
  abbrev pub Claims : ChainState → String → String → ℤ × Block → Type 0
  Claims cs tip claim look = Follows w lru vc cs tip look.1 × (look.1.hash ≡ some claim)

  -- After a block on the tip that claims a non-empty hash has been judged, and then any number of
  -- blocks on that tip that claim the same hash, one more such block gets the first one's verdict,
  -- whatever it holds and whenever it is looked at.
  pub validate_candidate-looks :
      (now later : ℤ) (cs : ChainState) (tip claim : String) (first last : Block)
      (between : List (ℤ × Block)) (mem : Memory w lru vc) {v : Bool}
      → claim ≢ ""
      → Claims cs tip claim (now, first)
      → All (Claims cs tip claim) between
      → Claims cs tip claim (later, last)
      → (validate_candidate w lru vc now first cs mem).0 ≡ ok v
      → (validate_candidate w lru vc later last cs
          (looks between cs (validate_candidate w lru vc now first cs mem).1)).0
        ≡ ok v
  validate_candidate-looks now later cs tip claim first last [] mem ne f a g e =
      validate_candidate_repeats w lru vc now later cs tip claim first last mem f.0 g.0 f.1 g.1 ne e
  validate_candidate-looks now later cs tip claim first last ((t, b) ∷ between) mem ne f a g e =
      validate_candidate-looks t later cs tip claim b last between _ ne a.0 a.1 g (
        validate_candidate_repeats w lru vc now t cs tip claim first b mem f.0 a.0.0 f.1 a.0.1 ne e)
