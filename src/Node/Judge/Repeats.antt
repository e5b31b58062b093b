-- ===== src/Node/Judge/Repeats.antt =====
-- The verdicts of src/node.py `_validate_candidate` go by the hash that a block claims.
use lapsecoin.Prelude.{
  ℕ, ◌+◌, String, ◌≡◌, ◌≢◌, refl, sym, ap, ◌∙◌, Bool, true, false, Option, none, some, arith,
  str_eq, eq_iff, ◌==◌, ==_iff,
}
use lapsecoin.Prelude.Int.{ℤ}
use lapsecoin.Prelude.Result.{Result, ok, refused, raised, ok-injective}
use lapsecoin.Tx.Signature.{LruCache}
use lapsecoin.State.{State}
use lapsecoin.Block.{Block, World}
use lapsecoin.Block.Validate
use lapsecoin.Block.Validate.{same_text}
use lapsecoin.Chain.{ChainState}
use lapsecoin.Chain.Fork.{tip_hash}
use lapsecoin.Node.{height}
use lapsecoin.Node.Judge.{
  VerdictCache, Judged, Memory, judged_cache, stored, touched, look_up, noted, remember_judgement,
  concluded, answered, validate_candidate,
}

pub str_eq_refl : (s : String) → str_eq s s ≡ true
str_eq_refl s = (eq_iff s s).1 refl

pub ==_refl : (n : ℕ) → (n == n) ≡ true
==_refl n = (==_iff n n).1 refl

pub str_eq-ne : (s t : String) → s ≢ t → str_eq s t ≡ false
str_eq-ne s t h = ground (arith, eq_iff s t)

module _ (w : World) (lru : LruCache) (vc : VerdictCache) where
  open lru use {Cache}

  -- The block says that it is the next one on the tip.
  pub record Follows (cs : ChainState) (tip : String) (blk : Block) : Type 0 where
    pub below : ℕ
    pub tip_height : height cs ≡ ok below
    pub tip_named : tip_hash w cs.chain ≡ ok tip
    pub next_height : blk.height ≡ below + 1
    pub parent : blk.previous_hash ≡ tip

  pub validate_candidate-Follows :
      (now : ℤ) (cs : ChainState) (tip : String) (blk : Block) (mem : Memory w lru vc)
      → Follows cs tip blk
      → validate_candidate w lru vc now blk cs mem
        ≡ answered w lru vc tip now blk cs (look_up w lru vc tip blk mem.judged) mem.signatures
  unfolding validate_candidate
  validate_candidate-Follows now cs tip blk mem f =
      rw
        (f.tip_height, f.next_height, ==_refl (f.below + 1), f.tip_named, f.parent, str_eq_refl tip)
        refl

  -- The cache of this tip has the verdict on a hash.
  pub record Holds (tip claim : String) (v : Bool) (j : Judged w lru vc) : Type 0 where
    pub current : same_text j.tip tip ≡ true
    pub verdict : vc.get j.verdicts claim ≡ some v

  pub judged_cache-current :
      (tip : String) (j : Judged w lru vc) → same_text (judged_cache w lru vc tip j).tip tip ≡ true
  unfolding judged_cache
  judged_cache-current tip j = ground (arith, str_eq_refl tip)

  pub judged_cache-same :
      (tip : String) (j : Judged w lru vc)
      → same_text j.tip tip ≡ true
      → judged_cache w lru vc tip j ≡ j
  unfolding judged_cache
  judged_cache-same tip j h = rw h refl

  noted-Holds :
      (tip claim : String) (v : Bool) (j : Judged w lru vc)
      → claim ≢ ""
      → same_text j.tip tip ≡ true
      → Holds tip claim v (noted w lru vc (some claim) v j)
  noted-Holds tip claim v j ne h =
      rw (str_eq-ne claim "" ne)
        (record { current = h; verdict = vc.get-set_same j.verdicts claim v })

  remember_judgement-Holds :
      (tip claim : String) (blk : Block) (v : Bool) (j : Judged w lru vc)
      → blk.hash ≡ some claim
      → claim ≢ ""
      → Holds tip claim v (remember_judgement w lru vc tip blk v j)
  unfolding remember_judgement
  remember_judgement-Holds tip claim blk v j e ne =
      rw e (noted-Holds tip claim v (judged_cache w lru vc tip j) ne (judged_cache-current tip j))

  concluded-Holds :
      (tip claim : String) (blk : Block) (r : Result State) (v : Bool) (j : Judged w lru vc)
      (m : Cache)
      → blk.hash ≡ some claim
      → claim ≢ ""
      → (concluded w lru vc tip blk r j m).0 ≡ ok v
      → Holds tip claim v (concluded w lru vc tip blk r j m).1.judged
  concluded-Holds tip claim blk (ok s) v j m e ne h =
      rw (sym (ok-injective h)) (remember_judgement-Holds tip claim blk true j e ne)
  concluded-Holds tip claim blk (refused x) v j m e ne h =
      rw (sym (ok-injective h)) (remember_judgement-Holds tip claim blk false j e ne)
  concluded-Holds tip claim blk (raised x) v j m e ne h = cc

  touched-Holds :
      (tip claim : String) (v : Bool) (j : Judged w lru vc)
      → Holds tip claim v j
      → Holds tip claim v (touched w lru vc (some claim) j)
  touched-Holds tip claim v j h = record {
    current = h.current;
    verdict = vc.get-touch j.verdicts claim claim ∙ h.verdict;
  }

  found-Holds :
      (tip claim : String) (now : ℤ) (blk : Block) (cs : ChainState) (v : Bool)
      (j : Judged w lru vc) (m : Cache) (o : Option Bool)
      → blk.hash ≡ some claim
      → claim ≢ ""
      → same_text j.tip tip ≡ true
      → vc.get j.verdicts claim ≡ o
      → (answered w lru vc tip now blk cs (o, touched w lru vc (some claim) j) m).0 ≡ ok v
      → Holds tip claim v
          (answered w lru vc tip now blk cs (o, touched w lru vc (some claim) j) m).1.judged
  found-Holds tip claim now blk cs v j m (some b) e ne c g h =
      touched-Holds tip claim v j (record { current = c; verdict = g ∙ ap some (ok-injective h) })
  found-Holds tip claim now blk cs v j m none e ne c g h =
      concluded-Holds tip claim blk (Validate.validate w lru now blk cs.state cs.chain m).0 v
        (touched w lru vc (some claim) j) (Validate.validate w lru now blk cs.state cs.chain m).1 e
        ne h

  pub answered-Holds :
      (tip claim : String) (now : ℤ) (blk : Block) (cs : ChainState) (v : Bool)
      (mem : Memory w lru vc)
      → blk.hash ≡ some claim
      → claim ≢ ""
      → (answered w lru vc tip now blk cs (look_up w lru vc tip blk mem.judged) mem.signatures).0
        ≡ ok v
      → Holds tip claim v
          (answered w lru vc tip now blk cs
            (look_up w lru vc tip blk mem.judged)
            mem.signatures).1.judged
  unfolding look_up
  answered-Holds tip claim now blk cs v mem e ne =
      by_hash blk.hash e (judged_cache w lru vc tip mem.judged)
        (judged_cache-current tip mem.judged)
    where
      by_hash :
          (o : Option String)
          → o ≡ some claim
          → (j : Judged w lru vc) → same_text j.tip tip ≡ true
          → (answered w lru vc tip now blk cs
              (stored w lru vc o j, touched w lru vc o j)
              mem.signatures).0
            ≡ ok v
          → Holds tip claim v
              (answered w lru vc tip now blk cs
                (stored w lru vc o j, touched w lru vc o j)
                mem.signatures).1.judged
      by_hash o e' j c = rw e' (
          found-Holds tip claim now blk cs v j mem.signatures (vc.get j.verdicts claim) e ne c refl)

  pub Holds-answer :
      (tip claim : String) (now : ℤ) (blk : Block) (cs : ChainState) (v : Bool)
      (mem : Memory w lru vc)
      → blk.hash ≡ some claim
      → Holds tip claim v mem.judged
      → (answered w lru vc tip now blk cs (look_up w lru vc tip blk mem.judged) mem.signatures).0
        ≡ ok v
  unfolding look_up
  Holds-answer tip claim now blk cs v mem e h =
      rw (e, judged_cache-same tip mem.judged h.current, h.verdict) refl

  answered-fresh :
      (tip : String) (now : ℤ) (blk : Block) (cs : ChainState) (o : Option String)
      (j : Judged w lru vc) (m : Cache) {s : State}
      → (Validate.validate w lru now blk cs.state cs.chain m).0 ≡ ok s
      → stored w lru vc o j ≡ none
      → (answered w lru vc tip now blk cs (stored w lru vc o j, touched w lru vc o j) m).0 ≡ ok true
  answered-fresh tip now blk cs o j m e n = rw (n, e) refl

  stored-fresh :
      (tip : String) (o : Option String) (j : Judged w lru vc)
      → same_text j.tip tip ≡ false
      → stored w lru vc o (judged_cache w lru vc tip j) ≡ none
  unfolding judged_cache
  stored-fresh tip none j h = refl
  stored-fresh tip (some c) j h = rw h (vc.get-empty c)

  -- Under a tip that the cache has not met, a block that passes validation is judged true.
  pub validate_candidate-fresh :
      (now : ℤ) (cs : ChainState) (tip : String) (blk : Block) (mem : Memory w lru vc) {s : State}
      → Follows cs tip blk
      → same_text mem.judged.tip tip ≡ false
      → (Validate.validate w lru now blk cs.state cs.chain mem.signatures).0 ≡ ok s
      → (validate_candidate w lru vc now blk cs mem).0 ≡ ok true
  unfolding look_up
  validate_candidate-fresh now cs tip blk mem f new e =
      ap (λ r. r.0) (validate_candidate-Follows now cs tip blk mem f)
      ∙ answered-fresh tip now blk cs blk.hash (judged_cache w lru vc tip mem.judged) mem.signatures
          e (stored-fresh tip blk.hash mem.judged new)

  -- Right after a block on the tip that claims a non-empty hash has been judged, the next block that
  -- does so gets the same verdict.
  pub validate_candidate_repeats :
      (now later : ℤ) (cs : ChainState) (tip claim : String) (first second : Block)
      (mem : Memory w lru vc) {v : Bool}
      → Follows cs tip first
      → Follows cs tip second
      → first.hash ≡ some claim
      → second.hash ≡ some claim
      → claim ≢ ""
      → (validate_candidate w lru vc now first cs mem).0 ≡ ok v
      → (validate_candidate w lru vc later second cs
          (validate_candidate w lru vc now first cs mem).1).0
        ≡ ok v
  validate_candidate_repeats now later cs tip claim first second mem f g e e' ne h =
      ap (λ r. r.0) (validate_candidate-Follows later cs tip second _ g)
      ∙ Holds-answer tip claim later second cs _ _ e' (
          rw same (answered-Holds tip claim now first cs _ mem e ne (ap (λ r. r.0) (sym same) ∙ h)))
    where
      same :
          validate_candidate w lru vc now first cs mem
          ≡ answered w lru vc tip now first cs
              (look_up w lru vc tip first mem.judged)
              mem.signatures
      same = validate_candidate-Follows now cs tip first mem f
