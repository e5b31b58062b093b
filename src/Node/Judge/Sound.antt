-- ===== src/Node/Judge/Sound.antt =====
-- What a true verdict of src/node.py `_validate_candidate` stands for, over any looks at a tip.
use lapsecoin.Prelude.{
  ℕ, ◌+◌, String, ◌≡◌, ◌⊎◌, inl, inr, refl, sym, ap, ◌∙◌, Bool, true, false, Option, none, some,
  List, arith, str_eq, ◌==◌, if-cases,
}
use lapsecoin.Prelude.Int.{ℤ}
use lapsecoin.Prelude.Result.{Result, Check, ok, refused, raised, ok-injective}
use lapsecoin.Tx.Signature.{LruCache}
use lapsecoin.State.{State}
use lapsecoin.Block.{Block, World, block_hash}
use lapsecoin.Block.Validate
use lapsecoin.Block.Validate.{same_text, header_checks, after_header}
use lapsecoin.Chain.{ChainState}
use lapsecoin.Chain.Accepted.{header_checks-Checked}
use lapsecoin.Chain.Extends.Header.{check_hash-ok}
use lapsecoin.Chain.Fork.{tip_hash}
use lapsecoin.Node.{height}
use lapsecoin.Node.Judge.Repeats.{judged_cache-same, judged_cache-current}
use lapsecoin.Node.Judge.{
  VerdictCache, Judged, Memory, judged_cache, stored, touched, look_up, noted, remember_judgement,
  concluded, answered, considered, at_height, validate_candidate,
}

module _ (w : World) (lru : LruCache) (vc : VerdictCache) where
  open lru use {Cache}

  -- Some block whose own hash this is passed validation on this chain, at some time.
  pub record Validated (cs : ChainState) (claim : String) : Type 0 where
    pub block : Block
    pub at : ℤ
    pub memory : Cache
    pub after : State
    pub claimed : block.hash ≡ some claim
    pub honest : block_hash w block ≡ claim
    pub passed : (Validate.validate w lru at block cs.state cs.chain memory).0 ≡ ok after

  after_header-ok :
      (c : Check) (blk : Block) (s : State) (m : Cache) {s' : State}
      → (after_header w lru c blk s m).0 ≡ ok s'
      → c ≡ ok tt
  after_header-ok (ok u) blk s m e = refl
  after_header-ok (refused x) blk s m e = cc
  after_header-ok (raised x) blk s m e = cc

  validate-hash :
      (now : ℤ) (blk : Block) (s : State) (chain : List Block) (m : Cache) {s' : State}
      → (Validate.validate w lru now blk s chain m).0 ≡ ok s'
      → blk.hash ≡ some (block_hash w blk)
  unfolding Validate.validate
  validate-hash now blk s chain m e =
      check_hash-ok w blk
        (header_checks-Checked w lru now blk chain
          (after_header-ok (header_checks w now blk chain) blk s m e)).hash

  -- What passes validation is its own witness.
  Validated-self :
      (now : ℤ) (blk : Block) (cs : ChainState) (m : Cache) (claim : String) {s' : State}
      → (Validate.validate w lru now blk cs.state cs.chain m).0 ≡ ok s'
      → blk.hash ≡ some claim
      → Validated cs claim
  Validated-self now blk cs m claim {s' = s'} e h = record {
    block = blk;
    at = now;
    memory = m;
    after = s';
    claimed = h;
    honest = cc (h, validate-hash now blk cs.state cs.chain m e);
    passed = e;
  }

  -- Every true verdict of the cache on this tip is backed, whoever asks next.
  abbrev pub Backed : ChainState → String → Judged w lru vc → Type 0
  Backed cs tip j =
      same_text j.tip tip ≡ true
      → (claim : String) → vc.get j.verdicts claim ≡ some true
      → Validated cs claim

  abbrev pub Answer : ChainState → Block → Result Bool → Type 0
  Answer cs blk r = r ≡ ok true → (claim : String) × (blk.hash ≡ some claim) × Validated cs claim

  judged_cache-Backed :
      (cs : ChainState) (tip : String) (j : Judged w lru vc)
      → Backed cs tip j
      → (claim : String) → vc.get (judged_cache w lru vc tip j).verdicts claim ≡ some true
      → Validated cs claim
  unfolding judged_cache
  judged_cache-Backed cs tip j b claim =
      if-cases (λ (x : Judged w lru vc). vc.get x.verdicts claim ≡ some true → Validated cs claim) j
        (record { tip = some tip; verdicts = vc.empty }) (same_text j.tip tip) (λ c. b c claim)
        (λ c e. absurd (ground (arith, vc.get-empty claim)))

  noted-Backed :
      (cs : ChainState) (hash : Option String) (v : Bool) (j : Judged w lru vc)
      → (v ≡ true → (c : String) → hash ≡ some c → Validated cs c)
      → ((c : String) → vc.get j.verdicts c ≡ some true → Validated cs c)
      → (c : String) → vc.get (noted w lru vc hash v j).verdicts c ≡ some true
      → Validated cs c
  noted-Backed cs none v j own b c = b c
  noted-Backed cs (some h) v j own b c =
      if-cases (λ (x : Judged w lru vc). vc.get x.verdicts c ≡ some true → Validated cs c) j
        (record j { verdicts = vc.set j.verdicts h v }) (str_eq h "") (λ _. b c)
        (λ _ e. new_or_old (vc.get-set j.verdicts h c v true e))
    where
      new_or_old : ((h ≡ c) × (v ≡ true)) ⊎ (vc.get j.verdicts c ≡ some true) → Validated cs c
      new_or_old (inl (same, is)) = own is c (ap some same)
      new_or_old (inr old) = b c old

  touched-Backed :
      (cs : ChainState) (hash : Option String) (j : Judged w lru vc)
      → ((c : String) → vc.get j.verdicts c ≡ some true → Validated cs c)
      → (c : String) → vc.get (touched w lru vc hash j).verdicts c ≡ some true
      → Validated cs c
  touched-Backed cs none j b c e = b c e
  touched-Backed cs (some h) j b c e = b c (sym (vc.get-touch j.verdicts h c) ∙ e)

  -- What an answer leaves: the verdicts are backed, and the answer is.
  record Kept (cs : ChainState) (blk : Block) (r : Result Bool × Memory w lru vc) : Type 0 where
    pub backed : (c : String) → vc.get r.1.judged.verdicts c ≡ some true → Validated cs c
    pub answer : Answer cs blk r.0

  concluded-Kept :
      (cs : ChainState) (tip : String) (now : ℤ) (blk : Block) (j : Judged w lru vc) (m m' : Cache)
      (r : Result State)
      → (Validate.validate w lru now blk cs.state cs.chain m).0 ≡ r
      → ((c : String) → vc.get j.verdicts c ≡ some true → Validated cs c)
      → same_text j.tip tip ≡ true
      → Kept cs blk (concluded w lru vc tip blk r j m')
  unfolding remember_judgement
  concluded-Kept cs tip now blk j m m' (ok s) e b same = record {
    backed =
        rw (judged_cache-same w lru vc tip j same)
          (noted-Backed cs blk.hash true j (λ _ c h. Validated-self now blk cs m c e h) b);
    answer = λ _. (
      block_hash w blk,
      validate-hash now blk cs.state cs.chain m e,
      Validated-self now blk cs m (block_hash w blk) e
          (validate-hash now blk cs.state cs.chain m e),
    );
  }
  concluded-Kept cs tip now blk j m m' (refused x) e b same = record {
    backed =
        rw (judged_cache-same w lru vc tip j same)
          (noted-Backed cs blk.hash false j (λ is c h. cc) b);
    answer = λ no. cc;
  }
  concluded-Kept cs tip now blk j m m' (raised x) e b same = record {
    backed = b;
    answer = λ no. cc;
  }

  answered-Kept :
      (cs : ChainState) (tip : String) (now : ℤ) (blk : Block) (hash : Option String)
      (o : Option Bool) (j : Judged w lru vc) (m : Cache)
      → blk.hash ≡ hash
      → stored w lru vc hash j ≡ o
      → ((c : String) → vc.get j.verdicts c ≡ some true → Validated cs c)
      → same_text j.tip tip ≡ true
      → Kept cs blk (answered w lru vc tip now blk cs (o, touched w lru vc hash j) m)
  answered-Kept cs tip now blk (some h) (some v) j m e f b same = record {
    backed = touched-Backed cs (some h) j b;
    answer = λ is. (h, e, b h (f ∙ ap some (ok-injective is)));
  }
  answered-Kept cs tip now blk none (some v) j m e f b same = cc
  answered-Kept cs tip now blk (some h) none j m e f b same =
      concluded-Kept cs tip now blk (touched w lru vc (some h) j) m _
        (Validate.validate w lru now blk cs.state cs.chain m).0 refl
        (touched-Backed cs (some h) j b) same
  answered-Kept cs tip now blk none none j m e f b same =
      concluded-Kept cs tip now blk j m _ (Validate.validate w lru now blk cs.state cs.chain m).0
        refl b same

  look_up-Kept :
      (cs : ChainState) (tip : String) (now : ℤ) (blk : Block) (mem : Memory w lru vc)
      → Backed cs tip mem.judged
      → Kept cs blk
          (answered w lru vc tip now blk cs (look_up w lru vc tip blk mem.judged) mem.signatures)
  unfolding look_up
  look_up-Kept cs tip now blk mem b =
      answered-Kept cs tip now blk blk.hash _ (judged_cache w lru vc tip mem.judged) mem.signatures
        refl refl (judged_cache-Backed cs tip mem.judged b)
        (judged_cache-current w lru vc tip mem.judged)

  -- A look keeps the verdicts backed.
  pub record Looked (cs : ChainState) (tip : String) (blk : Block)
      (r : Result Bool × Memory w lru vc) : Type 0 where
    pub backed : Backed cs tip r.1.judged
    pub answer : Answer cs blk r.0

  Kept-Looked :
      (cs : ChainState) (tip : String) (blk : Block) (r : Result Bool × Memory w lru vc)
      → Kept cs blk r
      → Looked cs tip blk r
  Kept-Looked cs tip blk r k = record { backed = λ _. k.backed; answer = k.answer }

  pub validate_candidate-Looked :
      (cs : ChainState) (tip : String) (now : ℤ) (blk : Block) (mem : Memory w lru vc)
      → tip_hash w cs.chain ≡ ok tip
      → Backed cs tip mem.judged
      → Looked cs tip blk (validate_candidate w lru vc now blk cs mem)
  unfolding validate_candidate
  validate_candidate-Looked cs tip now blk mem e b = at (height cs)
    where
      unseen : (r : Result Bool) → (r ≡ ok true → Answer cs blk r) → Looked cs tip blk (r, mem)
      unseen r h = record { backed = b; answer = λ is. h is is }

      at : (h : Result ℕ) → Looked cs tip blk (at_height w lru vc h now blk cs mem)
      at (ok h) =
          if-cases (Looked cs tip blk) (considered w lru vc (tip_hash w cs.chain) now blk cs mem)
            (ok false, mem) (blk.height == h + 1)
            (λ _. rw e (
              if-cases (Looked cs tip blk)
                (answered w lru vc tip now blk cs (look_up w lru vc tip blk mem.judged)
                  mem.signatures)
                (ok false, mem) (str_eq blk.previous_hash tip)
                (λ _. Kept-Looked cs tip blk _ (look_up-Kept cs tip now blk mem b))
                (λ _. unseen (ok false) (λ no. cc))))
            (λ _. unseen (ok false) (λ no. cc))
      at (refused x) = unseen (refused x) (λ no. cc)
      at (raised x) = unseen (raised x) (λ no. cc)
