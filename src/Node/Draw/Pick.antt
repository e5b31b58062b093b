-- ===== src/Node/Draw/Pick.antt =====
-- What src/node.py `_pick_winner` returns: the least of those in the running, and who they are.
use lapsecoin.Prelude.{
  ℕ, ◌+◌, String, ◌≡◌, ◌⊎◌, inl, inr, refl, sym, ap, ◌∙◌, Bool, true, false, Option, none, some,
  List, [], ◌∷◌, ◌++◌, All, Bool-cases, str_eq, eq_iff, if◌then◌else◌,
}
use mathlib.Core.Path.{subst}
use lapsecoin.Prelude.Int.{ℤ}
use lapsecoin.Prelude.Result.{Result, ok, refused, raised, >>=-eq-ok, ok-injective}
use lapsecoin.Tx.Signature.{LruCache}
use lapsecoin.Block.{Block, World, tie_break_key}
use lapsecoin.Block.Validate.{same_text}
use lapsecoin.Chain.{ChainState}
use lapsecoin.Chain.Fork.{tip_hash}
use lapsecoin.Node.Judge.{VerdictCache, Memory, validate_candidate}
use lapsecoin.Node.Judge.Sound.{Validated, Backed, Looked, validate_candidate-Looked}
use lapsecoin.Node.Judge.Looks.{looks, looks-Backed}
use lapsecoin.Node.Draw.{
  Entrant, least, first_least, still_current, entered, valid_peers, pick_winner,
}
use lapsecoin.Node.Draw.Winner.{NotBelow, OneOf, Least, least-Least}

-- The winner is in the running, and nobody in the running has a lesser key.
pub record Wins (x : Entrant) (l : List Entrant) : Type 0 where
  pub key : String
  pub key-eq : tie_break_key x.0 ≡ ok key
  pub least : All (NotBelow key) l
  pub among : OneOf x l

first_least-Wins : (l : List Entrant) {x : Entrant} → first_least l ≡ ok (some x) → Wins x l
first_least-Wins [] e = cc
first_least-Wins (f ∷ l) {x = x} e =
    let (k, e0, r0) = >>=-eq-ok (tie_break_key f.0) _ e in
    let (y, e1, r1) = >>=-eq-ok (least f k l) _ r0 in
    let h : Least x f l = least-Least x f k l e0 (e1 ∙ ap ok (some-eq (ok-injective r1))) in
    record { key = h.key; key-eq = h.key-eq; least = (h.below_best, h.below_all); among = h.found }
  where
    some-eq : {a b : Entrant} → some a ≡ some b → a ≡ b
    some-eq h = cc

module _ (w : World) (lru : LruCache) (vc : VerdictCache) where
  -- A block of a peer claims the hash of a block that passed validation; ours has the tip's hash.
  pub record Eligible (cs : ChainState) (tip : String) (candidate : Option Block) (x : Entrant)
      : Type 0 where
    pub from_peer :
        x.1 ≡ true → (claim : String) × (x.0.hash ≡ some claim) × Validated w lru vc cs claim
    pub own : x.1 ≡ false → (candidate ≡ some x.0) × (x.0.previous_hash ≡ tip)

  still_current-Eligible :
      (cs : ChainState) (tip : String) (candidate : Option Block)
      → All (Eligible cs tip candidate) (still_current candidate tip)
  still_current-Eligible cs tip none = tt
  still_current-Eligible cs tip (some b) = by_parent (Bool-cases (str_eq b.previous_hash tip))
    where
      by_parent :
          (str_eq b.previous_hash tip ≡ true) ⊎ (str_eq b.previous_hash tip ≡ false)
          → All
              (Eligible cs tip (some b))
              (if str_eq b.previous_hash tip then (b, false) ∷ [] else [])
      by_parent (inl h) =
          rw h (
            record { from_peer = λ no. cc; own = λ _. (refl, (eq_iff b.previous_hash tip).0 h) },
            tt,
          )
      by_parent (inr h) = rw h tt

  valid_peers-Eligible :
      (cs : ChainState) (tip : String) (candidate : Option Block) (clock : ℕ → ℤ) (i : ℕ)
      (blocks : List Block) (mem : Memory w lru vc) {l : List Entrant}
      → tip_hash w cs.chain ≡ ok tip
      → Backed w lru vc cs tip mem.judged
      → (valid_peers w lru vc clock i blocks cs mem).0 ≡ ok l
      → All (Eligible cs tip candidate) l
  unfolding valid_peers
  valid_peers-Eligible cs tip candidate clock i [] mem t b e =
      subst (All (Eligible cs tip candidate)) (ok-injective e) tt
  valid_peers-Eligible cs tip candidate clock i (blk ∷ blocks) mem t b e =
      one (validate_candidate w lru vc (clock i) blk cs mem)
        (validate_candidate-Looked w lru vc cs tip (clock i) blk mem t b)
        (λ m l' b' e'. valid_peers-Eligible cs tip candidate clock (i + 1) blocks m t b' e') e
    where
      cons :
          (v : Bool) (l0 : List Entrant) {l : List Entrant}
          → (v ≡ true → (claim : String) × (blk.hash ≡ some claim) × Validated w lru vc cs claim)
          → All (Eligible cs tip candidate) l0
          → ok (if v then (blk, true) ∷ l0 else l0) ≡ ok l
          → All (Eligible cs tip candidate) l
      cons true l0 own a e' =
          subst (All (Eligible cs tip candidate)) (ok-injective e')
            (record { from_peer = λ _. own refl; own = λ no. cc }, a)
      cons false l0 own a e' = subst (All (Eligible cs tip candidate)) (ok-injective e') a

      one :
          (r : Result Bool × Memory w lru vc) {l : List Entrant}
          → Looked w lru vc cs tip blk r
          → ((m : Memory w lru vc) (l' : List Entrant)
              → Backed w lru vc cs tip m.judged
              → (valid_peers w lru vc clock (i + 1) blocks cs m).0 ≡ ok l'
              → All (Eligible cs tip candidate) l')
          → (entered w lru vc r blk (λ m. valid_peers w lru vc clock (i + 1) blocks cs m)).0 ≡ ok l
          → All (Eligible cs tip candidate) l
      one (ok v, m) h rec e' =
          let (l0, e0, r0) = >>=-eq-ok (valid_peers w lru vc clock (i + 1) blocks cs m).0 _ e' in
          cons v l0 (λ is. h.answer (ap ok is)) (rec m l0 h.backed e0) r0
      one (refused x, m) h rec e' = cc
      one (raised x, m) h rec e' = cc

  All-append {ℓ} :
      (P : Entrant → Type ℓ) (xs ys : List Entrant) → All P xs → All P ys → All P (xs ++ ys)
  All-append P [] ys a b = b
  All-append P (x ∷ xs) ys a b = (a.0, All-append P xs ys a.1 b)

  OneOf-All {ℓ} :
      (P : Entrant → Type ℓ) (x : Entrant) (l : List Entrant) → OneOf x l → All P l → P x
  OneOf-All P x [] h a = absurd h
  OneOf-All P x (e ∷ l) (inl h) a = subst P (sym h) a.0
  OneOf-All P x (e ∷ l) (inr h) a = OneOf-All P x l h a.1

  -- What is known of a winner, and of the field that it won.
  pub record Won (cs : ChainState) (tip : String) (candidate : Option Block) (clock : ℕ → ℤ)
      (blocks : List Block) (mem : Memory w lru vc) (x : Entrant) : Type 0 where
    pub peers : List Entrant
    pub peers-eq : (valid_peers w lru vc clock 0 blocks cs mem).0 ≡ ok peers
    pub field : Wins x (still_current candidate tip ++ peers)
    pub eligible : Eligible cs tip candidate x

  -- After any looks at blocks on a tip that the cache of verdicts had not met, a winner is one of
  -- those in the running, none of which has a lesser tie break key; a winner from a peer claims
  -- the hash of a block that passed validation on this chain, and a winner that is the node's own
  -- was built on this tip.
  pub pick_winner-Won :
      (cs : ChainState) (tip : String) (seen : List (ℤ × Block)) (candidate : Option Block)
      (clock : ℕ → ℤ) (blocks : List Block) (mem : Memory w lru vc) {x : Entrant}
      → tip_hash w cs.chain ≡ ok tip
      → same_text mem.judged.tip tip ≡ false
      → (pick_winner w lru vc clock cs candidate blocks (looks w lru vc seen cs mem)).0
        ≡ ok (some x)
      → Won cs tip candidate clock blocks (looks w lru vc seen cs mem) x
  unfolding pick_winner
  pick_winner-Won cs tip seen candidate clock blocks mem {x = x} t new e =
      let (tip', e0, r0) = >>=-eq-ok (tip_hash w cs.chain) _ e in
      let (l, e1, r1) = >>=-eq-ok (valid_peers w lru vc clock 0 blocks cs before).0 _ r0 in
      let wins : Wins x (still_current candidate tip ++ l) =
        first_least-Wins (still_current candidate tip ++ l) (
          ap (λ t'. first_least (still_current candidate t' ++ l)) (ok-injective (sym t ∙ e0))
          ∙ r1) in
      record {
        peers = l;
        peers-eq = e1;
        field = wins;
        eligible =
            OneOf-All (Eligible cs tip candidate) x (still_current candidate tip ++ l) wins.among (
              All-append (Eligible cs tip candidate) (still_current candidate tip) l
                (still_current-Eligible cs tip candidate)
                (valid_peers-Eligible cs tip candidate clock 0 blocks before t backed e1));
      }
    where
      before : Memory w lru vc
      before = looks w lru vc seen cs mem

      backed : Backed w lru vc cs tip before.judged
      backed = looks-Backed w lru vc cs tip seen mem t (λ c. absurd (cc (c, new)))
