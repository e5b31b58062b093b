-- ===== src/Node/Coherent.antt =====
-- The states that src/node.py keeps to resume from are those that a replay of its chain gives.
pub mod Moves
pub mod Grown
pub mod Resume
pub mod Adopts
use lapsecoin.Prelude.{
  ℕ, zero, suc, ◌+◌, ◌<◌, ◌≤◌, ◌≡◌, refl, sym, ap, ◌∙◌, true, false, Option, none, some, List, [],
  ◌∷◌, ◌++◌, arith, All, length, take, length-append, ltb, leb, ◌==◌, leb→le, if-cases,
  if◌then◌else◌,
}
use mathlib.Core.Path.{subst}
use lapsecoin.Prelude.Result.{ok, >>=-eq-ok, ok-injective}
use lapsecoin.State
use lapsecoin.State.{State}
use lapsecoin.Block.{Block}
use lapsecoin.Block.Validate.{last?}
use lapsecoin.Chain.{ChainState, replay, cumulative}
use lapsecoin.Chain.Replay.{Replays}
use lapsecoin.Node.{
  Node, Recent, height_of, height, without, keep_last, below, remember_state,
  recent_state_cache_size,
}
use lapsecoin.Node.Live.{switch_to}

-- The heights count up from this one.
abbrev pub Numbered : ℕ → List Block → Type 0
Numbered i [] = Unit
Numbered i (b ∷ l) = (b.height ≡ i) × Numbered (suc i) l

-- A chain whose heights are its places and which replays to its state.
pub record IsBuilt (cs : ChainState) : Type 0 where
  pub replays : Replays cs
  pub numbered : Numbered 0 cs.chain
  pub nonempty : 0 < length cs.chain

-- An entry of the cache is what the blocks up to its height replay to.
pub record Kept (chain : List Block) (e : ℕ × (State × ℕ)) : Type 0 where
  pub inside : e.0 < length chain
  pub state-eq : replay (take (suc e.0) chain) State.empty ≡ ok e.1.0
  pub iterations-eq : cumulative (take (suc e.0) chain) ≡ e.1.1

pub record IsCoherent (node : Node) : Type 0 where
  pub built : IsBuilt node.cs
  pub kept : All (Kept node.cs.chain) node.recent

module _ {ℓ} {A : Type ℓ} where
  pub take-all : (xs : List A) → take (length xs) xs ≡ xs
  take-all [] = refl
  take-all (x ∷ xs) = ap (◌∷◌ x) (take-all xs)

  pub take-take : (m n : ℕ) (xs : List A) → m ≤ n → take m (take n xs) ≡ take m xs
  take-take zero n xs h = refl
  take-take (suc m) zero xs h = absurd (omega arith)
  take-take (suc m) (suc n) [] h = refl
  take-take (suc m) (suc n) (x ∷ xs) h = ap (◌∷◌ x) (take-take m n xs (omega arith))

  pub take-append : (xs ys : List A) → take (length xs) (xs ++ ys) ≡ xs
  take-append [] ys = refl
  take-append (x ∷ xs) ys = ap (◌∷◌ x) (take-append xs ys)

pub Numbered-take : (n i : ℕ) (c : List Block) → Numbered i c → Numbered i (take n c)
Numbered-take zero i c h = tt
Numbered-take (suc n) i [] h = tt
Numbered-take (suc n) i (b ∷ c) h = (h.0, Numbered-take n (suc i) c h.1)

pub Numbered-snoc :
    (i : ℕ) (c : List Block) (b : Block)
    → Numbered i c
    → b.height ≡ i + length c
    → Numbered i (c ++ b ∷ [])
Numbered-snoc i [] b h e = (omega (arith, e), tt)
Numbered-snoc i (x ∷ c) b h e = (h.0, Numbered-snoc (suc i) c b h.1 (omega (arith, e)))

pub last-height :
    (i : ℕ) (c : List Block) {b : Block}
    → Numbered i c
    → last? c ≡ some b
    → suc b.height ≡ i + length c
last-height i [] h e = cc
last-height i (x ∷ []) {b = b} h e = omega (arith, h.0, ap (λ (o : Option Block). height_or x o) e)
  where
    height_or : Block → Option Block → ℕ
    height_or d none = d.height
    height_or d (some t) = t.height
last-height i (x ∷ y ∷ c) h e = omega (arith, last-height (suc i) (y ∷ c) h.1 e)

-- Two chains that agree up to a height keep the same states below it.
pub Kept-prefix :
    (c d : List Block) (n : ℕ) (e : ℕ × (State × ℕ))
    → Kept c e
    → e.0 < n
    → take n c ≡ take n d
    → n ≤ length d
    → Kept d e
Kept-prefix c d n e k lt same le = record {
  inside = omega arith;
  state-eq = ap (λ l. replay l State.empty) up_to ∙ k.state-eq;
  iterations-eq = ap cumulative up_to ∙ k.iterations-eq;
}
  where
    up_to : take (suc e.0) d ≡ take (suc e.0) c
    up_to =
        sym (take-take (suc e.0) n d (omega arith))
        ∙ ap (take (suc e.0)) (sym same)
        ∙ take-take (suc e.0) n c (omega arith)

module _ (P : ℕ × (State × ℕ) → Type 0) where
  All-snoc : (r : Recent) (e : ℕ × (State × ℕ)) → All P r → P e → All P (r ++ e ∷ [])
  All-snoc [] e a p = (p, tt)
  All-snoc (x ∷ r) e a p = (a.0, All-snoc r e a.1 p)

  All-without : (h : ℕ) (r : Recent) → All P r → All P (without h r)
  All-without h [] a = tt
  All-without h ((i, v) ∷ r) a =
      if-cases (All P) (without h r) ((i, v) ∷ without h r) (i == h) (λ _. All-without h r a.1)
        (λ _. (a.0, All-without h r a.1))

  All-keep_last : (n : ℕ) (r : Recent) → All P r → All P (keep_last n r)
  unfolding keep_last
  All-keep_last n [] a = tt
  All-keep_last n (e ∷ r) a =
      if-cases (All P) (keep_last n r) (e ∷ r) (ltb n (length (e ∷ r))) (λ _. All-keep_last n r a.1)
        (λ _. a)

module _ (cs : ChainState) where
  pub height-length : (h : ℕ) → IsBuilt cs → height cs ≡ ok h → suc h ≡ length cs.chain
  height-length h b e = at (last? cs.chain) refl e
    where
      at : (o : Option Block) → last? cs.chain ≡ o → height_of o ≡ ok h → suc h ≡ length cs.chain
      at none l e' = cc
      at (some tip) l e' = omega (arith, ok-injective e', last-height 0 cs.chain b.numbered l)

  -- The entry that is stored for a chain that is built.
  stored-Kept :
      (h : ℕ)
      → IsBuilt cs
      → height cs ≡ ok h
      → Kept cs.chain (h, (cs.state, cs.cumulative_iterations))
  stored-Kept h b e = record {
    inside = omega (arith, height-length h b e);
    state-eq = ap (λ l. replay l State.empty) whole ∙ b.replays.state-eq;
    iterations-eq = ap cumulative whole ∙ b.replays.iterations-eq;
  }
    where
      whole : take (suc h) cs.chain ≡ cs.chain
      whole = ap (λ n. take n cs.chain) (height-length h b e) ∙ take-all cs.chain

  -- To move to a chain that is built, with entries that are right for it.
  pub switch_to-IsCoherent :
      (node : Node) {node' : Node}
      → IsBuilt cs
      → All (Kept cs.chain) node.recent
      → switch_to cs node ≡ ok node'
      → IsCoherent node'
  unfolding switch_to remember_state
  switch_to-IsCoherent node b a e =
      let (h, e0, r0) = >>=-eq-ok (height cs) _ e in
      subst IsCoherent (ok-injective r0) (record {
        built = b;
        kept = All-keep_last (Kept cs.chain) recent_state_cache_size _ (
            All-snoc (Kept cs.chain) (without h node.recent) _
              (All-without (Kept cs.chain) h node.recent a) (stored-Kept h b e0));
      })

-- One block more, with the height of its place.
pub append-IsBuilt :
    (cs cs' : ChainState) (blk : Block)
    → IsBuilt cs
    → Replays cs'
    → cs'.chain ≡ cs.chain ++ blk ∷ []
    → blk.height ≡ length cs.chain
    → IsBuilt cs'
append-IsBuilt cs cs' blk b r e h = record {
  replays = r;
  numbered =
      subst (Numbered 0) (sym e) (Numbered-snoc 0 cs.chain blk b.numbered (omega (arith, h)));
  nonempty = omega (arith, ap length e, length-append cs.chain (blk ∷ []));
}
