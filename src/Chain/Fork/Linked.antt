-- ===== src/Chain/Fork/Linked.antt =====
-- Why `_fork_point` of src/chainstate.py may search by halving: in chains linked by hashes,
-- agreement at one height is agreement at every height below.
use lapsecoin.Prelude.{
  ℕ, zero, suc, ◌+◌, ◌-◌, String, ◌≡◌, refl, ap, sym, ◌∙◌, true, Option, none, some, List, arith,
  length, get_elem?, eq_iff,
}
use Prim.Native.Nat.{min}
use lapsecoin.Block.{Block}
use lapsecoin.Chain.Fork.{same_hash, block_agrees, agree, fork_point}
use lapsecoin.Chain.Fork.Search.{
  search_fork-IsFork, IsFork-unique, first_difference, first_difference-IsFork,
}

-- Every block but the first names the hash of the one before it, as `_check_parent` asks.
abbrev pub IsLinked : List Block → Type 0
IsLinked chain =
    (i : ℕ) (b : Block)
    → get_elem? chain (suc i) ≡ some b
    → (a : Block) × (get_elem? chain i ≡ some a) × (a.hash ≡ some b.previous_hash)

-- A hash stands for the parent's hash too: what SHA-256 gives for the blocks of two real chains.
abbrev pub Commits : List Block → List Block → Type 0
Commits xs ys =
    (i : ℕ) (x y : Block)
    → get_elem? xs i ≡ some x
    → get_elem? ys i ≡ some y
    → same_hash x.hash y.hash ≡ true
    → x.previous_hash ≡ y.previous_hash

-- The blocks of two chains that agree at a height.
block_agrees-some :
    (o p : Option Block)
    → block_agrees o p ≡ true
    → (x : Block) × (y : Block) × (o ≡ some x) × (p ≡ some y) × (same_hash x.hash y.hash ≡ true)
block_agrees-some none p h = cc
block_agrees-some (some x) none h = cc
block_agrees-some (some x) (some y) h = (x, y, refl, refl, h)

same_hash-eq :
    (o p : Option String) (s t : String) → o ≡ some s → p ≡ some t → s ≡ t → same_hash o p ≡ true
same_hash-eq o p s t e f g = rw (e, f) ((eq_iff s t).1 g)

module _ (xs ys : List Block) (lx : IsLinked xs) (ly : IsLinked ys) (commits : Commits xs ys) where
  agree-down : (i : ℕ) → agree xs ys (suc i) ≡ true → agree xs ys i ≡ true
  unfolding agree
  agree-down i h =
      let (x, y, e, f, g) = block_agrees-some (get_elem? xs (suc i)) (get_elem? ys (suc i)) h in
      let (a, e0, e1) = lx i x e in
      let (b, f0, f1) = ly i y f in
      let same = commits (suc i) x y e f g in
      agree_at a b e0 f0 (same_hash-eq a.hash b.hash x.previous_hash y.previous_hash e1 f1 same)
    where
      agree_at :
          (a b : Block)
          → get_elem? xs i ≡ some a
          → get_elem? ys i ≡ some b
          → same_hash a.hash b.hash ≡ true
          → block_agrees (get_elem? xs i) (get_elem? ys i) ≡ true
      agree_at a b e f g = rw (e, f) g

  agree-below : (k i j : ℕ) → i + k ≡ j → agree xs ys j ≡ true → agree xs ys i ≡ true
  agree-below zero i j e h = let same : j ≡ i = omega arith in ap (agree xs ys) (sym same) ∙ h
  agree-below (suc k) i j e h =
      let next : j ≡ suc (i + k) = omega arith in
      agree-below k i (i + k) refl (agree-down (i + k) (ap (agree xs ys) (sym next) ∙ h))

  -- On two chains linked by their hashes, where equal hashes come with equal parents' hashes, the
  -- binary search for the fork point ends and returns the height at which a scan from genesis
  -- finds the first difference.
  pub fork_point-eq-first_difference : fork_point xs ys ≡ some (first_difference xs ys)
  unfolding fork_point
  fork_point-eq-first_difference =
      let n = min (length xs) (length ys) in
      let (r, e, h) =
        search_fork-IsFork (agree xs ys) (λ i j l. agree-below (j - i) i j (omega arith)) n (n + 1)
          0 n (omega arith) (omega arith) (omega arith) (λ i l. elim l [ ])
          (λ l. absurd (omega arith)) in
      e
      ∙ ap some (
          IsFork-unique (agree xs ys) n r (first_difference xs ys) h
            (first_difference-IsFork xs ys))
