-- ===== src/Chain/Fork/Search.antt =====
-- The binary search of src/chainstate.py, `_fork_point`, against the linear scan that src/node.py
-- makes over the same two chains.
use lapsecoin.Prelude.{
  ℕ, zero, suc, ◌+◌, ◌-◌, ◌/◌, ◌≤◌, ◌<◌, ◌≡◌, refl, ap, ◌∙◌, Bool, true, false, some, List, [], ◌∷◌,
  arith, length, ltb, ltb→lt, ltb-false-le, if◌then◌else◌, Bool-cases, inl, inr,
}
use Prim.Native.Nat.{min}
use lapsecoin.Block.{Block}
use lapsecoin.Chain.Fork.{same_hash, agree, search_fork}

-- `r` is where the two first differ, or the end.
pub record IsFork (same : ℕ → Bool) (n r : ℕ) : Type 0 where
  pub in_range : r ≤ n
  pub before : (i : ℕ) → i < r → same i ≡ true
  pub at : r < n → same r ≡ false

abbrev IsMonotone : (ℕ → Bool) → Type 0
IsMonotone same = (i j : ℕ) → i ≤ j → same j ≡ true → same i ≡ true

module _ (same : ℕ → Bool) (fuel lo hi : ℕ) where
  search_fork-stop : ltb lo hi ≡ false → search_fork same (suc fuel) lo hi ≡ some lo
  unfolding search_fork
  search_fork-stop e = ground arith

  search_fork-up :
      ltb lo hi ≡ true
      → same ((lo + hi) / 2) ≡ true
      → search_fork same (suc fuel) lo hi ≡ search_fork same fuel ((lo + hi) / 2 + 1) hi
  unfolding search_fork
  search_fork-up e f = ground arith

  search_fork-down :
      ltb lo hi ≡ true
      → same ((lo + hi) / 2) ≡ false
      → search_fork same (suc fuel) lo hi ≡ search_fork same fuel lo ((lo + hi) / 2)
  unfolding search_fork
  search_fork-down e f = ground arith

module _ (same : ℕ → Bool) (mono : IsMonotone same) (n : ℕ) where
  -- With more fuel than the interval is long the search ends, and finds the first difference.
  pub search_fork-IsFork :
      (fuel lo hi : ℕ)
      → hi - lo < fuel
      → lo ≤ hi
      → hi ≤ n
      → ((i : ℕ) → i < lo → same i ≡ true)
      → (hi < n → same hi ≡ false)
      → (r : ℕ) × (search_fork same fuel lo hi ≡ some r) × IsFork same n r
  search_fork-IsFork zero lo hi f o b p q = absurd (omega arith)
  search_fork-IsFork (suc fuel) lo hi f o b p q = elim (Bool-cases (ltb lo hi)) [
    | inl more ↦
        let below : lo < hi = ltb→lt lo hi more in
        elim (Bool-cases (same ((lo + hi) / 2))) [
          | inl agrees ↦
              let (r, e, h) =
                search_fork-IsFork fuel ((lo + hi) / 2 + 1) hi (omega arith) (omega arith) b
                  (λ i l. mono i ((lo + hi) / 2) (omega arith) agrees) q in
              (r, search_fork-up same fuel lo hi more agrees ∙ e, h)
          | inr differs ↦
              let (r, e, h) =
                search_fork-IsFork fuel lo ((lo + hi) / 2) (omega arith) (omega arith) (omega arith)
                  p (λ _. differs) in
              (r, search_fork-down same fuel lo hi more differs ∙ e, h)
        ]
    | inr stop ↦
        let last : hi ≤ lo = ltb-false-le lo hi stop in
        let same_end : lo ≡ hi = omega arith in
        (
          lo,
          search_fork-stop same fuel lo hi stop,
          record {
            in_range = omega arith;
            before = p;
            at = λ l. ap same same_end ∙ q (omega arith);
          },
        )
  ]

-- There is one such place.
pub IsFork-unique : (same : ℕ → Bool) (n r r' : ℕ) → IsFork same n r → IsFork same n r' → r ≡ r'
IsFork-unique same n r r' h k = ground (arith, h.before r', k.before r)

-- `next((i for i, (a, b) in enumerate(zip(...)) if a["hash"] != b["hash"]), min(len, len))` of
-- `_evaluate_remote_chain`.
unfoldable pub first_difference : List Block → List Block → ℕ
first_difference [] ys = 0
first_difference (x ∷ xs) [] = 0
first_difference (x ∷ xs) (y ∷ ys) =
    if same_hash x.hash y.hash then suc (first_difference xs ys) else 0

agree-suc :
    (x y : Block) (xs ys : List Block) (i : ℕ) → agree (x ∷ xs) (y ∷ ys) (suc i) ≡ agree xs ys i
unfolding agree
agree-suc x y xs ys i = refl

IsFork-cons :
    (x y : Block) (xs ys : List Block) (r : ℕ)
    → same_hash x.hash y.hash ≡ true
    → IsFork (agree xs ys) (min (length xs) (length ys)) r
    → IsFork (agree (x ∷ xs) (y ∷ ys)) (min (suc (length xs)) (suc (length ys))) (suc r)
unfolding agree
IsFork-cons x y xs ys r e h = record {
  in_range = omega (arith, h.in_range);
  before = before;
  at = λ l. h.at (omega arith);
}
  where
    before : (i : ℕ) → i < suc r → agree (x ∷ xs) (y ∷ ys) i ≡ true
    before zero l = e
    before (suc i) l = h.before i (omega arith)

-- The scan finds the first difference.
pub first_difference-IsFork :
    (xs ys : List Block)
    → IsFork (agree xs ys) (min (length xs) (length ys)) (first_difference xs ys)
unfolding first_difference
first_difference-IsFork [] ys = record {
  in_range = omega arith;
  before = λ i l. elim l [ ];
  at = λ l. absurd (omega arith);
}
first_difference-IsFork (x ∷ xs) [] = record {
  in_range = omega arith;
  before = λ i l. elim l [ ];
  at = λ l. absurd (omega arith);
}
first_difference-IsFork (x ∷ xs) (y ∷ ys) = elim (Bool-cases (same_hash x.hash y.hash)) [
  | inl agrees ↦ rw agrees (IsFork-cons x y xs ys _ agrees (first_difference-IsFork xs ys))
  | inr differs ↦
      rw differs
        (record { in_range = omega arith; before = λ i l. elim l [ ]; at = λ l. at_head differs })
]
  where
    at_head : same_hash x.hash y.hash ≡ false → agree (x ∷ xs) (y ∷ ys) 0 ≡ false
    at_head d = unfold agree in d
