-- ===== src/Block/Retarget/Median.antt =====
-- The median of the retarget window (src/block.py, `get_vdf_iterations`): what it takes to move it.
use lapsecoin.Prelude.{
  ℕ, zero, suc, ◌+◌, ◌-◌, ◌*◌, ◌/◌, ◌%◌, ◌≤◌, ◌<◌, ◌≡◌, refl, ap, sym, ◌∙◌, Bool, true, false, some,
  List, [], ◌∷◌, arith, ◌==◌, if◌then◌else◌, length, get_elem?, All,
}
use lapsecoin.Prelude.Int.{ℤ, ◌+ℤ◌, ◌≤ℤ◌, ltb_ℤ, int_laws}
use mathlib.Core.Path.{subst}
use native.Mathlib.Decide.{ℕ_discrete}
use lapsecoin.Block.Retarget.{insert_sorted, sorted, median_below}

-- How many intervals lie below the limit.
abbrev pub count_below : List ℤ → ℤ → ℕ
count_below [] limit = 0
count_below (x ∷ xs) limit = (if ltb_ℤ x limit then 1 else 0) + count_below xs limit

abbrev IsSorted : List ℤ → Type 0
IsSorted [] = Unit
IsSorted (x ∷ xs) = All (λ y. x ≤ℤ y) xs × IsSorted xs

All-le_trans : (x y : ℤ) (l : List ℤ) → x ≤ℤ y → All (λ z. y ≤ℤ z) l → All (λ z. x ≤ℤ z) l
All-le_trans x y [] h a = tt
All-le_trans x y (z ∷ l) h a = (omega arith, All-le_trans x y l h a.1)

insert_sorted-All :
    (x y : ℤ) (l : List ℤ) → y ≤ℤ x → All (λ z. y ≤ℤ z) l → All (λ z. y ≤ℤ z) (insert_sorted x l)
unfolding insert_sorted
insert_sorted-All x y [] h a = (h, tt)
insert_sorted-All x y (z ∷ l) h a = ground (arith, insert_sorted-All x y l h a.1)

insert_sorted-IsSorted : (x : ℤ) (l : List ℤ) → IsSorted l → IsSorted (insert_sorted x l)
unfolding insert_sorted
insert_sorted-IsSorted x [] h = (tt, tt)
insert_sorted-IsSorted x (y ∷ l) h =
    ground (arith, All-le_trans x y l, insert_sorted-All x y l, insert_sorted-IsSorted x l h.1)

sorted-IsSorted : (l : List ℤ) → IsSorted (sorted l)
unfolding sorted
sorted-IsSorted [] = tt
sorted-IsSorted (x ∷ l) = insert_sorted-IsSorted x (sorted l) (sorted-IsSorted l)

count_below-insert_sorted :
    (x limit : ℤ) (l : List ℤ) → count_below (insert_sorted x l) limit ≡ count_below (x ∷ l) limit
unfolding insert_sorted
count_below-insert_sorted x limit [] = refl
count_below-insert_sorted x limit (y ∷ l) = ground (arith, count_below-insert_sorted x limit l)

count_below-sorted : (l : List ℤ) (limit : ℤ) → count_below (sorted l) limit ≡ count_below l limit
unfolding sorted
count_below-sorted [] limit = refl
count_below-sorted (x ∷ l) limit =
    omega (arith, count_below-insert_sorted x limit (sorted l), count_below-sorted l limit)

length-insert_sorted : (x : ℤ) (l : List ℤ) → length (insert_sorted x l) ≡ suc (length l)
unfolding insert_sorted
length-insert_sorted x [] = refl
length-insert_sorted x (y ∷ l) = ground (arith, length-insert_sorted x l)

length-sorted : (l : List ℤ) → length (sorted l) ≡ length l
unfolding sorted
length-sorted [] = refl
length-sorted (x ∷ l) = omega (arith, length-insert_sorted x (sorted l), length-sorted l)

All-get_elem? :
    (P : ℤ → Type 0) (l : List ℤ) (k : ℕ) {v : ℤ} → All P l → get_elem? l k ≡ some v → P v
All-get_elem? P [] k a e = absurd (cc e)
All-get_elem? P (x ∷ l) zero {v = v} a e = let same : x ≡ v = cc e in subst P same a.0
All-get_elem? P (x ∷ l) (suc k) a e = All-get_elem? P l k a.1 e

-- Below a place that is below the limit stand only such.
count_below-lower :
    (l : List ℤ) (k : ℕ) (v limit : ℤ)
    → IsSorted l
    → get_elem? l k ≡ some v
    → ltb_ℤ v limit ≡ true
    → k < count_below l limit
count_below-lower [] k v limit s e h = absurd (cc e)
count_below-lower (x ∷ l) zero v limit s e h = ground arith
count_below-lower (x ∷ l) (suc k) v limit s e h =
    let first : x ≤ℤ v = All-get_elem? (λ y. x ≤ℤ y) l k s.0 e in
    ground (arith, count_below-lower l k v limit s.1 e h)

none_below : (x limit : ℤ) (l : List ℤ) → limit ≤ℤ x → All (λ y. x ≤ℤ y) l → count_below l limit ≡ 0
none_below x limit [] h a = refl
none_below x limit (y ∷ l) h a = ground (arith, none_below x limit l h a.1)

-- From a place on that is not below the limit there are none.
count_below-upper :
    (l : List ℤ) (k : ℕ) (v limit : ℤ)
    → IsSorted l
    → get_elem? l k ≡ some v
    → ltb_ℤ v limit ≡ false
    → count_below l limit ≤ k
count_below-upper [] k v limit s e h = absurd (cc e)
count_below-upper (x ∷ l) zero v limit s e h = ground (arith, none_below x limit l)
count_below-upper (x ∷ l) (suc k) v limit s e h =
    ground (arith, count_below-upper l k v limit s.1 e h)

get_elem?-some : (l : List ℤ) (k : ℕ) → k < length l → (v : ℤ) × (get_elem? l k ≡ some v)
get_elem?-some [] k h = elim h [ ]
get_elem?-some (x ∷ l) zero h = (x, refl)
get_elem?-some (x ∷ l) (suc k) h = get_elem?-some l k (omega arith)

get_elem?-mono :
    (l : List ℤ) (k : ℕ) (v u : ℤ)
    → IsSorted l
    → get_elem? l k ≡ some v
    → get_elem? l (suc k) ≡ some u
    → v ≤ℤ u
get_elem?-mono [] k v u s e f = absurd (cc e)
get_elem?-mono (x ∷ l) zero v u s e f =
    let same : x ≡ v = cc e in subst (λ y. y ≤ℤ u) same (All-get_elem? (λ y. x ≤ℤ y) l zero s.0 f)
get_elem?-mono (x ∷ l) (suc k) v u s e f = get_elem?-mono l k v u s.1 e f

-- The two middle places of the sorted list, and what `middle_below` asks of them.
median_odd :
    (l : List ℤ) (limit : ℤ)
    → length l % 2 ≡ 1
    → (v : ℤ) × (get_elem? (sorted l) (length l / 2) ≡ some v)
      × (median_below l limit ≡ ltb_ℤ v limit)
unfolding median_below
median_odd l limit odd =
    let (v, e) = get_elem?-some (sorted l) (length l / 2) (omega (arith, length-sorted l)) in
    let t : (length l % 2 == 1) ≡ true = ground arith in (v, e, rw (t, e))

median_even :
    (l : List ℤ) (limit : ℤ)
    → length l % 2 ≡ 0
    → 0 < length l
    → (v : ℤ) × (u : ℤ) × (get_elem? (sorted l) (length l / 2 - 1) ≡ some v)
      × (get_elem? (sorted l) (length l / 2) ≡ some u)
      × (v ≤ℤ u)
      × (median_below l limit ≡ ltb_ℤ (v +ℤ u) (limit +ℤ limit))
unfolding median_below
median_even l limit even some_left =
    let (v, e) = get_elem?-some (sorted l) (length l / 2 - 1) (omega (arith, length-sorted l)) in
    let (u, f) = get_elem?-some (sorted l) (length l / 2) (omega (arith, length-sorted l)) in
    let t : (length l % 2 == 1) ≡ false = ground arith in
    let next : length l / 2 ≡ suc (length l / 2 - 1) = omega arith in
    (
      v,
      u,
      e,
      f,
      get_elem?-mono (sorted l) (length l / 2 - 1) v u (sorted-IsSorted l) e
          (ap (get_elem? (sorted l)) (sym next) ∙ f),
      rw (t, e, f),
    )

both_below :
    (v u limit : ℤ) → v ≤ℤ u → ltb_ℤ u limit ≡ true → ltb_ℤ (v +ℤ u) (limit +ℤ limit) ≡ true
both_below v u limit h e = grind int_laws

one_below : (v u limit : ℤ) → v ≤ℤ u → ltb_ℤ (v +ℤ u) (limit +ℤ limit) ≡ true → ltb_ℤ v limit ≡ true
one_below v u limit h e = grind int_laws

median_below-nil : (l : List ℤ) (limit : ℤ) → length l ≡ 0 → median_below l limit ≡ false
unfolding median_below
median_below-nil [] limit e = refl
median_below-nil (x ∷ l) limit e = absurd (omega arith)

by_contradiction : (b : Bool) → (b ≡ false → ⊥) → b ≡ true
by_contradiction true h = refl
by_contradiction false h = absurd (h refl)

count_below_le : (l : List ℤ) (limit : ℤ) → count_below l limit ≤ length l
count_below_le [] limit = omega arith
count_below_le (x ∷ l) limit = ground (arith, count_below_le l limit)

-- A median below the limit needs at least half of the intervals below it, and more than half are
-- enough.
pub median_below_majority :
    (l : List ℤ) (limit : ℤ)
    → (median_below l limit ≡ true → length l ≤ 2 * count_below l limit)
      × (length l < 2 * count_below l limit → median_below l limit ≡ true)
median_below_majority l limit = elim (ℕ_discrete (length l % 2) 1) [
  | yes odd ↦
      let (v, e, m) = median_odd l limit odd in
      let lower = count_below-lower (sorted l) (length l / 2) v limit (sorted-IsSorted l) e in
      let upper = count_below-upper (sorted l) (length l / 2) v limit (sorted-IsSorted l) e in
      (
        λ h. omega (arith, lower (sym m ∙ h), count_below-sorted l limit),
        λ h.
            m
            ∙ by_contradiction (ltb_ℤ v limit)
                (λ f. omega (arith, upper f, count_below-sorted l limit)),
      )
  | no even ↦ elim (ℕ_discrete (length l) 0) [
    | yes empty ↦ (λ h. omega arith, λ h. absurd (omega (arith, count_below_le l limit)))
    | no filled ↦
        let (v, u, e, f, le, m) = median_even l limit (omega arith) (omega arith) in
        let lower = count_below-lower (sorted l) (length l / 2 - 1) v limit (sorted-IsSorted l) e in
        let upper = count_below-upper (sorted l) (length l / 2) u limit (sorted-IsSorted l) f in
        (
          λ h.
              omega (arith, lower (one_below v u limit le (sym m ∙ h)), count_below-sorted l limit),
          λ h.
              m
              ∙ both_below v u limit le (
                  by_contradiction (ltb_ℤ u limit)
                    (λ g. omega (arith, upper g, count_below-sorted l limit))),
        )
  ]
]

-- When the median of the block intervals is below a limit, at least half of the intervals are
-- below it.
pub median_below-half :
    (l : List ℤ) (limit : ℤ) → median_below l limit ≡ true → length l ≤ 2 * count_below l limit
median_below-half l limit = (median_below_majority l limit).0

-- When more than half of the block intervals are below a limit, their median is below it.
pub median_below-most :
    (l : List ℤ) (limit : ℤ) → length l < 2 * count_below l limit → median_below l limit ≡ true
median_below-most l limit = (median_below_majority l limit).1
