-- ===== src/Swap/Schedule.antt =====
-- The schedule of a trade (`build_schedule` of src/swap.py) is exact.
use native.Mathlib.Nat.{mod-lt, div-add-mod', le-div_iff_mul-le, div-mul-le_self}
use lapsecoin.Prelude.{
  ℕ, zero, suc, ◌+◌, ◌-◌, ◌*◌, ◌/◌, ◌%◌, ◌≤◌, ◌<◌, ◌≡◌, refl, sym, ap, ◌∙◌, true, false, ◌||◌, some,
  List, [], ◌∷◌, map, arith, ltb, ◌==◌, length, replicate, zip, total, Bool-cases, ltb-false-le,
  inl, inr,
}
use lapsecoin.Prelude.Int.{pos, ltb_ℤ}
use lapsecoin.Prelude.Result.{ok}
use lapsecoin.Swap.{Floats, larger, bump, spread, amounts, any_below, split, build_schedule}

total-replicate : (n b : ℕ) → total (replicate n b) ≡ n * b
total-replicate zero b = omega arith
total-replicate (suc n) b = grind (arith, total-replicate n b)

pub length-replicate : (n b : ℕ) → length (replicate n b) ≡ n
length-replicate zero b = refl
length-replicate (suc n) b = ap suc (length-replicate n b)

total-map : (d : ℕ) (l : List ℕ) → total (map (λ a. a + d) l) ≡ total l + length l * d
total-map d [] = omega arith
total-map d (x ∷ l) = grind (arith, total-map d l)

pub length-map : (d : ℕ) (l : List ℕ) → length (map (λ a. a + d) l) ≡ length l
length-map d [] = refl
length-map d (x ∷ l) = ap suc (length-map d l)

total-bump : (n : ℕ) (l : List ℕ) → n ≤ length l → total (bump n l) ≡ total l + n
unfolding bump
total-bump zero l h = omega arith
total-bump (suc n) [] h = absurd (omega (arith, h))
total-bump (suc n) (x ∷ l) h = omega (arith, total-bump n l (omega arith))

-- What is short is spread to the last unit.
total-spread :
    (short n probe : ℕ) (l : List ℕ)
    → 0 < n
    → length l ≡ n
    → total (spread short n probe l) ≡ probe + total l + short
unfolding spread
total-spread short n probe l p e =
    let size : length (map (λ a. a + short / n) l) ≡ n = length-map (short / n) l ∙ e in
    let room : short % n ≤ length (map (λ a. a + short / n) l) =
      omega (arith, mod-lt short p, size) in
    let up : length l * (short / n) ≡ short / n * n = grind (arith, e) in
    omega (
      arith,
      total-bump (short % n) (map (λ a. a + short / n) l) room,
      total-map (short / n) l,
      div-add-mod' short n,
      up,
    )

-- The probe and the bodies of an exact division do not pass the total.
exact_fits :
    (wanted n body quarter : ℕ)
    → 0 < n
    → suc n ≤ wanted
    → body ≡ 4 * wanted / (4 * n + 1)
    → quarter ≡ body / 4
    → (1 ≤ body) × (larger quarter 1 + n * body ≤ wanted)
exact_fits wanted n body quarter p h e q =
    let most : body * (4 * n + 1) ≤ 4 * wanted = rw e (div-mul-le_self (4 * wanted) (4 * n + 1)) in
    let open_up : body * (4 * n + 1) ≡ 4 * (n * body) + body = grind arith in
    let least : 1 ≤ body = rw e ((le-div_iff_mul-le (omega arith)).1 (omega arith)) in
    (least, ground (arith, most, open_up, least, q))

-- A part below the least step stands in a list only if some of what it is made of is.
none_below-replicate : (n b : ℕ) → 1 ≤ b → any_below 1 (replicate n b) ≡ false
none_below-replicate zero b h = refl
none_below-replicate (suc n) b h = ground (arith, none_below-replicate n b h)

none_below-map :
    (d : ℕ) (l : List ℕ) → any_below 1 l ≡ false → any_below 1 (map (λ a. a + d) l) ≡ false
none_below-map d [] h = refl
none_below-map d (x ∷ l) h = ground (arith, none_below-map d l)

none_below-bump : (n : ℕ) (l : List ℕ) → any_below 1 l ≡ false → any_below 1 (bump n l) ≡ false
unfolding bump
none_below-bump zero l h = h
none_below-bump (suc n) [] h = refl
none_below-bump (suc n) (x ∷ l) h = ground (arith, none_below-bump n l)

pub length-bump : (n : ℕ) (l : List ℕ) → length (bump n l) ≡ length l
unfolding bump
length-bump zero l = refl
length-bump (suc n) [] = refl
length-bump (suc n) (x ∷ l) = ap suc (length-bump n l)

-- A list of steps for a total.
record Splits (count wanted : ℕ) (l : List ℕ) : Type 0 where
  exact : total l ≡ wanted
  sized : length l ≡ count
  none_small : any_below 1 l ≡ false

spread-size : (short n probe : ℕ) (l : List ℕ) → length (spread short n probe l) ≡ suc (length l)
unfolding spread
spread-size short n probe l =
    ap suc (length-bump (short % n) (map (λ a. a + short / n) l) ∙ length-map (short / n) l)

spread-none :
    (short n probe : ℕ) (l : List ℕ)
    → 1 ≤ probe
    → any_below 1 l ≡ false
    → any_below 1 (spread short n probe l) ≡ false
unfolding spread
spread-none short n probe l q b = ground (
  arith,
  none_below-bump (short % n) (map (λ a. a + short / n) l) (none_below-map (short / n) l b),
)

spread-Splits :
    (wanted short n probe : ℕ) (l : List ℕ)
    → 0 < n
    → 1 ≤ probe
    → length l ≡ n
    → any_below 1 l ≡ false
    → probe + total l + short ≡ wanted
    → Splits (suc n) wanted (spread short n probe l)
spread-Splits wanted short n probe l p q e b h = record {
  exact = total-spread short n probe l p e ∙ h;
  sized = spread-size short n probe l ∙ ap suc e;
  none_small = spread-none short n probe l q b;
}

amounts-Splits :
    (wanted n probe body : ℕ)
    → 0 < n
    → 1 ≤ probe
    → 1 ≤ body
    → probe + n * body ≤ wanted
    → Splits (suc n) wanted (amounts wanted n probe body)
unfolding amounts
amounts-Splits wanted n probe body p q r h =
    let bodies = replicate n body in
    let sum : total (probe ∷ bodies) ≡ probe + n * body = omega (arith, total-replicate n body) in
    elim (Bool-cases (ltb (total (probe ∷ bodies)) wanted)) [
      | inl y ↦ rw y (
          spread-Splits wanted (wanted - total (probe ∷ bodies)) n probe bodies p q
            (length-replicate n body) (none_below-replicate n body r) (omega arith))
      | inr f ↦ rw f (record {
        exact = omega (arith, sum, ltb-false-le _ _ f);
        sized = ap suc (length-replicate n body);
        none_small = ground (arith, none_below-replicate n body r);
      })
    ]

-- The float division and the quarter are the exact ones, rounded down: what IEEE 754 gives while
-- the total is small against the 53 bits of a double.
pub record IsExactAt (f : Floats) (n wanted : ℕ) : Type 0 where
  pub body-eq : f.body wanted n ≡ some (4 * wanted / (4 * n + 1))
  pub quarter-eq : f.quarter (4 * wanted / (4 * n + 1)) ≡ 4 * wanted / (4 * n + 1) / 4

abbrev pub lapse_of : List (ℕ × ℕ) → List ℕ
lapse_of s = map (λ p. p.0) s

abbrev pub xlm_of : List (ℕ × ℕ) → List ℕ
xlm_of s = map (λ p. p.1) s

pub zip-parts :
    (xs ys : List ℕ)
    → length xs ≡ length ys
    → (lapse_of (zip xs ys) ≡ xs) × (xlm_of (zip xs ys) ≡ ys) × (length (zip xs ys) ≡ length xs)
zip-parts [] [] e = (refl, refl, refl)
zip-parts [] (y ∷ ys) e = absurd (omega (arith, e))
zip-parts (x ∷ xs) [] e = absurd (omega (arith, e))
zip-parts (x ∷ xs) (y ∷ ys) e =
    let (a, b, c) = zip-parts xs ys (omega (arith, e)) in (rw a refl, rw b refl, ap suc c)

larger_le : (a b : ℕ) → b ≤ larger a b
larger_le a b = ground arith

split-ok :
    (f : Floats) (n wanted : ℕ)
    → suc n ≤ wanted
    → IsExactAt f n wanted
    → (l : List ℕ) × (split f (suc n) wanted ≡ ok l) × Splits (suc n) wanted l
unfolding split
split-ok f zero wanted h x =
    (wanted ∷ [], refl, record { exact = omega arith; sized = refl; none_small = ground arith })
split-ok f (suc n) wanted h x =
    let body = 4 * wanted / (4 * suc n + 1) in
    let (least, fits) =
      exact_fits wanted (suc n) body (f.quarter body) (omega arith) h refl x.quarter-eq in
    let same : suc (suc n) - 1 ≡ suc n = omega arith in
    (
      amounts wanted (suc n) (larger (f.quarter body) 1) body,
      rw (same, x.body-eq) (ground arith),
      amounts-Splits wanted (suc n) (larger (f.quarter body) 1) body (omega arith)
          (larger_le (f.quarter body) 1) least fits,
    )

build_schedule-parts :
    (f : Floats) (count lapse_total xlm_total : ℕ) (ls xs : List ℕ)
    → 1 ≤ count
    → count ≤ lapse_total
    → count ≤ xlm_total
    → split f count lapse_total ≡ ok ls
    → split f count xlm_total ≡ ok xs
    → Splits count lapse_total ls
    → Splits count xlm_total xs
    → build_schedule f (pos lapse_total) (pos xlm_total) count ≡ ok (zip ls xs)
unfolding build_schedule
build_schedule-parts f count lapse_total xlm_total ls xs h hl hx e0 e1 kl kx =
    let a : ltb count 1 ≡ false = ground arith in
    let b : (ltb_ℤ (pos lapse_total) (pos count) || ltb_ℤ (pos xlm_total) (pos count)) ≡ false =
      ground arith in
    let c : (total ls == lapse_total) ≡ true = ground (arith, kl.exact) in
    let d : (total xs == xlm_total) ≡ true = ground (arith, kx.exact) in
    rw (a, b, e0, e1, c, d, kl.none_small, kx.none_small) refl

-- Where the two divisions of floats are exact, a schedule is returned for any number of steps that
-- neither total is below, and its steps have that number and add up to exactly the two totals.
pub build_schedule-ok :
    (f : Floats) (n lapse_total xlm_total : ℕ)
    → suc n ≤ lapse_total
    → suc n ≤ xlm_total
    → IsExactAt f n lapse_total
    → IsExactAt f n xlm_total
    → (s : List (ℕ × ℕ)) × (build_schedule f (pos lapse_total) (pos xlm_total) (suc n) ≡ ok s)
      × (total (lapse_of s) ≡ lapse_total)
      × (total (xlm_of s) ≡ xlm_total)
      × (length s ≡ suc n)
unfolding build_schedule
build_schedule-ok f n lapse_total xlm_total hl hx el ex =
    let (ls, e0, kl) = split-ok f n lapse_total hl el in
    let (xs, e1, kx) = split-ok f n xlm_total hx ex in
    let (a, b, c) = zip-parts ls xs (kl.sized ∙ sym kx.sized) in
    (
      zip ls xs,
      build_schedule-parts f (suc n) lapse_total xlm_total ls xs (omega arith) hl hx e0 e1 kl kx,
      ap total a ∙ kl.exact,
      ap total b ∙ kx.exact,
      c ∙ kl.sized,
    )
