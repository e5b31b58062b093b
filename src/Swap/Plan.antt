-- ===== src/Swap/Plan.antt =====
-- A plan of src/swap.py stays under its cap, and both sides of a trade make the same one.
use mathlib.Core.Path.{subst}
use lapsecoin.Prelude.{
  ℕ, zero, suc, ◌+◌, ◌-◌, ◌/◌, ◌≤◌, ◌≡◌, refl, sym, ap, ◌∙◌, Bool, true, false, ◌||◌, Option, some,
  List, ◌∷◌, map, arith, ltb, ◌==◌, if◌then◌else◌, length, replicate, total, Bool-cases, inl, inr,
}
use lapsecoin.Prelude.Int.{ℤ, pos, pos_part, ◌≤ℤ◌, ltb_ℤ, leb_ℤ, eq_of_parts}
use lapsecoin.Prelude.Result.{ok, >>=-eq-ok, ok-injective}
use lapsecoin.Swap.{
  Floats, max_increments, min_increments, min_step_ticks, min_step_stroops, min_ℤ, max_ℤ, held_to,
  spread, amounts, any_below, split, build_schedule, or_overflow, unless_value_error, assert_that,
  largest_xlm, increment_count, Planned, plan_from, plan_for_cap, exposure_cap_stroops,
  mutual_exposure_cap_stroops, plan_mutual,
}
use lapsecoin.Swap.Schedule.{lapse_of, xlm_of, zip-parts, length-replicate, length-map, length-bump}

unless_value_error-ok : (b : Bool) {u : Unit {0}} → unless_value_error b ≡ ok u → b ≡ false
unless_value_error-ok true e = cc
unless_value_error-ok false e = refl

assert_that-ok : (b : Bool) {u : Unit {0}} → assert_that b ≡ ok u → b ≡ true
assert_that-ok true e = refl
assert_that-ok false e = cc

nat_eq-true : (a b : ℕ) → (a == b) ≡ true → a ≡ b
nat_eq-true a b h = ground arith

length-amounts : (wanted n probe body : ℕ) → length (amounts wanted n probe body) ≡ suc n
unfolding amounts spread
length-amounts wanted n probe body =
    let bodies = replicate n body in
    let short = wanted - total (probe ∷ bodies) in
    let size = length-replicate n body in
    elim (Bool-cases (ltb (total (probe ∷ bodies)) wanted)) [
      | inl y ↦ rw y (
          ap suc (
            length-bump _ (map (λ a. a + short / n) bodies) ∙ length-map (short / n) bodies ∙ size))
      | inr f ↦ rw f (ap suc size)
    ]

-- Every split has as many parts as it was asked for.
length-split :
    (f : Floats) (n wanted : ℕ) {l : List ℕ} → split f (suc n) wanted ≡ ok l → length l ≡ suc n
unfolding split
length-split f zero wanted e = ap length (sym (ok-injective e))
length-split f (suc n) wanted e =
    let many : (suc (suc n) == 1) ≡ false = ground arith in
    let (body, e0, r0) =
      >>=-eq-ok (or_overflow (f.body wanted (suc (suc n) - 1))) _ (rw many at e) in
    ap length (sym (ok-injective r0)) ∙ length-amounts wanted (suc (suc n) - 1) _ body ∙ omega arith

-- What a schedule is for: the totals, to the last unit, in so many steps.
pub record IsFor (lapse_total xlm_total : ℤ) (count : ℕ) (s : List (ℕ × ℕ)) : Type 0 where
  pub lapse-eq : pos (total (lapse_of s)) ≡ lapse_total
  pub xlm-eq : pos (total (xlm_of s)) ≡ xlm_total
  pub sized : length s ≡ count

pos_total : (t : ℤ) (count n : ℕ) → ltb_ℤ t (pos count) ≡ false → n ≡ pos_part t → pos n ≡ t
pos_total t count n h e = ground (arith, eq_of_parts (pos n) t)

or-false : (a b : Bool) → (a || b) ≡ false → (a ≡ false) × (b ≡ false)
or-false true b h = cc
or-false false b h = (refl, h)

build_schedule-IsFor :
    (f : Floats) (lapse_total xlm_total : ℤ) (count : ℕ) {s : List (ℕ × ℕ)}
    → build_schedule f lapse_total xlm_total count ≡ ok s
    → IsFor lapse_total xlm_total count s
unfolding build_schedule
build_schedule-IsFor f lapse_total xlm_total zero e = cc
build_schedule-IsFor f lapse_total xlm_total (suc n) {s = s} e =
    let (u0, e0, r0) = >>=-eq-ok (unless_value_error (ltb (suc n) 1)) _ e in
    let (u1, e1, r1) =
      >>=-eq-ok
        (unless_value_error (ltb_ℤ lapse_total (pos (suc n)) || ltb_ℤ xlm_total (pos (suc n)))) _
        r0 in
    let (ls, e2, r2) = >>=-eq-ok (split f (suc n) (pos_part lapse_total)) _ r1 in
    let (xs, e3, r3) = >>=-eq-ok (split f (suc n) (pos_part xlm_total)) _ r2 in
    let (u4, e4, r4) = >>=-eq-ok (assert_that (total ls == pos_part lapse_total)) _ r3 in
    let (u5, e5, r5) = >>=-eq-ok (assert_that (total xs == pos_part xlm_total)) _ r4 in
    let (u6, e6, r6) = >>=-eq-ok (unless_value_error (any_below min_step_ticks ls)) _ r5 in
    let (u7, e7, r7) = >>=-eq-ok (unless_value_error (any_below 1 xs)) _ r6 in
    let (dl, dx) = or-false _ _ (unless_value_error-ok _ e1) in
    let nl = length-split f n (pos_part lapse_total) e2 in
    let (a, b, c) = zip-parts ls xs (nl ∙ sym (length-split f n (pos_part xlm_total) e3)) in
    subst (IsFor lapse_total xlm_total (suc n)) (ok-injective r7) (record {
      lapse-eq =
          pos_total lapse_total (suc n) _ dl (ap total a ∙ nat_eq-true _ _ (assert_that-ok _ e4));
      xlm-eq =
          pos_total xlm_total (suc n) _ dx (ap total b ∙ nat_eq-true _ _ (assert_that-ok _ e5));
      sized = c ∙ nl;
    })

-- A plan: a schedule for the totals, of at most so many steps, none of them above the cap.
pub record IsSafe (f : Floats) (lapse_total xlm_total bound : ℤ) (p : Planned f) : Type 0 where
  pub is_for : IsFor lapse_total xlm_total p.count p.schedule
  pub cap-eq : p.cap ≡ bound
  pub within : pos (largest_xlm p.schedule) ≤ℤ bound
  pub at_least : min_increments ≤ p.count
  pub at_most : p.count ≤ max_increments

leb_ℤ-le : (a b : ℤ) → leb_ℤ a b ≡ true → a ≤ℤ b
leb_ℤ-le a b h = ground arith

plan_from-IsSafe :
    (f : Floats) (lapse_total xlm_total bound : ℤ) (left count : ℕ) {p : Planned f}
    → min_increments ≤ count
    → left + count ≤ max_increments + 1
    → plan_from f lapse_total xlm_total bound left count ≡ ok p
    → IsSafe f lapse_total xlm_total bound p
unfolding plan_from
plan_from-IsSafe f lapse_total xlm_total bound zero count lo hi e = cc
plan_from-IsSafe f lapse_total xlm_total bound (suc left) count lo hi e =
    let (s, e0, r0) = >>=-eq-ok (build_schedule f lapse_total xlm_total count) _ e in
    elim (Bool-cases (leb_ℤ (pos (largest_xlm s)) bound)) [
      | inl y ↦ subst (IsSafe f lapse_total xlm_total bound) (ok-injective (rw y at r0)) (record {
        is_for = build_schedule-IsFor f lapse_total xlm_total count e0;
        cap-eq = refl;
        within = leb_ℤ-le (pos (largest_xlm s)) bound y;
        at_least = lo;
        at_most = omega (arith, hi);
      })
      | inr n ↦
          plan_from-IsSafe f lapse_total xlm_total bound left (count + 1) (omega (arith, lo))
            (omega (arith, hi)) (rw n at r0)
    ]

increment_count-bounds :
    (f : Floats) (xlm_total bound : ℤ) {count : ℕ}
    → increment_count f xlm_total bound ≡ ok count
    → (min_increments ≤ count) × (count ≤ max_increments)
unfolding increment_count
increment_count-bounds f xlm_total bound e =
    let (u0, e0, r0) = >>=-eq-ok (unless_value_error (leb_ℤ xlm_total (pos 0))) _ e in
    let (needed, e1, r1) = >>=-eq-ok (or_overflow (f.needed (pos_part xlm_total) bound)) _ r0 in
    ground arith

-- A plan for a cap has between 2 and 20 steps, which add up to exactly the two totals, and no step
-- of it is worth more than the cap.
pub plan_for_cap-IsSafe :
    (f : Floats) (lapse_total xlm_total bound : ℤ) {p : Planned f}
    → plan_for_cap f lapse_total xlm_total bound ≡ ok p
    → IsSafe f lapse_total xlm_total bound p
unfolding plan_for_cap
plan_for_cap-IsSafe f lapse_total xlm_total bound e =
    let (count, e0, r0) = >>=-eq-ok (increment_count f xlm_total bound) _ e in
    let (lo, hi) = increment_count-bounds f xlm_total bound e0 in
    plan_from-IsSafe f lapse_total xlm_total bound (max_increments + 1 - count) count lo
      (omega (arith, hi)) r0

min_ℤ_comm : (a b : ℤ) → min_ℤ a b ≡ min_ℤ b a
min_ℤ_comm a b = ground (arith, eq_of_parts a b)

-- Both parties of a trade, each with its own order of the trust scores and stakes, come to the
-- same plan or the same refusal.
pub plan_mutual_comm :
    (f : Floats) (lapse_total xlm_total : ℤ) (mine theirs : f.Score) (stranger_cap : ℤ)
    (their_stake my_stake : Option ℤ)
    → plan_mutual f lapse_total xlm_total mine theirs stranger_cap their_stake my_stake
      ≡ plan_mutual f lapse_total xlm_total theirs mine stranger_cap my_stake their_stake
unfolding plan_mutual mutual_exposure_cap_stroops
plan_mutual_comm f lapse_total xlm_total mine theirs stranger_cap their_stake my_stake =
    ap (plan_for_cap f lapse_total xlm_total) (
      min_ℤ_comm (exposure_cap_stroops f mine stranger_cap their_stake)
        (exposure_cap_stroops f theirs stranger_cap my_stake))

min_ℤ-le_left : (a b : ℤ) → min_ℤ a b ≤ℤ a
min_ℤ-le_left a b = ground arith

-- With a stake above the least step, holding a cap to the stake and then to the least step leaves
-- it within the stake.
held-le-stake :
    (stake bound : ℤ)
    → min_step_stroops ≤ℤ stake
    → max_ℤ (held_to (some stake) bound) min_step_stroops ≤ℤ stake
held-le-stake stake bound h = ground arith

≤ℤ-trans : (a b c : ℤ) → a ≤ℤ b → b ≤ℤ c → a ≤ℤ c
≤ℤ-trans a b c h k = omega (arith, h, k)

-- The cap of a trade is at most the peer's stake, when the stake is known and at least the minimal
-- step.
pub mutual_cap-le-stake :
    (f : Floats) (mine theirs : f.Score) (stranger_cap stake : ℤ) (my_stake : Option ℤ)
    → min_step_stroops ≤ℤ stake
    → mutual_exposure_cap_stroops f mine theirs stranger_cap (some stake) my_stake ≤ℤ stake
unfolding mutual_exposure_cap_stroops exposure_cap_stroops
mutual_cap-le-stake f mine theirs stranger_cap stake my_stake h =
    let bound = if f.is_positive mine then f.scaled stranger_cap mine else stranger_cap in
    ≤ℤ-trans (mutual_exposure_cap_stroops f mine theirs stranger_cap (some stake) my_stake)
      (exposure_cap_stroops f mine stranger_cap (some stake)) stake
      (min_ℤ-le_left (exposure_cap_stroops f mine stranger_cap (some stake))
        (exposure_cap_stroops f theirs stranger_cap my_stake))
      (held-le-stake stake bound h)
