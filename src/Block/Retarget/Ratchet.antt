-- ===== src/Block/Retarget/Ratchet.antt =====
-- The iteration count of src/block.py only ever rises, and by 2 % at most at a time.
use lapsecoin.Prelude.{
  ℕ, ◌-◌, ◌*◌, ◌/◌, ◌≤◌, ◌<◌, ◌≡◌, ap, sym, ◌∙◌, false, Option, none, some, List, arith, ltb,
  if◌then◌else◌, length, get_elem?, Bool-cases, inl, inr,
}
use lapsecoin.Prelude.Int.{ℤ, pos}
use lapsecoin.Prelude.Result.{ok, >>=-eq-ok, ok-injective}
use lapsecoin.Params.{vdf_iterations, vdf_adjust_interval, vdf_adjust_min_seconds}
use lapsecoin.Block.{Block}
use lapsecoin.Block.Retarget.{
  block_at, or_index_error, iterations_or, deltas, median_below, adjust, window_from, at_boundary,
  between_boundaries, get_vdf_iterations,
}

-- A retarget never lowers the count, raises it by 2 % at most, and leaves it alone unless the
-- window is not empty and its median is below the limit.
pub adjust_bounds :
    (prior : ℕ) (ds : List ℤ)
    → (prior ≤ adjust prior ds)
      × (50 * adjust prior ds ≤ 51 * prior)
      × (median_below ds (pos vdf_adjust_min_seconds) ≡ false → adjust prior ds ≡ prior)
unfolding adjust
adjust_bounds prior ds = (ground arith, ground arith, λ h. ground arith)

-- The count of the block at a height.
abbrev claimed_or : Option Block → ℕ
claimed_or none = 0
claimed_or (some b) = iterations_or vdf_iterations b.claimed_iterations

abbrev pub iterations_at : List Block → ℕ → ℕ
iterations_at chain h = claimed_or (get_elem? chain h)

block_at-claimed :
    (chain : List Block) (h : ℕ) {b : Block}
    → block_at chain h ≡ ok b
    → iterations_at chain h ≡ iterations_or vdf_iterations b.claimed_iterations
unfolding block_at
block_at-claimed chain h e = found (get_elem? chain h) e
  where
    found :
        (o : Option Block) {c : Block}
        → or_index_error o ≡ ok c
        → claimed_or o ≡ iterations_or vdf_iterations c.claimed_iterations
    found none e' = cc
    found (some b) e' = cc

-- The three cases of `get_vdf_iterations`, read backwards.
get_vdf_iterations-early :
    (chain : List Block) {k : ℕ}
    → length chain < vdf_adjust_interval
    → get_vdf_iterations chain ≡ ok k
    → k ≡ vdf_iterations
unfolding get_vdf_iterations
get_vdf_iterations-early chain h e = ground arith

between_boundaries-ok :
    (chain : List Block) (b : ℕ) {k : ℕ}
    → between_boundaries chain b ≡ ok k
    → k ≡ iterations_at chain b
unfolding between_boundaries
between_boundaries-ok chain b e =
    let (blk, e0, r0) = >>=-eq-ok (block_at chain b) _ e in
    sym (ok-injective r0) ∙ sym (block_at-claimed chain b e0)

at_boundary-ok :
    (chain : List Block) (b : ℕ) {k : ℕ}
    → at_boundary chain b ≡ ok k
    → (ds : List ℤ) × (k ≡ adjust (iterations_at chain (b - vdf_adjust_interval)) ds)
unfolding at_boundary
at_boundary-ok chain b e =
    let start = b - vdf_adjust_interval in
    let (blk, e0, r0) = >>=-eq-ok (block_at chain start) _ e in
    let (ds, e1, r1) = >>=-eq-ok (deltas (b - window_from start) chain (window_from start)) _ r0 in
    (ds, sym (ok-injective r1) ∙ ap (λ n. adjust n ds) (sym (block_at-claimed chain start e0)))

get_vdf_iterations-between :
    (chain : List Block) {k : ℕ}
    → vdf_adjust_interval ≤ length chain
    → length chain / vdf_adjust_interval * vdf_adjust_interval < length chain
    → get_vdf_iterations chain ≡ ok k
    → k ≡ iterations_at chain (length chain / vdf_adjust_interval * vdf_adjust_interval)
unfolding get_vdf_iterations
get_vdf_iterations-between chain h l e =
    between_boundaries-ok chain (length chain / vdf_adjust_interval * vdf_adjust_interval)
      (ground arith)

get_vdf_iterations-boundary :
    (chain : List Block) {k : ℕ}
    → vdf_adjust_interval ≤ length chain
    → length chain / vdf_adjust_interval * vdf_adjust_interval ≡ length chain
    → get_vdf_iterations chain ≡ ok k
    → (ds : List ℤ) × (k ≡ adjust (iterations_at chain (length chain - vdf_adjust_interval)) ds)
unfolding get_vdf_iterations
get_vdf_iterations-boundary chain h l e =
    let (ds, q) =
      at_boundary-ok chain (length chain / vdf_adjust_interval * vdf_adjust_interval)
        (ground arith) in
    (ds, q ∙ ap (λ n. adjust (iterations_at chain (n - vdf_adjust_interval)) ds) l)

-- The first block of the interval that the next block is measured against: the one at the last
-- boundary, or the one before it when the next block stands on a boundary itself.
abbrev pub prior_boundary : ℕ → ℕ
prior_boundary n =
    if ltb (n / vdf_adjust_interval * vdf_adjust_interval) n
    then n / vdf_adjust_interval * vdf_adjust_interval
    else n - vdf_adjust_interval

unchanged : (n : ℕ) → (n ≤ n) × (50 * n ≤ 51 * n)
unchanged n = (omega arith, omega arith)

-- On a chain of at least one retarget interval, the iteration count asked of the next block is at
-- least the count of the first block of the interval it is measured against, and at most 2 % more.
pub get_vdf_iterations_bounds :
    (chain : List Block) (k : ℕ)
    → vdf_adjust_interval ≤ length chain
    → get_vdf_iterations chain ≡ ok k
    → (iterations_at chain (prior_boundary (length chain)) ≤ k)
      × (50 * k ≤ 51 * iterations_at chain (prior_boundary (length chain)))
get_vdf_iterations_bounds chain k h e =
    elim (Bool-cases
      (ltb (length chain / vdf_adjust_interval * vdf_adjust_interval) (length chain))) [
        | inl y ↦
            let q = get_vdf_iterations-between chain h (ground arith) e in rw y (rw q (unchanged _))
        | inr n ↦
            let (ds, q) = get_vdf_iterations-boundary chain h (ground arith) e in
            let (lo, hi, _) =
              adjust_bounds (iterations_at chain (length chain - vdf_adjust_interval)) ds in
            rw n (rw q (lo, hi))
      ]
