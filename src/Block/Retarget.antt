-- ===== src/Block/Retarget.antt =====
-- `get_vdf_iterations` of src/block.py: how much sequential work the next block needs.
pub mod Median
pub mod Ratchet
use lapsecoin.Prelude.{
  ℕ, zero, suc, ◌+◌, ◌-◌, ◌*◌, ◌/◌, ◌%◌, ◌≤◌, ◌<◌, ◌≡◌, refl, Bool, true, false, ◌&&◌, Option, none,
  some, List, [], ◌∷◌, arith, ltb, leb, ◌==◌, if◌then◌else◌, length, get_elem?,
}
use lapsecoin.Prelude.Int.{ℤ, pos, ◌+ℤ◌, ◌-ℤ◌, leb_ℤ, ltb_ℤ}
use lapsecoin.Prelude.Result.{Result, ok, raised, index_error, ◌>>=◌, >>=-eq-ok}
use lapsecoin.Params.{
  vdf_iterations, vdf_adjust_interval, vdf_adjust_min_seconds, vdf_adjust_numerator,
  vdf_adjust_denominator,
}
use lapsecoin.Block.{Block, or_missing}

-- `chain[h]`
abbrev pub or_index_error : Option Block → Result Block
or_index_error none = raised index_error
or_index_error (some b) = ok b

unfoldable pub block_at : List Block → ℕ → Result Block
block_at chain h = or_index_error (get_elem? chain h)

-- `chain[h]["timestamp"]`
unfoldable pub time_at : List Block → ℕ → Result ℤ
time_at chain h = do b ← block_at chain h; or_missing b.timestamp

-- `blk.get("vdf_iterations", VDF_ITERATIONS)`
abbrev pub iterations_or : ℕ → Option ℕ → ℕ
iterations_or d none = d
iterations_or d (some n) = n

-- `[chain[h]["timestamp"] - chain[h - 1]["timestamp"] for h in range(h, h + n)]`, for 0 < h
unfoldable pub deltas : ℕ → List Block → ℕ → Result (List ℤ)
unfolding time_at
deltas zero chain h = ok []
deltas (suc n) chain h = do
  now ← time_at chain h
  before ← time_at chain (h - 1)
  rest ← deltas n chain (h + 1)
  ok ((now -ℤ before) ∷ rest)

-- `statistics.median` sorts, and takes the middle value or the mean of the middle two.
unfoldable pub insert_sorted : ℤ → List ℤ → List ℤ
insert_sorted x [] = x ∷ []
insert_sorted x (y ∷ ys) = if leb_ℤ x y then x ∷ y ∷ ys else y ∷ insert_sorted x ys

unfoldable pub sorted : List ℤ → List ℤ
unfolding insert_sorted
sorted [] = []
sorted (x ∷ xs) = insert_sorted x (sorted xs)

-- Is the middle below the limit? A mean of two is below when their sum is below twice the limit.
middle_below : Bool → Option ℤ → Option ℤ → ℤ → Bool
middle_below true _ (some hi) limit = ltb_ℤ hi limit
middle_below false (some lo) (some hi) limit = ltb_ℤ (lo +ℤ hi) (limit +ℤ limit)
middle_below _ _ _ limit = false

unfoldable pub median_below : List ℤ → ℤ → Bool
unfolding sorted middle_below
median_below l limit =
    let n = length l in
    let s = sorted l in
    middle_below (n % 2 == 1) (get_elem? s (n / 2 - 1)) (get_elem? s (n / 2)) limit

-- The new count from the old one and the intervals of the window.
unfoldable pub adjust : ℕ → List ℤ → ℕ
unfolding median_below
adjust prior ds =
    if ltb 0 (length ds) && median_below ds (pos vdf_adjust_min_seconds)
    then prior * vdf_adjust_numerator / vdf_adjust_denominator
    else prior

-- `max(window_start, 1)`
abbrev pub window_from : ℕ → ℕ
window_from zero = 1
window_from (suc n) = suc n

unfoldable pub at_boundary : List Block → ℕ → Result ℕ
unfolding block_at deltas adjust
at_boundary chain last_boundary = do
  let window_start = last_boundary - vdf_adjust_interval
  first ← block_at chain window_start
  ds ← deltas (last_boundary - window_from window_start) chain (window_from window_start)
  ok (adjust (iterations_or vdf_iterations first.claimed_iterations) ds)

unfoldable pub between_boundaries : List Block → ℕ → Result ℕ
unfolding block_at
between_boundaries chain last_boundary = do
  b ← block_at chain last_boundary
  ok (iterations_or vdf_iterations b.claimed_iterations)

unfoldable pub get_vdf_iterations : List Block → Result ℕ
unfolding at_boundary between_boundaries
get_vdf_iterations chain =
    let next_height = length chain in
    let last_boundary = next_height / vdf_adjust_interval * vdf_adjust_interval in
    if ltb next_height vdf_adjust_interval
    then ok vdf_iterations
    else if ltb last_boundary next_height
    then between_boundaries chain last_boundary
    else at_boundary chain last_boundary

median_runs :
    (median_below (pos 5 ∷ pos 1 ∷ pos 9 ∷ []) (pos 5) ≡ false)
    × (median_below (pos 5 ∷ pos 1 ∷ pos 9 ∷ []) (pos 6) ≡ true)
    × (median_below (pos 4 ∷ pos 1 ∷ pos 9 ∷ pos 5 ∷ []) (pos 5) ≡ true)
unfolding median_below ◌+ℤ◌
median_runs = (refl, refl, refl)
