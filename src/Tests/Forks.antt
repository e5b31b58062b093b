-- ===== src/Tests/Forks.antt =====
-- Runs of the fork search, of the iteration count and of a block that claims height 0.
use mathlib.Core.Option.{some-injective}
use lapsecoin.Prelude.{
  ℕ, zero, suc, ◌+◌, ◌*◌, ◌≤◌, ◌≡◌, refl, sym, ap, ◌∙◌, true, some, List, [], ◌∷◌, arith, length,
}
use lapsecoin.Prelude.Int.{ℤ, pos, ◌+ℤ◌}
use lapsecoin.Prelude.Result.{ok}
use lapsecoin.Params.{genesis_timestamp, second, vdf_iterations}
use lapsecoin.Block
use lapsecoin.Block.{Block, create_genesis}
use lapsecoin.Block.Retarget
use lapsecoin.Block.Retarget.{get_vdf_iterations, median_below}
use lapsecoin.Block.Retarget.Median.{count_below}
use lapsecoin.Block.Retarget.Ratchet.{iterations_at, prior_boundary, get_vdf_iterations_bounds}
use lapsecoin.Chain
use lapsecoin.Chain.{ChainState, from_genesis, validate_and_apply}
use lapsecoin.Chain.Fork.{fork_point, is_better_than}
use lapsecoin.Chain.Fork.Search.{first_difference}
use lapsecoin.Chain.Fork.Linked.{IsLinked, Commits, fork_point-eq-first_difference}
use lapsecoin.Chain.Forged.{forged, with_forged, validate_and_apply-forged}
use lapsecoin.Tests.Data.{world, no_cache, now, block_1, rival}

abbrev left : List Block
left = create_genesis world ∷ block_1 ∷ []

abbrev right : List Block
right = create_genesis world ∷ rival ∷ []

left-IsLinked : IsLinked left
unfolding Block.create_genesis Block.create Block.block_hash
left-IsLinked zero b e =
    (create_genesis world, refl, ap (λ (x : Block). some x.previous_hash) (some-injective _ _ e))
left-IsLinked (suc i) b e = cc

right-IsLinked : IsLinked right
unfolding Block.create_genesis Block.create Block.block_hash
right-IsLinked zero b e =
    (create_genesis world, refl, ap (λ (x : Block). some x.previous_hash) (some-injective _ _ e))
right-IsLinked (suc i) b e = cc

commits : Commits left right
unfolding Block.create Block.block_hash
commits zero x y e f h = ap (λ (x : Block). x.previous_hash) (some-injective _ _ (sym e ∙ f))
commits (suc zero) x y e f h =
    absurd (cc (rw (← some-injective _ _ e, ← some-injective _ _ f) at h))
commits (suc (suc i)) x y e f h = cc

fork_point-eq-first_difference_example : fork_point left right ≡ some (first_difference left right)
fork_point-eq-first_difference_example =
    fork_point-eq-first_difference left right left-IsLinked right-IsLinked commits

abbrev intervals : List ℤ
intervals = pos 4 ∷ pos 1 ∷ pos 9 ∷ pos 5 ∷ []

median_runs : (median_below intervals (pos 5) ≡ true) × (count_below intervals (pos 6) ≡ 3)
unfolding Retarget.median_below Retarget.sorted Retarget.insert_sorted ◌+ℤ◌
median_runs = (refl, refl)

abbrev times : ℤ × ℤ
times = (pos (genesis_timestamp + 200 * second), pos genesis_timestamp)

validate_and_apply-forged_example :
    (validate_and_apply world no_cache now (from_genesis world) (forged world times.0 1000) tt
      ≡ (ok (with_forged world (from_genesis world) times.0 1000), tt))
    × (is_better_than world
          (with_forged world (from_genesis world) times.0 1000)
          (from_genesis world)
        ≡ ok true)
unfolding Block.create_genesis Block.create Block.block_size Block.block_hash Chain.from_genesis
    ◌+ℤ◌
validate_and_apply-forged_example =
    validate_and_apply-forged world no_cache tt (from_genesis world) (create_genesis world) now
      times.0 times.1 1000 refl refl refl refl (omega arith) (omega arith)

-- A chain of one block over and over, one block past the first boundary.
repeat {ℓ} : {A : Type ℓ} → ℕ → A → List A
repeat zero a = []
repeat (suc n) a = a ∷ repeat n a

abbrev long : List Block
unfolding repeat
long = repeat 10081 block_1

long_runs : (length long ≡ 10081) × (get_vdf_iterations long ≡ ok vdf_iterations)
unfolding repeat Block.create Retarget.get_vdf_iterations Retarget.between_boundaries
    Retarget.block_at
long_runs = (refl, refl)

get_vdf_iterations_bounds_example :
    (iterations_at long (prior_boundary (length long)) ≤ vdf_iterations)
    × (50 * vdf_iterations ≤ 51 * iterations_at long (prior_boundary (length long)))
get_vdf_iterations_bounds_example =
    get_vdf_iterations_bounds long vdf_iterations (omega (arith, long_runs.0)) long_runs.1
