-- ===== src/Swap.antt =====
-- src/swap.py: how a trade is cut into steps, who moves first, and prices. What the code does with
-- floats is in a record: the scores of trust, and the three roundings of a quotient by an integer
-- and a quarter. A refusal `TradeTooLarge` is `refused`, without its numbers.
pub mod Schedule
pub mod Plan
pub mod Opening
pub mod Price
pub mod Tag
use lapsecoin.Prelude.{
  ℕ, zero, suc, ◌+◌, ◌-◌, ◌*◌, ◌/◌, ◌%◌, String, Bool, true, false, not, ◌||◌, Option, none, some,
  List, [], ◌∷◌, map, ltb, leb, ◌==◌, if◌then◌else◌, replicate, zip, total,
}
use lapsecoin.Prelude.Int.{ℤ, pos, pos_part, leb_ℤ, ltb_ℤ}
use lapsecoin.Prelude.Result.{
  Result, Check, ok, refused, raised, ◌>>=◌, ◌>>◌, value_error, overflow_error, assertion_error,
  trade_too_large,
}
use lapsecoin.Params.{ticks_per_lapse}
use lapsecoin.Chain.Fork.{text_lt}

abbrev pub max_increments : ℕ
max_increments = 20

abbrev pub min_increments : ℕ
min_increments = 2

abbrev pub min_step_stroops : ℤ
min_step_stroops = pos 1000

abbrev pub min_step_ticks : ℕ
min_step_ticks = 1

-- `body total n` is `int(total / (n + PROBE_FRACTION))`, `quarter b` is `int(b * PROBE_FRACTION)`,
-- `needed total cap` is `math.ceil(total / cap + 1 - PROBE_FRACTION)`, `none` where a float
-- overflows; `scaled cap s` is `int(cap * min(1.0 + math.sqrt(s), MAX_TRUST_MULTIPLIER))`.
pub record Floats : Type 1 where
  pub Score : Type 0
  pub is_positive : Score → Bool
  pub same : Score → Score → Bool
  pub above : Score → Score → Bool
  pub scaled : ℤ → Score → ℤ
  pub body : ℕ → ℕ → Option ℕ
  pub quarter : ℕ → ℕ
  pub needed : ℕ → ℤ → Option ℕ

-- Python's `min` and `max` of two: the first, unless the second is smaller or larger.
abbrev pub min_ℤ : ℤ → ℤ → ℤ
min_ℤ a b = if ltb_ℤ b a then b else a

abbrev pub max_ℤ : ℤ → ℤ → ℤ
max_ℤ a b = if ltb_ℤ a b then b else a

abbrev pub larger : ℕ → ℕ → ℕ
larger a b = if ltb a b then b else a

-- A known stake caps the cap.
abbrev pub held_to : Option ℤ → ℤ → ℤ
held_to none bound = bound
held_to (some stake) bound = min_ℤ bound (max_ℤ stake (pos 0))

-- `if test: raise ...`
abbrev pub unless_value_error : Bool → Check
unless_value_error true = raised value_error
unless_value_error false = ok tt

abbrev pub assert_that : Bool → Check
assert_that true = ok tt
assert_that false = raised assertion_error

abbrev pub or_overflow {ℓ} : {A : Type ℓ} → Option A → Result A
or_overflow none = raised overflow_error
or_overflow (some a) = ok a

-- `for i in range(1, 1 + n): amounts[i] += 1`, on the steps after the first.
unfoldable pub bump : ℕ → List ℕ → List ℕ
bump zero l = l
bump (suc n) [] = []
bump (suc n) (x ∷ l) = suc x ∷ bump n l

-- What is short is spread over the steps after the probe.
unfoldable pub spread : ℕ → ℕ → ℕ → List ℕ → List ℕ
unfolding bump
spread short n probe bodies = probe ∷ bump (short % n) (map (λ a. a + short / n) bodies)

unfoldable pub amounts : ℕ → ℕ → ℕ → ℕ → List ℕ
unfolding spread
amounts wanted n probe body =
    let bodies = replicate n body in
    let sum = total (probe ∷ bodies) in
    if ltb sum wanted then spread (wanted - sum) n probe bodies else probe ∷ bodies

abbrev pub any_below : ℕ → List ℕ → Bool
any_below m [] = false
any_below m (p ∷ l) = ltb p m || any_below m l

-- `max(xlm for _lapse, xlm in schedule)`
abbrev pub largest_xlm : List (ℕ × ℕ) → ℕ
largest_xlm [] = 0
largest_xlm ((lapse, xlm) ∷ l) = larger xlm (largest_xlm l)

module _ (f : Floats) where
  open f use {Score}

  unfoldable pub exposure_cap_stroops : Score → ℤ → Option ℤ → ℤ
  exposure_cap_stroops trust_score stranger_cap stake =
      let cap =
        if f.is_positive trust_score then f.scaled stranger_cap trust_score else stranger_cap in
      max_ℤ (held_to stake cap) min_step_stroops

  unfoldable pub increment_count : ℤ → ℤ → Result ℕ
  increment_count xlm_total cap = do
    unless_value_error (leb_ℤ xlm_total (pos 0))
    needed ← or_overflow (f.needed (pos_part xlm_total) cap)
    let count = larger needed min_increments
    if ltb max_increments count then refused trade_too_large else ok count

  unfoldable pub split : ℕ → ℕ → Result (List ℕ)
  split count wanted = if count == 1 then ok (wanted ∷ []) else (do
    body ← or_overflow (f.body wanted (count - 1))
    ok (amounts wanted (count - 1) (larger (f.quarter body) 1) body))

  unfoldable pub build_schedule : ℤ → ℤ → ℕ → Result (List (ℕ × ℕ))
  build_schedule lapse_total xlm_total count = do
    unless_value_error (ltb count 1)
    unless_value_error (ltb_ℤ lapse_total (pos count) || ltb_ℤ xlm_total (pos count))
    lapse_parts ← split count (pos_part lapse_total)
    xlm_parts ← split count (pos_part xlm_total)
    assert_that (total lapse_parts == pos_part lapse_total)
    assert_that (total xlm_parts == pos_part xlm_total)
    unless_value_error (any_below min_step_ticks lapse_parts)
    unless_value_error (any_below 1 xlm_parts)
    ok (zip lapse_parts xlm_parts)

  pub record Planned : Type 0 where
    pub schedule : List (ℕ × ℕ)
    pub count : ℕ
    pub cap : ℤ

  abbrev pub unless_within : List (ℕ × ℕ) → ℕ → ℤ → Result Planned → Result Planned
  unless_within schedule count bound rest =
      if leb_ℤ (pos (largest_xlm schedule)) bound
      then ok (record { schedule = schedule; count = count; cap = bound })
      else rest

  -- `while count <= MAX_INCREMENTS`: so many counts are left.
  unfoldable pub plan_from : ℤ → ℤ → ℤ → ℕ → ℕ → Result Planned
  plan_from lapse_total xlm_total cap zero count = refused trade_too_large
  plan_from lapse_total xlm_total cap (suc left) count = do
    schedule ← build_schedule lapse_total xlm_total count
    unless_within schedule count cap (plan_from lapse_total xlm_total cap left (count + 1))

  unfoldable pub plan_for_cap : ℤ → ℤ → ℤ → Result Planned
  plan_for_cap lapse_total xlm_total cap = do
    count ← increment_count xlm_total cap
    plan_from lapse_total xlm_total cap (max_increments + 1 - count) count

  unfoldable pub plan : ℤ → ℤ → Score → ℤ → Option ℤ → Result Planned
  plan lapse_total xlm_total trust_score stranger_cap stake =
      plan_for_cap lapse_total xlm_total (exposure_cap_stroops trust_score stranger_cap stake)

  unfoldable pub mutual_exposure_cap_stroops : Score → Score → ℤ → Option ℤ → Option ℤ → ℤ
  mutual_exposure_cap_stroops my_trust peer_trust stranger_cap peer_stake my_stake =
      min_ℤ (exposure_cap_stroops my_trust stranger_cap peer_stake)
        (exposure_cap_stroops peer_trust stranger_cap my_stake)

  unfoldable pub plan_mutual : ℤ → ℤ → Score → Score → ℤ → Option ℤ → Option ℤ → Result Planned
  plan_mutual lapse_total xlm_total my_trust peer_trust stranger_cap peer_stake my_stake =
      plan_for_cap lapse_total xlm_total
        (mutual_exposure_cap_stroops my_trust peer_trust stranger_cap peer_stake my_stake)

  unfoldable pub opening_mover : Score → Score → String → String → Bool
  opening_mover my_trust peer_trust my_addr peer_addr =
      if f.same my_trust peer_trust then text_lt my_addr peer_addr else f.above my_trust peer_trust

unfoldable pub i_move_first : ℕ → Bool → Result Bool
i_move_first step_n i_open = do
  unless_value_error (ltb step_n 1)
  ok (if step_n % 2 == 1 then i_open else not i_open)

-- `-(-lapse_ticks * price // TICKS_PER_LAPSE)`: the quotient, rounded up.
unfoldable pub xlm_for_lapse : ℕ → ℤ → Result ℕ
xlm_for_lapse lapse_ticks price = do
  unless_value_error (leb_ℤ price (pos 0))
  ok ((lapse_ticks * pos_part price + (ticks_per_lapse - 1)) / ticks_per_lapse)

unfoldable pub lapse_for_xlm : ℕ → ℤ → Result ℕ
lapse_for_xlm stroops price = do
  unless_value_error (leb_ℤ price (pos 0))
  ok (stroops * ticks_per_lapse / pos_part price)
