-- ===== src/Engine/Blame.antt =====
-- Whose fault a stuck trade is: `is_delinquent` and `trade_expired_by` of src/swap_engine.py. Both
-- are functions of public heights.
use native.Mathlib.Nat.{mul-le-mul_right}
use mathlib.Core.Option.{some-injective}
use lapsecoin.Prelude.{
  ℕ, ◌+◌, ◌*◌, ◌≤◌, ◌<◌, ◌≡◌, ◌≢◌, ◌↔◌, refl, Bool, true, false, not, some, List, [], ◌∷◌, length,
  arith, leb, ◌==◌, if◌then◌else◌, Bool-cases, leb→le, inl, inr,
}
use lapsecoin.Engine.{is_settled, Status, stalled, Trade, Increment}
use lapsecoin.Engine.Watch.{step_timeout_blocks, deadline_height}
use lapsecoin.Engine.Drive.{both_settled, first_open}

abbrev pub abandon_after_blocks : ℕ
abandon_after_blocks = 30

-- The fields of a `FillResponse` that are read here.
pub record Accepted : Type 0 where
  pub accepted_height : ℕ
  pub increment_count : ℕ
  pub confirm_depth : ℕ

unfoldable pub trade_expired_by : Accepted → ℕ → Bool
trade_expired_by resp current_height =
    let worst_case_done =
      resp.accepted_height + resp.increment_count * step_timeout_blocks resp.confirm_depth in
    leb (worst_case_done + abandon_after_blocks) current_height

unfoldable pub is_stalled : Status → Bool
is_stalled stalled = true
is_stalled _ = false

module _ {E : Type 0} where
  unfoldable pub is_overdue : Increment E → ℕ → Bool
  is_overdue i current_height =
      if not (is_settled i.out_state)
      then false
      else if i.deadline_height == 0
      then false
      else leb (i.deadline_height + abandon_after_blocks) current_height

  unfoldable pub is_owed : List (Increment E) → ℕ → Bool
  is_owed [] current_height = false
  is_owed (i ∷ steps) current_height =
      let rest = is_owed steps current_height in
      if both_settled i then rest else is_overdue i current_height

  unfoldable pub is_delinquent : Trade → List (Increment E) → ℕ → Bool
  is_delinquent t steps current_height =
      if is_stalled t.status then is_owed steps current_height else false

  -- This node has paid the step, the peer has not, and the deadline is past by the grace.
  pub record IsOwed (i : Increment E) (current_height : ℕ) : Type 0 where
    pub paid : is_settled i.out_state ≡ true
    pub unpaid : is_settled i.in_state ≡ false
    pub dated : i.deadline_height ≢ 0
    pub late : i.deadline_height + abandon_after_blocks ≤ current_height

  is_overdue_iff :
      (i : Increment E) (h : ℕ) → both_settled i ≡ false → (is_overdue i h ≡ true) ↔ IsOwed i h
  unfolding is_overdue both_settled
  is_overdue_iff i h e = (
    λ y. record {
      paid = ground (arith, y);
      unpaid = ground (arith, y, e);
      dated = λ z. ground (arith, y, z);
      late = ground (arith, y);
    },
    λ o. ground (arith, o.paid, o.unpaid, o.dated, o.late),
  )

  is_owed_iff :
      (steps : List (Increment E)) (h : ℕ)
      → (is_owed steps h ≡ true) ↔ (i : Increment E) × (first_open steps ≡ some i) × IsOwed i h
  unfolding is_owed first_open
  is_owed_iff [] h = (λ y. cc, λ (i, e, o). cc)
  is_owed_iff (i ∷ steps) h = elim (Bool-cases (both_settled i)) [
    | inl y ↦ rw y (is_owed_iff steps h)
    | inr k ↦ rw k (
      λ y. (i, refl, (is_overdue_iff i h k).0 y),
      λ (j, e, o). (is_overdue_iff i h k).1 (rw (some-injective _ _ e) o),
    )
  ]

  -- A trade is delinquent exactly if it is stalled and its first step that is not settled on both
  -- sides is paid by this node and not by the peer, has a deadline, and the height is past that
  -- deadline by at least the grace.
  pub is_delinquent_iff :
      (t : Trade) (steps : List (Increment E)) (h : ℕ)
      → (is_delinquent t steps h ≡ true)
        ↔ (is_stalled t.status ≡ true)
          × (i : Increment E) × (first_open steps ≡ some i)
          × IsOwed i h
  unfolding is_delinquent
  is_delinquent_iff t steps h = elim (Bool-cases (is_stalled t.status)) [
    | inl y ↦ rw y (
      λ e. let (i, o, owed) = (is_owed_iff steps h).0 e in (refl, i, o, owed),
      λ (_, i, o, owed). (is_owed_iff steps h).1 (i, o, owed),
    )
    | inr k ↦ rw k (λ e. cc, λ (e, i, o, owed). cc)
  ]

-- The steps that are done were done in time, from the height that the first one's clock started at.
unfoldable pub IsOnTime : ℕ → ℕ → List ℕ → Type 0
IsOnTime base depth [] = Unit
IsOnTime base depth (h ∷ heights) = (h ≤ deadline_height base depth) × IsOnTime h depth heights

-- The height that the clock of the step after them starts at.
unfoldable pub started_at : ℕ → List ℕ → ℕ
started_at base [] = base
started_at base (h ∷ heights) = started_at h heights

started_at_le :
    (base depth : ℕ) (heights : List ℕ)
    → IsOnTime base depth heights
    → started_at base heights ≤ base + length heights * step_timeout_blocks depth
unfolding IsOnTime started_at deadline_height
started_at_le base depth [] t = omega arith
started_at_le base depth (h ∷ heights) t = omega (arith, t.0, started_at_le h depth heights t.1)

-- When the steps done so far, fewer than the trade has, were each done by their deadlines, an
-- expired trade is past the deadline of the step that comes next by at least the grace.
pub trade_expired_by-past :
    (resp : Accepted) (heights : List ℕ) (current_height : ℕ)
    → IsOnTime resp.accepted_height resp.confirm_depth heights
    → length heights < resp.increment_count
    → trade_expired_by resp current_height ≡ true
    → deadline_height (started_at resp.accepted_height heights) resp.confirm_depth
        + abandon_after_blocks
      ≤ current_height
unfolding trade_expired_by deadline_height
trade_expired_by-past resp heights h t l e =
    let passed = leb→le _ _ e in
    let steps = mul-le-mul_right (step_timeout_blocks resp.confirm_depth) l in
    omega (arith, passed, steps, started_at_le resp.accepted_height resp.confirm_depth heights t)
