-- ===== src/Engine/Drive.antt =====
-- `advance` and `reconcile` of src/swap_engine.py.
use lapsecoin.Prelude.{
  ℕ, String, Bool, true, false, not, ◌&&◌, Option, none, some, List, [], ◌∷◌, ltb, ◌==◌, str_eq,
  if◌then◌else◌,
}
use lapsecoin.Prelude.Result.{Result, ok, refused, raised, unreachable}
use lapsecoin.Engine.{
  is_settled, Status, active, stalled, completed, Trade, Increment, World, Action, done, ◌>>=◌,
  ◌>>◌, ask, the_inc, the_trade, now, set_trade, save_with, save_next,
}
use lapsecoin.Engine.Send.{out_asset, out_terms, required_depth, record_outbound, ensure_sent}
use lapsecoin.Engine.Watch.{check_outbound, check_inbound, deadline_height}

unfoldable pub is_completed : Status → Bool
is_completed completed = true
is_completed _ = false

-- A settled step ends the stall, and a step past its deadline starts one; no other status moves.
unfoldable pub after_done : ℕ → Trade → Trade
after_done time t = after t.status
  where
    after : Status → Trade
    after stalled = record t { status = active; stalled_since = 0; updated_at = time }
    after _ = record t { updated_at = time }

unfoldable pub after_overdue : ℕ → Trade → Trade
after_overdue time t = after t.status
  where
    after : Status → Trade
    after active = record t { status = stalled; stalled_since = time; updated_at = time }
    after _ = record t { updated_at = time }

abbrev pub as_completed : ℕ → Trade → Trade
as_completed time t = record t { status = completed; updated_at = time; stalled_since = 0 }

module _ {E : Type 0} where
  unfoldable pub both_settled : Increment E → Bool
  both_settled i = is_settled i.out_state && is_settled i.in_state

  abbrev pub completed_at : ℕ → Increment E → Increment E
  completed_at h i = record i { completed_height = h }

  abbrev pub due_at : ℕ → Increment E → Increment E
  due_at h i = record i { deadline_height = h }

  -- `steps` are the rows in the order of their numbers.
  unfoldable pub first_open : List (Increment E) → Option (Increment E)
  first_open [] = none
  first_open (i ∷ steps) = let rest = first_open steps in if both_settled i then rest else some i

module _ {w : World} where
  unfoldable pub propagate_deadline : ℕ → Action w (Unit {0})
  propagate_deadline height = do
    trade ← the_trade
    save_next (λ next. next.deadline_height == 0)
        (due_at (deadline_height height trade.confirm_depth))

  unfoldable pub complete_step : Increment w.Envelope → Action w (Unit {0})
  complete_step i = if i.completed_height == 0 then settle else done
    where
      settle : Action w (Unit {0})
      settle = do height ← ask w.height; save_with (completed_at height); propagate_deadline height

  unfoldable pub time_step : Increment w.Envelope → ℕ → Action w (Unit {0})
  time_step i time =
      if both_settled i
      then complete_step i >> set_trade (after_done time)
      else if not (i.deadline_at == 0) && ltb i.deadline_at time
      then set_trade (after_overdue time)
      else done

  unfoldable pub update_timing : Action w (Unit {0})
  update_timing = do i ← the_inc; time ← now; time_step i time

  unfoldable pub send_unless_settled : Action w (Unit {0})
  send_unless_settled =
      the_inc >>= λ i. if is_settled i.out_state then done else (ensure_sent >> check_outbound)

  unfoldable pub inbound_if_paid : Action w (Unit {0})
  inbound_if_paid = the_inc >>= λ i. if is_settled i.out_state then check_inbound else done

  unfoldable pub move_first : Action w (Unit {0})
  move_first = do check_outbound; send_unless_settled; inbound_if_paid

  unfoldable pub pay_if_received : Action w (Unit {0})
  pay_if_received = the_inc >>= λ i.
      if is_settled i.in_state then (check_outbound >> send_unless_settled) else done

  unfoldable pub move_second : Action w (Unit {0})
  move_second = check_inbound >> pay_if_received

  unfoldable pub move : Action w (Unit {0})
  move = the_inc >>= λ i. if i.i_move_first then move_first else move_second

  unfoldable pub advance_step : Action w (Unit {0})
  advance_step = move >> update_timing

  unfoldable pub complete : Action w (Unit {0})
  complete = do
    trade ← the_trade
    time ← now
    if is_completed trade.status then done else set_trade (as_completed time)

  unfoldable pub advance_open : Option (Increment w.Envelope) → Action w (Unit {0})
  advance_open none d = complete d
  advance_open (some i) d = advance_step (record d { inc = i })

  -- One pass over a trade. The step that it returns is left out.
  unfoldable pub advance : Action w (Unit {0})
  advance d = advance_open (first_open d.rows) d

  unfoldable pub record_found : Trade → Option (String × ℕ) → Action w (Unit {0})
  record_found trade none = done
  record_found trade (some (hash, depth)) =
      record_outbound hash depth (required_depth w.min_confirm_depth trade (out_asset trade))

  unfoldable pub recover_outbound : Action w (Unit {0})
  recover_outbound = do
    i ← the_inc
    trade ← the_trade
    t ← out_terms trade trade.i_send i
    found ← ask (w.find_payment (out_asset trade) t)
    record_found trade found

  unfoldable pub reconcile_step : Action w (Unit {0})
  reconcile_step = do
    check_outbound
    i ← the_inc
    if str_eq i.out_tx_hash "" then recover_outbound else done
    check_inbound

  -- `except Unreachable: continue`
  unfoldable pub unless_unreachable : Action w (Unit {0}) → Action w (Unit {0})
  unless_unreachable m d = let (r, d') = m d in (caught r, d')
    where
      caught : Result (Unit {0}) → Result (Unit {0})
      caught (raised unreachable) = ok tt
      caught (raised x) = raised x
      caught (refused e) = refused e
      caught (ok u) = ok u

  -- The steps are the rows as they were when the pass began.
  unfoldable pub reconcile_steps : List (Increment w.Envelope) → Action w (Unit {0})
  reconcile_steps [] = done
  reconcile_steps (i ∷ steps) =
      unless_unreachable (λ d. reconcile_step (record d { inc = i })) >> reconcile_steps steps

  -- The number of the rows that it corrected, which it returns for a message, is left out.
  unfoldable pub reconcile : Action w (Unit {0})
  reconcile d = reconcile_steps d.rows d
