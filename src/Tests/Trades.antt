-- ===== src/Tests/Trades.antt =====
-- Runs of src/swap_engine.py at concrete inputs: a trade of two steps, whose chains take every payment
-- and have found none so far.
use lapsecoin.Prelude.{
  ℕ, ◌+◌, ◌≤◌, ◌≡◌, refl, String, true, false, none, some, List, [], ◌∷◌, map, All, arith, ◌↔◌,
}
use lapsecoin.Prelude.Result.{ok, raised, unreachable}
use lapsecoin.Prelude.Text.{codes, utf8}
use lapsecoin.Engine.{
  lapse, Leg, pending, settled, find_row, stalled, Trade, Increment, World, Desk,
}
use lapsecoin.Engine.Watch.{
  deadline_height, step_timeout_blocks, check_outbound, check_inbound, check_sent, judge_outbound,
  unpropagate_deadline,
}
use lapsecoin.Engine.Drive.{
  advance, advance_open, advance_step, both_settled, move, move_first, inbound_if_paid,
  send_unless_settled, reconcile, first_open, update_timing, time_step,
}
use lapsecoin.Engine.Send.{
  ensure_sent, send_leg, out_terms, terms, out_asset, required_depth, send_unless_found,
  in_flight_envelope, send_stored, build_and_send, unlocked, leg_amount, send_written,
}
use lapsecoin.Engine.{save_with, submit, write_row}
use lapsecoin.Swap.Tag.{session_tag, without_dashes, digits, encoded_length}
use lapsecoin.Engine.Ahead.{IsAhead}
use lapsecoin.Engine.Silent.{reconcile-silent}
use lapsecoin.Engine.Turn.{IsNumbered, step_due, advance-IsAhead}
use lapsecoin.Engine.Unanswered.{advance-unanswered}
use lapsecoin.Engine.Blame.{
  Accepted, is_stalled, is_delinquent, IsOwed, is_delinquent_iff, trade_expired_by, IsOnTime,
  started_at, trade_expired_by-past, abandon_after_blocks,
}

abbrev taking : World
taking = record {
  Net = ℕ;
  Envelope = String;
  find_payment = λ a t net. (ok none, net);
  confirmations = λ a hash net. (ok none, net);
  build = λ a to amount memo create net. (ok ("signed", "hash", 1), net + 1);
  submit = λ a env net. (ok true, net + 1);
  sequence_consumed = λ a from seq net. (ok false, net);
  forget_sequence = λ a from net. net;
  account_exists = λ to net. (ok true, net);
  unlocked = λ net. true;
  height = λ net. (ok 100, net);
  clock = λ net. 1000;
  min_confirm_depth = 2;
}

abbrev silent : World
silent = record taking { find_payment = λ a t net. (raised unreachable, net) }

abbrev trade : Trade
trade = record {
  order_id = codes "0123abcd";
  session_id = codes "89abcdef";
  i_send = lapse;
  my_lapse_addr = "me";
  my_xlm_addr = "GME";
  peer_lapse_addr = "peer";
  peer_xlm_addr = "GPEER";
  confirm_depth = 2;
  status = stalled;
  updated_at = 0;
  stalled_since = 0;
}

abbrev step_of : ℕ → Leg → Leg → Increment String
step_of n out inn = record {
  n = n;
  lapse_amount = 100;
  xlm_amount = 10;
  i_move_first = true;
  out_state = out;
  out_envelope = none;
  out_tx_hash = "";
  out_seq = 0;
  out_submitted_at = 0;
  out_settled_at = 0;
  in_state = inn;
  in_tx_hash = "";
  in_settled_at = 0;
  deadline_at = 0;
  deadline_height = 112;
  completed_height = 0;
}

abbrev steps : List (Increment String)
steps = step_of 1 settled settled ∷ step_of 2 pending pending ∷ []

abbrev desk : Desk taking
desk = record { net = 0; trade = trade; rows = steps; inc = step_of 1 settled settled; log = [] }

abbrev quiet_desk : Desk silent
quiet_desk = record {
  net = 0;
  trade = trade;
  rows = steps;
  inc = step_of 1 settled settled;
  log = [];
}

numbered : IsNumbered steps
unfolding IsNumbered find_row
numbered = (refl, (refl, tt))

-- One envelope goes out, of the second step.
advance_runs : map (λ s. s.envelope) (advance desk).1.log ≡ "signed" ∷ []
unfolding advance advance_open first_open both_settled advance_step move move_first inbound_if_paid
    send_unless_settled update_timing time_step ensure_sent send_leg out_terms terms out_asset
    required_depth send_unless_found in_flight_envelope send_stored build_and_send unlocked
    leg_amount send_written save_with submit write_row session_tag without_dashes digits
    encoded_length utf8 check_outbound check_inbound check_sent judge_outbound unpropagate_deadline
    find_row
advance_runs = refl

advance-IsAhead_example : All (IsAhead (step_due (first_open steps))) (advance desk).1.log
advance-IsAhead_example = advance-IsAhead desk numbered refl

reconcile-silent_example : (reconcile desk).1.log ≡ []
reconcile-silent_example = reconcile-silent desk

advance-unanswered_example : (advance quiet_desk).1.log ≡ []
advance-unanswered_example = advance-unanswered quiet_desk (record { unanswered = λ a t net. refl })

is_delinquent_iff_example :
    (is_delinquent trade (step_of 1 settled pending ∷ []) 150 ≡ true)
    ↔ (is_stalled stalled ≡ true)
      × (i : Increment String) × (first_open (step_of 1 settled pending ∷ []) ≡ some i)
      × IsOwed i 150
is_delinquent_iff_example = is_delinquent_iff trade (step_of 1 settled pending ∷ []) 150

abbrev response : Accepted
response = record { accepted_height = 100; increment_count = 3; confirm_depth = 2 }

on_time : IsOnTime 100 2 (110 ∷ 121 ∷ [])
unfolding IsOnTime deadline_height step_timeout_blocks
on_time = (omega arith, (omega arith, tt))

expired : trade_expired_by response 170 ≡ true
unfolding trade_expired_by step_timeout_blocks
expired = refl

trade_expired_by-past_example :
    deadline_height (started_at 100 (110 ∷ 121 ∷ [])) 2 + abandon_after_blocks ≤ 170
trade_expired_by-past_example =
    trade_expired_by-past response (110 ∷ 121 ∷ []) 170 on_time (omega arith) expired
