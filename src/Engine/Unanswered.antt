-- ===== src/Engine/Unanswered.antt =====
-- A pass of src/swap_engine.py while the ledgers do not answer.
use lapsecoin.Prelude.{ℕ, String, ◌≡◌, refl, Option, none, some, List}
use lapsecoin.Prelude.Result.{raised, unreachable}
use lapsecoin.Engine.{
  Asset, Terms, Increment, World, Desk, Sent, Action, is_settled, ask, save_with, ◌>>=◌,
}
use lapsecoin.Engine.Send.{send_leg, ensure_sent, send_unless_found, required_depth, out_asset}
use lapsecoin.Engine.Watch.{check_inbound}
use lapsecoin.Engine.Drive.{
  first_open, advance, advance_open, advance_step, move, move_first, move_second, inbound_if_paid,
  pay_if_received, send_unless_settled,
}
use lapsecoin.Engine.Keeps.{
  Keeps, IsSame, >>-Keeps, >>=-Keeps, done-Keeps, if-Keeps, inc-Keeps, trade-Keeps, out_terms-Keeps,
  check_outbound-Keeps, check_inbound-Keeps, update_timing-Keeps, complete-Keeps,
}
use lapsecoin.Engine.Silent.{HasLog, frame}

-- No payment can be looked for.
pub record IsUnanswered (w : World) : Type 0 where
  pub unanswered :
      (a : Asset) (t : Terms) (net : w.Net) → (w.find_payment a t net).0 ≡ raised unreachable

module _ {w : World} (l : List (Sent w)) (u : IsUnanswered w) where
  saving_in :
      (f : Increment w.Envelope → Increment w.Envelope)
      → IsSame f
      → Keeps (HasLog l) (save_with {w = w} f)
  unfolding save_with
  saving_in f _ = record { kept = λ d p. p }

  found-Keeps :
      (a : Asset) (t : Terms) (k : Option (String × ℕ) → Action w (Unit {0}))
      → Keeps (HasLog l) (ask (w.find_payment a t) >>= k)
  found-Keeps a t k = record { kept = λ d p. rw (u.unanswered a t d.net) p }

  ensure_sent-Keeps : Keeps (HasLog l) (ensure_sent {w = w})
  unfolding ensure_sent send_leg
  ensure_sent-Keeps = inc-Keeps (λ i. if-Keeps (is_settled i.out_state) done-Keeps (
      inc-Keeps (λ i. trade-Keeps (λ t. >>=-Keeps (out_terms-Keeps t t.i_send i) (λ terms.
        found-Keeps (out_asset t) terms (
          send_unless_found (out_asset t) terms
            (required_depth w.min_confirm_depth t (out_asset t))))))))

  send_unless_settled-Keeps : Keeps (HasLog l) (send_unless_settled {w = w})
  unfolding send_unless_settled
  send_unless_settled-Keeps = inc-Keeps (λ i.
      if-Keeps (is_settled i.out_state) done-Keeps
        (>>-Keeps ensure_sent-Keeps (check_outbound-Keeps (frame l))))

  inbound-Keeps : Keeps (HasLog l) (check_inbound {w = w})
  inbound-Keeps = check_inbound-Keeps (frame l) saving_in

  move_first-Keeps : Keeps (HasLog l) (move_first {w = w})
  unfolding move_first inbound_if_paid
  move_first-Keeps = >>-Keeps (check_outbound-Keeps (frame l)) (
      >>-Keeps send_unless_settled-Keeps
        (inc-Keeps (λ i. if-Keeps (is_settled i.out_state) inbound-Keeps done-Keeps)))

  move_second-Keeps : Keeps (HasLog l) (move_second {w = w})
  unfolding move_second pay_if_received
  move_second-Keeps = >>-Keeps inbound-Keeps (
      inc-Keeps (λ i.
        if-Keeps (is_settled i.in_state)
          (>>-Keeps (check_outbound-Keeps (frame l)) send_unless_settled-Keeps) done-Keeps))

  advance_step-Keeps : Keeps (HasLog l) (advance_step {w = w})
  unfolding advance_step move
  advance_step-Keeps =
      >>-Keeps (inc-Keeps (λ i. if-Keeps i.i_move_first move_first-Keeps move_second-Keeps))
        (update_timing-Keeps (frame l) saving_in)

  advance_open-Keeps :
      (o : Option (Increment w.Envelope)) → Keeps (HasLog l) (advance_open {w = w} o)
  unfolding advance_open
  advance_open-Keeps none = record { kept = λ d p. (complete-Keeps (frame l)).kept d p }
  advance_open-Keeps (some i) = record {
    kept = λ d p. advance_step-Keeps.kept (record d { inc = i }) p;
  }

-- While no payment can be looked for, because both ledgers fail to answer that question, a pass
-- over a trade hands no envelope to any chain.
pub advance-unanswered : {w : World} (d : Desk w) → IsUnanswered w → (advance d).1.log ≡ d.log
unfolding advance
advance-unanswered d u = (advance_open-Keeps d.log u (first_open d.rows)).kept d refl
