-- ===== src/Engine/Ahead.antt =====
-- The sends of src/swap_engine.py: the row is written before the envelope goes out, and which of the
-- two sides of a step may go.
use lapsecoin.Prelude.{
  ℕ, ◌+◌, String, ◌≡◌, ◌≢◌, refl, sym, ◌∙◌, ap, inl, inr, Bool, true, false, ◌||◌, Option, none,
  some, All, arith, Bool-cases,
}
use lapsecoin.Prelude.Result.{ok}
use lapsecoin.Engine.{
  Asset, lapse, xlm, Leg, is_settled, Increment, World, Desk, Sent, Terms, find_row, write_row,
  save_with, save_next, submit, ◌>>◌,
}
use lapsecoin.Engine.Send.{
  build_and_send, resend, judge_resent, judge_rejected, send_stored, send_unless_found, send_leg,
  ensure_sent, in_flight_envelope, unlocked, leg_amount, xlm_send_amount, out_asset, required_depth,
  with_intent, with_answer, send_written, sent_at, dead_envelope,
}
use lapsecoin.Engine.Rows.{find_row-written, find_row-update_found}
use lapsecoin.Engine.Drive.{send_unless_settled}
use lapsecoin.Engine.Keeps.{
  Keeps, IsFrame, IsOut, IsSame, >>=-at, >>=-Keeps, >>-Keeps, done-Keeps, pure-Keeps, if-Keeps,
  inc-Keeps, trade-Keeps, now-Keeps, out_terms-Keeps, record_outbound-Keeps, check_outbound-Keeps,
}

abbrev pub may_pay : Bool → Leg → Bool
may_pay first state = first || is_settled state

-- The row of the step had the envelope, when it went out, and it was this node's turn.
pub record IsAhead {w : World} (n : ℕ) (s : Sent w) : Type 0 where
  pub row : Increment w.Envelope
  pub written : s.row ≡ some row
  pub stored : row.out_envelope ≡ some s.envelope
  pub numbered : row.n ≡ n
  pub allowed : may_pay row.i_move_first row.in_state ≡ true

-- The increment in hand is the row, and so far all is well.
pub record IsSynced {w : World} (turn : Bool → Leg → Bool) (n : ℕ) (d : Desk w) : Type 0 where
  pub synced : find_row n d.rows ≡ some d.inc
  pub numbered : d.inc.n ≡ n
  pub ahead : All (IsAhead n) d.log
  pub allowed : turn d.inc.i_move_first d.inc.in_state ≡ true

module _ {w : World} (turn : Bool → Leg → Bool) (n : ℕ) where
  pub save_with-IsSynced :
      (f : Increment w.Envelope → Increment w.Envelope) (d : Desk w)
      → IsSynced turn n d
      → ((f d.inc).n ≡ d.inc.n)
      → turn (f d.inc).i_move_first (f d.inc).in_state ≡ true
      → IsSynced turn n (save_with f d).1
  unfolding save_with
  save_with-IsSynced f d h e t = record {
    synced =
        ap (λ m. find_row m (write_row (f d.inc) d.rows)) (sym (e ∙ h.numbered))
        ∙ find_row-written (f d.inc) d.rows
            (ap (λ m. find_row m d.rows) (e ∙ h.numbered) ∙ h.synced);
    numbered = e ∙ h.numbered;
    ahead = h.ahead;
    allowed = t;
  }

  save_next-IsSynced :
      (b : Increment w.Envelope → Bool) (f : Increment w.Envelope → Increment w.Envelope)
      (d : Desk w)
      → IsSame f
      → IsSynced turn n d
      → IsSynced turn n (save_next b f d).1
  unfolding save_next IsSame
  save_next-IsSynced b f d s h = record {
    synced =
        find_row-update_found n b f d.rows s (λ e. ne (h.numbered ∙ e))
          (find_row (d.inc.n + 1) d.rows) refl
        ∙ h.synced;
    numbered = h.numbered;
    ahead = h.ahead;
    allowed = h.allowed;
  }
    where
      ne : {m : ℕ} → m ≢ m + 1
      ne e = omega arith

  frame :
      ((f : Increment w.Envelope → Increment w.Envelope) (i : Increment w.Envelope)
        → IsOut f
        → turn i.i_move_first i.in_state ≡ true
        → turn (f i).i_move_first (f i).in_state ≡ true)
      → IsFrame (IsSynced {w = w} turn n)
  unfolding IsOut
  frame stays = record {
    asking = λ A f. record {
      kept = λ d h. record {
        synced = h.synced;
        numbered = h.numbered;
        ahead = h.ahead;
        allowed = h.allowed;
      };
    };
    saving = λ f o. record {
      kept = λ d h. save_with-IsSynced f d h (o d.inc).0 (stays f d.inc o h.allowed);
    };
    next = λ b f o. record { kept = λ d h. save_next-IsSynced b f d o h };
    trading = λ f. record {
      kept = λ d h. record {
        synced = h.synced;
        numbered = h.numbered;
        ahead = h.ahead;
        allowed = h.allowed;
      };
    };
  }

abbrev pub any_turn : Bool → Leg → Bool
any_turn first state = true

with_answer-IsOut :
    (E : Type 0) (accepted : Bool) (time : ℕ) → IsOut {E = E} (with_answer accepted time)
unfolding IsOut
with_answer-IsOut E accepted time i = ground arith

module _ {w : World} (n : ℕ) where
  pub paying : IsFrame (IsSynced {w = w} may_pay n)
  unfolding IsOut
  paying = frame {w = w} may_pay n (λ f i o h. rw ((o i).1, (o i).2) h)

  pub reading : IsFrame (IsSynced {w = w} any_turn n)
  reading = frame {w = w} any_turn n (λ f i o h. refl)

  submit-ahead :
      (a : Asset) (env : w.Envelope) (d : Desk w)
      → IsSynced may_pay n d
      → d.inc.out_envelope ≡ some env
      → IsSynced may_pay n (submit a env d).1
  unfolding submit
  submit-ahead a env d h e = record {
    synced = h.synced;
    numbered = h.numbered;
    ahead = (
      record {
        row = d.inc;
        written = ap (λ m. find_row m d.rows) h.numbered ∙ h.synced;
        stored = e;
        numbered = h.numbered;
        allowed = h.allowed;
      },
      h.ahead,
    );
    allowed = h.allowed;
  }

  send_written-ahead :
      (a : Asset) (env : w.Envelope) (d : Desk w)
      → IsSynced may_pay n d
      → d.inc.out_envelope ≡ some env
      → IsSynced may_pay n (send_written a env d).1
  unfolding send_written
  send_written-ahead a env d h e = >>=-at (submit a env) d (submit-ahead a env d h e) (λ accepted.
      now-Keeps
        (λ time. paying.saving (with_answer accepted time) (with_answer-IsOut _ accepted time)))

  leg_amount-Keeps :
      (a : Asset) (to : String) (amount : ℕ)
      → Keeps (IsSynced {w = w} may_pay n) (leg_amount a to amount)
  unfolding leg_amount xlm_send_amount
  leg_amount-Keeps lapse to amount = pure-Keeps _
  leg_amount-Keeps xlm to amount =
      >>=-Keeps (paying.asking _ (w.account_exists to)) (λ there. pure-Keeps _)

  unlocked-Keeps : Keeps (IsSynced {w = w} may_pay n) unlocked
  unfolding unlocked
  unlocked-Keeps = record {
    kept = λ d h. elim (Bool-cases (w.unlocked d.net)) [ inl y ↦ rw y h | inr k ↦ rw k h ];
  }

  written-Keeps :
      (a : Asset) (env : w.Envelope) (hash : String) (seq : ℕ)
      → Keeps
          (IsSynced {w = w} may_pay n)
          (save_with (with_intent env hash seq) >> send_written a env)
  unfolding save_with
  written-Keeps a env hash seq = record {
    kept = λ d h.
        let h' = save_with-IsSynced may_pay n (with_intent env hash seq) d h refl h.allowed in
        send_written-ahead a env (save_with (with_intent env hash seq) d).1 h' refl;
  }

  build_and_send-Keeps :
      (a : Asset) (t : Terms) → Keeps (IsSynced {w = w} may_pay n) (build_and_send a t)
  unfolding build_and_send
  build_and_send-Keeps a t = >>-Keeps unlocked-Keeps (
      >>=-Keeps (leg_amount-Keeps a t.to_addr t.amount) (λ (amount, create).
        >>=-Keeps (paying.asking _ (w.build a t.to_addr amount t.memo create))
          (λ (env, hash, seq). written-Keeps a env hash seq)))

  judge_rejected-Keeps :
      (a : Asset) (from : String) (b : Bool)
      → Keeps (IsSynced {w = w} may_pay n) (judge_rejected a from b)
  unfolding judge_rejected IsOut
  judge_rejected-Keeps a from true =
      >>-Keeps (paying.saving dead_envelope (λ i. (refl, refl, refl))) (
        >>-Keeps (paying.asking _ (λ net. (ok tt, w.forget_sequence a from net)))
          (pure-Keeps false))
  judge_rejected-Keeps a from false =
      >>-Keeps (paying.saving (λ i. i) (λ i. (refl, refl, refl))) (pure-Keeps true)

  judge_resent-Keeps :
      (a : Asset) (from : String) (b : Bool)
      → Keeps (IsSynced {w = w} may_pay n) (judge_resent a from b)
  unfolding judge_resent IsOut
  judge_resent-Keeps a from true =
      now-Keeps (λ time.
        >>-Keeps (paying.saving (sent_at time) (λ i. (refl, refl, refl))) (pure-Keeps true))
  judge_resent-Keeps a from false = inc-Keeps (λ i.
      >>=-Keeps (paying.asking _ (w.sequence_consumed a from i.out_seq))
        (λ b. judge_rejected-Keeps a from b))

  send_stored-ahead :
      (a : Asset) (t : Terms) (o : Option w.Envelope) (d : Desk w)
      → IsSynced may_pay n d
      → in_flight_envelope d.inc ≡ o
      → IsSynced may_pay n (send_stored a t o d).1
  unfolding send_stored resend in_flight_envelope
  send_stored-ahead a t none d h e = (build_and_send-Keeps a t).kept d h
  send_stored-ahead a t (some env) d h e =
      let stored : d.inc.out_envelope ≡ some env = ground (arith, e) in
      >>=-at (resend a t.from_addr env) d
        (>>=-at (submit a env) d (submit-ahead a env d h stored)
          (λ b. judge_resent-Keeps a t.from_addr b))
        (λ b. if-Keeps b done-Keeps (build_and_send-Keeps a t))

  send_unless_found-Keeps :
      (a : Asset) (t : Terms) (required : ℕ) (found : Option (String × ℕ))
      → Keeps (IsSynced {w = w} may_pay n) (send_unless_found a t required found)
  unfolding send_unless_found
  send_unless_found-Keeps a t required (some (hash, depth)) =
      record_outbound-Keeps paying hash depth required
  send_unless_found-Keeps a t required none = record {
    kept = λ d h. send_stored-ahead a t (in_flight_envelope d.inc) d h refl;
  }

  send_leg-Keeps : Keeps (IsSynced {w = w} may_pay n) send_leg
  unfolding send_leg
  send_leg-Keeps = inc-Keeps (λ i. trade-Keeps (λ t.
      >>=-Keeps (out_terms-Keeps t t.i_send i) (λ terms.
        >>=-Keeps (paying.asking _ (w.find_payment (out_asset t) terms)) (λ found.
          send_unless_found-Keeps (out_asset t) terms
            (required_depth w.min_confirm_depth t (out_asset t)) found))))

  ensure_sent-Keeps : Keeps (IsSynced {w = w} may_pay n) ensure_sent
  unfolding ensure_sent
  ensure_sent-Keeps = inc-Keeps (λ i. if-Keeps (is_settled i.out_state) done-Keeps send_leg-Keeps)

  pub send_unless_settled-Keeps : Keeps (IsSynced {w = w} may_pay n) send_unless_settled
  unfolding send_unless_settled
  send_unless_settled-Keeps = inc-Keeps (λ i.
      if-Keeps (is_settled i.out_state) done-Keeps
        (>>-Keeps ensure_sent-Keeps (check_outbound-Keeps paying)))
