-- ===== src/Engine/Turn.antt =====
-- `advance` of src/swap_engine.py: what a pass over a trade hands to the chains.
use lapsecoin.Prelude.{ℕ, ◌≡◌, refl, true, Option, none, some, List, [], ◌∷◌, All, arith}
use lapsecoin.Engine.{is_settled, Increment, World, Desk, find_row, save_with, ◌>>◌, done}
use lapsecoin.Engine.Watch.{check_outbound, check_inbound}
use lapsecoin.Engine.Drive.{
  first_open, advance, advance_step, advance_open, move, move_first, move_second, inbound_if_paid,
  pay_if_received, send_unless_settled, complete,
}
use lapsecoin.Engine.Keeps.{
  Keeps, >>=-at, >>=-lead, >>-Keeps, done-Keeps, if-Keeps, if-at, inc-Keeps, IsSame,
  check_outbound-Keeps, check_inbound-Keeps, update_timing-Keeps, complete-Keeps,
}
use lapsecoin.Engine.Silent.{frame as log_frame}
use lapsecoin.Engine.Ahead.{
  may_pay, any_turn, IsAhead, IsSynced, paying, reading, save_with-IsSynced,
  send_unless_settled-Keeps,
}

-- No two rows have one number, as the primary key `"<session_id>:<n>"` has it.
unfoldable pub IsNumbered : {E : Type 0} → List (Increment E) → Type 0
IsNumbered [] = Unit
IsNumbered (i ∷ rows) = (find_row i.n rows ≡ none) × IsNumbered rows

first_open-find_row :
    {E : Type 0} (rows : List (Increment E)) {i : Increment E}
    → IsNumbered rows
    → first_open rows ≡ some i
    → find_row i.n rows ≡ some i
unfolding first_open find_row IsNumbered
first_open-find_row [] h e = cc
first_open-find_row (r ∷ rows) {i = i} h e =
    let rest : first_open rows ≡ some i → find_row i.n rows ≡ some i =
      first_open-find_row rows h.1 in
    ground (arith, rest)

module _ {w : World} (n : ℕ) where
  weaken : (d : Desk w) → IsSynced may_pay n d → IsSynced any_turn n d
  weaken d h = record { synced = h.synced; numbered = h.numbered; ahead = h.ahead; allowed = refl }

  take_turn :
      (d : Desk w)
      → IsSynced any_turn n d
      → may_pay d.inc.i_move_first d.inc.in_state ≡ true
      → IsSynced may_pay n d
  take_turn d h t = record {
    synced = h.synced;
    numbered = h.numbered;
    ahead = h.ahead;
    allowed = t;
  }

  saving_in :
      (f : Increment w.Envelope → Increment w.Envelope)
      → IsSame f
      → Keeps (IsSynced {w = w} any_turn n) (save_with f)
  unfolding IsSame
  saving_in f o = record { kept = λ d h. save_with-IsSynced any_turn n f d h (o d.inc) refl }

  inbound-Keeps : Keeps (IsSynced {w = w} any_turn n) check_inbound
  inbound-Keeps = check_inbound-Keeps (reading n) saving_in

  inbound_if_paid-Keeps : Keeps (IsSynced {w = w} any_turn n) inbound_if_paid
  unfolding inbound_if_paid
  inbound_if_paid-Keeps =
      inc-Keeps (λ i. if-Keeps (is_settled i.out_state) inbound-Keeps done-Keeps)

  move_first-ahead : (d : Desk w) → IsSynced may_pay n d → IsSynced any_turn n (move_first d).1
  unfolding move_first
  move_first-ahead d h =
      >>=-lead check_outbound _ d (check_outbound-Keeps (paying n)) weaken
        (λ _ d h.
          >>=-lead send_unless_settled _ d (send_unless_settled-Keeps n) weaken
            (λ _ d h. inbound_if_paid-Keeps.kept d (weaken d h)) h)
        h

  pay_if_received-ahead :
      (d : Desk w) → IsSynced any_turn n d → IsSynced any_turn n (pay_if_received d).1
  unfolding pay_if_received
  pay_if_received-ahead d h =
      if-at (IsSynced any_turn n) (check_outbound >> send_unless_settled) done
        (is_settled d.inc.in_state) d
        (λ y. weaken ((check_outbound >> send_unless_settled) d).1 (
          (>>-Keeps (check_outbound-Keeps (paying n)) (send_unless_settled-Keeps n)).kept d
            (take_turn d h (ground (arith, y)))))
        (λ _. h)

  move_second-ahead : (d : Desk w) → IsSynced any_turn n d → IsSynced any_turn n (move_second d).1
  unfolding move_second
  move_second-ahead d h =
      >>=-at check_inbound d (inbound-Keeps.kept d h) (λ _. record { kept = pay_if_received-ahead })

  move-ahead : (d : Desk w) → IsSynced any_turn n d → IsSynced any_turn n (move d).1
  unfolding move
  move-ahead d h =
      if-at (IsSynced any_turn n) move_first move_second d.inc.i_move_first d
        (λ y. move_first-ahead d (take_turn d h (ground (arith, y)))) (λ _. move_second-ahead d h)

  advance_step-ahead : (d : Desk w) → IsSynced any_turn n d → IsSynced any_turn n (advance_step d).1
  unfolding advance_step
  advance_step-ahead d h =
      >>=-at move d (move-ahead d h) (λ _. update_timing-Keeps (reading n) saving_in)

complete-log : {w : World} (d : Desk w) → (complete d).1.log ≡ d.log
complete-log d = (complete-Keeps (log_frame d.log)).kept d refl

-- The number of the first step that is not settled on both sides; there is none before it.
unfoldable pub step_due : {E : Type 0} → Option (Increment E) → ℕ
step_due none = 0
step_due (some i) = i.n

advance_open-IsAhead :
    {w : World} (d : Desk w) (o : Option (Increment w.Envelope))
    → IsNumbered d.rows
    → d.log ≡ []
    → first_open d.rows ≡ o
    → All (IsAhead (step_due o)) (advance_open o d).1.log
unfolding advance_open step_due
advance_open-IsAhead d none h l e = rw (complete-log d, l) tt
advance_open-IsAhead d (some i) h l e =
    (advance_step-ahead i.n (record d { inc = i })
      (record {
        synced = first_open-find_row d.rows h e;
        numbered = refl;
        ahead = rw l tt;
        allowed = refl;
      })).ahead

-- In a pass over a trade whose rows have different numbers, every envelope handed to a chain
-- stood, at that moment, in the database on the row of the first step that is not settled on both
-- sides, and there this node moves first or has received the other leg.
pub advance-IsAhead :
    {w : World} (d : Desk w)
    → IsNumbered d.rows
    → d.log ≡ []
    → All (IsAhead (step_due (first_open d.rows))) (advance d).1.log
unfolding advance
advance-IsAhead d h l = advance_open-IsAhead d (first_open d.rows) h l refl
