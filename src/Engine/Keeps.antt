-- ===== src/Engine/Keeps.antt =====
-- What an action of the engine keeps, whatever it ends in, from what its steps keep.
use lapsecoin.Prelude.{
  ℕ, String, ◌≡◌, refl, Bool, true, false, Option, none, some, arith, not, ◌&&◌, ◌==◌, ltb, str_eq,
  if◌then◌else◌,
}
use lapsecoin.Prelude.Result.{Result, ok, refused, raised}
use lapsecoin.Engine.{
  Asset, lapse, xlm, is_settled, Terms, Trade, Increment, World, Desk, Action, lift, pure, done,
  then_run, ◌>>=◌, ◌>>◌, ask, the_inc, the_trade, now, set_trade, save_with, save_next,
}
use lapsecoin.Engine.Send.{
  terms, out_terms, in_terms, with_outbound, record_outbound, required_depth, out_asset, in_asset,
}
use lapsecoin.Engine.Watch.{
  unpropagate_deadline, judge_outbound, check_sent, check_outbound, recheck_inbound, judge_inbound,
  find_inbound, watch_inbound, check_inbound, inbound_lost, with_inbound, taken_back, not_completed,
  without_deadline, deadline_height,
}
use lapsecoin.Engine.Drive.{
  propagate_deadline, complete_step, time_step, update_timing, recover_outbound, complete,
  completed_at, due_at, both_settled, after_done, after_overdue, is_completed, as_completed,
  record_found, reconcile_step,
}

-- Changes of a row that keep its number, and those that also leave the order and the leg received.
unfoldable pub IsSame : {E : Type 0} → (Increment E → Increment E) → Type 0
IsSame {E} f = (i : Increment E) → (f i).n ≡ i.n

unfoldable pub IsOut : {E : Type 0} → (Increment E → Increment E) → Type 0
IsOut {E} f =
    (i : Increment E)
    → ((f i).n ≡ i.n) × ((f i).i_move_first ≡ i.i_move_first) × ((f i).in_state ≡ i.in_state)

pub with_outbound-IsOut :
    (E : Type 0) (hash : String) (depth required time : ℕ)
    → IsOut {E = E} (with_outbound hash depth required time)
unfolding with_outbound IsOut
with_outbound-IsOut E hash depth required time i = ground arith

pub with_inbound-IsSame :
    (E : Type 0) (hash : String) (depth required time : ℕ)
    → IsSame {E = E} (with_inbound hash depth required time)
unfolding with_inbound IsSame
with_inbound-IsSame E hash depth required time i = ground arith

pub record Keeps {w : World} (P : Desk w → Type 0) {A : Type 0} (m : Action w A) : Type 0 where
  pub kept : (d : Desk w) → P d → P (m d).1

pub if-at :
    {w : World} (P : Desk w → Type 0) {A : Type 0} (m k : Action w A) (b : Bool) (d : Desk w)
    → (b ≡ true → P (m d).1)
    → (b ≡ false → P (k d).1)
    → P ((if b then m else k) d).1
if-at P m k true d h h' = h refl
if-at P m k false d h h' = h' refl

module _ {w : World} {P : Desk w → Type 0} where
  then_run-Keeps :
      {A B : Type 0} (r : Result A) (k : A → Action w B)
      → ((a : A) → Keeps P (k a))
      → Keeps P (then_run r k)
  then_run-Keeps (ok a) k h = record { kept = λ d p. (h a).kept d p }
  then_run-Keeps (refused e) k h = record { kept = λ d p. p }
  then_run-Keeps (raised x) k h = record { kept = λ d p. p }

  pub >>=-Keeps :
      {A B : Type 0} {m : Action w A} {k : A → Action w B}
      → Keeps P m
      → ((a : A) → Keeps P (k a))
      → Keeps P (m >>= k)
  >>=-Keeps {m = m} {k = k} h h' = record {
    kept = λ d p. (then_run-Keeps (m d).0 k h').kept (m d).1 (h.kept d p);
  }

  -- The same from one desk, which the first action may have brought about.
  pub >>=-at :
      {A B : Type 0} (m : Action w A) {k : A → Action w B} (d : Desk w)
      → P (m d).1
      → ((a : A) → Keeps P (k a))
      → P ((m >>= k) d).1
  >>=-at m {k = k} d p h = (then_run-Keeps (m d).0 k h).kept (m d).1 p

  -- From one property to another that it implies.
  pub >>=-lead :
      {A B : Type 0} {Q : Desk w → Type 0} (m : Action w A) (k : A → Action w B) (d : Desk w)
      → Keeps P m
      → ((d : Desk w) → P d → Q d)
      → ((a : A) (d : Desk w) → P d → Q (k a d).1)
      → P d
      → Q ((m >>= k) d).1
  >>=-lead {A = A} {Q = Q} m k d h weaken next p = from (m d).0 (m d).1 (h.kept d p)
    where
      from : (r : Result A) (d : Desk w) → P d → Q (then_run r k d).1
      from (ok a) d p = next a d p
      from (refused e) d p = weaken d p
      from (raised x) d p = weaken d p

  pub >>-Keeps :
      {A B : Type 0} {m : Action w A} {k : Action w B} → Keeps P m → Keeps P k → Keeps P (m >> k)
  >>-Keeps h h' = >>=-Keeps h (λ _. h')

  pub lift-Keeps : {A : Type 0} (r : Result A) → Keeps P (lift r)
  lift-Keeps r = record { kept = λ d p. p }

  pub pure-Keeps : {A : Type 0} (a : A) → Keeps P (pure a)
  pure-Keeps a = record { kept = λ d p. p }

  pub done-Keeps : Keeps P done
  done-Keeps = record { kept = λ d p. p }

  pub inc-Keeps :
      {B : Type 0} {k : Increment w.Envelope → Action w B}
      → ((i : Increment w.Envelope) → Keeps P (k i))
      → Keeps P (the_inc >>= k)
  inc-Keeps h = record { kept = λ d p. (h d.inc).kept d p }

  pub trade-Keeps :
      {B : Type 0} {k : Trade → Action w B}
      → ((t : Trade) → Keeps P (k t))
      → Keeps P (the_trade >>= k)
  trade-Keeps h = record { kept = λ d p. (h d.trade).kept d p }

  pub now-Keeps :
      {B : Type 0} {k : ℕ → Action w B} → ((t : ℕ) → Keeps P (k t)) → Keeps P (now >>= k)
  now-Keeps h = record { kept = λ d p. (h (w.clock d.net)).kept d p }

  pub if-Keeps :
      {A : Type 0} {m k : Action w A} (b : Bool)
      → Keeps P m
      → Keeps P k
      → Keeps P (if b then m else k)
  if-Keeps true h h' = h
  if-Keeps false h h' = h'

  terms-Keeps :
      (t : Trade) (n : ℕ) (from to : String) (amount : ℕ) → Keeps P (terms t n from to amount)
  unfolding terms
  terms-Keeps t n from to amount = >>=-Keeps (lift-Keeps _) (λ _. pure-Keeps _)

  pub out_terms-Keeps :
      (t : Trade) (a : Asset) (i : Increment w.Envelope) → Keeps P (out_terms t a i)
  unfolding out_terms
  out_terms-Keeps t lapse i = terms-Keeps t i.n _ _ _
  out_terms-Keeps t xlm i = terms-Keeps t i.n _ _ _

  pub in_terms-Keeps : (t : Trade) (a : Asset) (i : Increment w.Envelope) → Keeps P (in_terms t a i)
  unfolding in_terms
  in_terms-Keeps t lapse i = terms-Keeps t i.n _ _ _
  in_terms-Keeps t xlm i = terms-Keeps t i.n _ _ _

-- What holds on, whatever the chains answer and whatever is written of the leg that this node sends
-- and of the next row.
pub record IsFrame {w : World} (P : Desk w → Type 0) : Type 1 where
  pub asking : (A : Type 0) (f : w.Net → Result A × w.Net) → Keeps P (ask f)
  pub saving : (f : Increment w.Envelope → Increment w.Envelope) → IsOut f → Keeps P (save_with f)
  pub next :
      (b : Increment w.Envelope → Bool) (f : Increment w.Envelope → Increment w.Envelope)
      → IsSame f
      → Keeps P (save_next b f)
  pub trading : (f : Trade → Trade) → Keeps P (set_trade f)

module _ {w : World} {P : Desk w → Type 0} (frame : IsFrame P) where
  pub record_outbound-Keeps :
      (hash : String) (depth required : ℕ) → Keeps P (record_outbound hash depth required)
  unfolding record_outbound
  record_outbound-Keeps hash depth required =
      now-Keeps (λ time. frame.saving _ (with_outbound-IsOut _ hash depth required time))

  unpropagate_deadline-Keeps : Keeps P unpropagate_deadline
  unfolding unpropagate_deadline IsOut IsSame
  unpropagate_deadline-Keeps = inc-Keeps (λ i. if-Keeps _ done-Keeps (
      >>-Keeps (frame.saving not_completed (λ i. (refl, refl, refl)))
        (trade-Keeps (λ t. frame.next _ without_deadline (λ i. refl)))))

  judge_outbound-Keeps :
      (hash : String) (required : ℕ) (depth : Option ℕ)
      → Keeps P (judge_outbound hash required depth)
  unfolding judge_outbound IsOut
  judge_outbound-Keeps hash required none =
      >>-Keeps (frame.saving taken_back (λ i. (refl, refl, refl))) unpropagate_deadline-Keeps
  judge_outbound-Keeps hash required (some depth) = record_outbound-Keeps hash depth required

  check_sent-Keeps : (hash : String) → Keeps P (check_sent hash)
  unfolding check_sent
  check_sent-Keeps hash = trade-Keeps (λ t.
      >>=-Keeps (frame.asking _ (w.confirmations (out_asset t) hash)) (λ depth.
        judge_outbound-Keeps hash (required_depth w.min_confirm_depth t (out_asset t)) depth))

  pub check_outbound-Keeps : Keeps P check_outbound
  unfolding check_outbound
  check_outbound-Keeps =
      inc-Keeps
        (λ i. if-Keeps (str_eq i.out_tx_hash "") done-Keeps (check_sent-Keeps i.out_tx_hash))

  record_found-Keeps : (t : Trade) (found : Option (String × ℕ)) → Keeps P (record_found t found)
  unfolding record_found
  record_found-Keeps t none = done-Keeps
  record_found-Keeps t (some (hash, depth)) =
      record_outbound-Keeps hash depth (required_depth w.min_confirm_depth t (out_asset t))

  recover_outbound-Keeps : Keeps P recover_outbound
  unfolding recover_outbound
  recover_outbound-Keeps = inc-Keeps (λ i. trade-Keeps (λ t.
      >>=-Keeps (out_terms-Keeps t t.i_send i) (λ terms.
        >>=-Keeps (frame.asking _ (w.find_payment (out_asset t) terms))
          (λ found. record_found-Keeps t found))))

  module _
      (saving_in : (f : Increment w.Envelope → Increment w.Envelope)
        → IsSame f
        → Keeps P (save_with f)) where
    recheck_inbound-Keeps :
        (required : ℕ) (depth : Option ℕ) → Keeps P (recheck_inbound required depth)
    unfolding recheck_inbound IsSame
    recheck_inbound-Keeps required depth =
        if-Keeps _ (>>-Keeps (saving_in inbound_lost (λ i. refl)) unpropagate_deadline-Keeps)
          done-Keeps

    judge_inbound-Keeps :
        (required : ℕ) (found : Option (String × ℕ)) → Keeps P (judge_inbound required found)
    unfolding judge_inbound
    judge_inbound-Keeps required none = done-Keeps
    judge_inbound-Keeps required (some (hash, depth)) =
        now-Keeps (λ time. saving_in _ (with_inbound-IsSame _ hash depth required time))

    find_inbound-Keeps :
        (t : Trade) (required : ℕ) (terms : Terms) → Keeps P (find_inbound t required terms)
    unfolding find_inbound
    find_inbound-Keeps t required terms =
        >>=-Keeps (frame.asking _ _) (λ found. judge_inbound-Keeps required found)

    watch_inbound-Keeps :
        (t : Trade) (required : ℕ) (i : Increment w.Envelope) (terms : Terms)
        → Keeps P (watch_inbound t required i terms)
    unfolding watch_inbound
    watch_inbound-Keeps t required i terms =
        if-Keeps (is_settled i.in_state && not (str_eq i.in_tx_hash ""))
          (>>=-Keeps (frame.asking _ _) (λ depth. recheck_inbound-Keeps required depth))
          (find_inbound-Keeps t required terms)

    pub check_inbound-Keeps : Keeps P check_inbound
    unfolding check_inbound
    check_inbound-Keeps = inc-Keeps (λ i. trade-Keeps (λ t.
        >>=-Keeps (in_terms-Keeps t t.i_send i) (λ terms.
          watch_inbound-Keeps t (required_depth w.min_confirm_depth t (in_asset t)) i terms)))

    complete_step-Keeps : (i : Increment w.Envelope) → Keeps P (complete_step i)
    unfolding complete_step propagate_deadline IsSame
    complete_step-Keeps i =
        if-Keeps (i.completed_height == 0)
          (>>=-Keeps (frame.asking _ w.height) (λ height.
            >>-Keeps (saving_in (completed_at height) (λ i. refl)) (
              trade-Keeps (λ t.
                frame.next (λ next. next.deadline_height == 0)
                  (due_at (deadline_height height t.confirm_depth)) (λ i. refl)))))
          done-Keeps

    time_step-Keeps : (i : Increment w.Envelope) (time : ℕ) → Keeps P (time_step i time)
    unfolding time_step
    time_step-Keeps i time =
        if-Keeps (both_settled i)
          (>>-Keeps (complete_step-Keeps i) (frame.trading (after_done time)))
          (if-Keeps (not (i.deadline_at == 0) && ltb i.deadline_at time)
            (frame.trading (after_overdue time)) done-Keeps)

    pub update_timing-Keeps : Keeps P update_timing
    unfolding update_timing
    update_timing-Keeps = inc-Keeps (λ i. now-Keeps (λ time. time_step-Keeps i time))

    pub reconcile_step-Keeps : Keeps P reconcile_step
    unfolding reconcile_step
    reconcile_step-Keeps = >>-Keeps check_outbound-Keeps (
        inc-Keeps (λ i.
          >>-Keeps (if-Keeps (str_eq i.out_tx_hash "") recover_outbound-Keeps done-Keeps)
            check_inbound-Keeps))

  pub complete-Keeps : Keeps P complete
  unfolding complete
  complete-Keeps = trade-Keeps (λ t.
      now-Keeps
        (λ time. if-Keeps (is_completed t.status) done-Keeps (frame.trading (as_completed time))))
