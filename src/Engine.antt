-- ===== src/Engine.antt =====
-- src/swap_engine.py: one trade, step by step, over two chains. The rows are those of
-- src/trade_storage.py. The two chains, the wallet and the clock are an interface; a call of theirs
-- may raise `Unreachable`. What an action has written stays written when it raises.
pub mod Send
pub mod Watch
pub mod Drive
pub mod Keeps
pub mod Silent
pub mod Rows
pub mod Ahead
pub mod Turn
pub mod Unanswered
pub mod Blame
use lapsecoin.Prelude.{
  ℕ, ◌+◌, ◌*◌, ◌/◌, String, Bool, true, false, Option, none, some, List, [], ◌∷◌, ◌++◌, ◌==◌, ltb,
  if◌then◌else◌,
}
use lapsecoin.Prelude.Result.{Result, ok, refused, raised}

pub data Asset : Type 0 where
  lapse xlm : Asset

pub data Leg : Type 0 where
  pending intent submitted settled dead : Leg

pub data Status : Type 0 where
  active stalled completed : Status

abbrev pub is_settled : Leg → Bool
is_settled settled = true
is_settled _ = false

-- `out_state in (LEG_INTENT, LEG_SUBMITTED)`
abbrev pub in_flight : Leg → Bool
in_flight intent = true
in_flight submitted = true
in_flight _ = false

-- A row of the trades; the fields that the engine does not read are left out.
pub record Trade : Type 0 where
  pub order_id : List ℕ
  pub session_id : List ℕ
  pub i_send : Asset
  pub my_lapse_addr : String
  pub my_xlm_addr : String
  pub peer_lapse_addr : String
  pub peer_xlm_addr : String
  pub confirm_depth : ℕ
  pub status : Status
  pub updated_at : ℕ
  pub stalled_since : ℕ

-- (from, to, memo, amount)
pub record Terms : Type 0 where
  pub from_addr : String
  pub to_addr : String
  pub memo : List ℕ
  pub amount : ℕ

module _ (Envelope : Type 0) where
  -- A row; no envelope is the empty text. The details that are only shown are left out.
  pub record Increment : Type 0 where
    pub n : ℕ
    pub lapse_amount : ℕ
    pub xlm_amount : ℕ
    pub i_move_first : Bool
    pub out_state : Leg
    pub out_envelope : Option Envelope
    pub out_tx_hash : String
    pub out_seq : ℕ
    pub out_submitted_at : ℕ
    pub out_settled_at : ℕ
    pub in_state : Leg
    pub in_tx_hash : String
    pub in_settled_at : ℕ
    pub deadline_at : ℕ
    pub deadline_height : ℕ
    pub completed_height : ℕ

-- The wallet is locked, as `SwapError`; the service does not answer, as `Unreachable`.
pub record World : Type 1 where
  pub Net : Type 0
  pub Envelope : Type 0
  pub find_payment : Asset → Terms → Net → Result (Option (String × ℕ)) × Net
  pub confirmations : Asset → String → Net → Result (Option ℕ) × Net
  pub build : Asset → String → ℕ → List ℕ → Bool → Net → Result (Envelope × String × ℕ) × Net
  pub submit : Asset → Envelope → Net → Result Bool × Net
  pub sequence_consumed : Asset → String → ℕ → Net → Result Bool × Net
  pub forget_sequence : Asset → String → Net → Net
  pub account_exists : String → Net → Result Bool × Net
  pub unlocked : Net → Bool
  pub height : Net → Result ℕ × Net
  pub clock : Net → ℕ
  pub min_confirm_depth : ℕ

module _ {E : Type 0} where
  -- `Increment.get_or_none(session, n)`
  unfoldable pub find_row : ℕ → List (Increment E) → Option (Increment E)
  find_row n [] = none
  find_row n (r ∷ rows) = if r.n == n then some r else find_row n rows

  unfoldable pub write_row : Increment E → List (Increment E) → List (Increment E)
  write_row i [] = []
  write_row i (r ∷ rows) = let rest = write_row i rows in if r.n == i.n then i ∷ rows else r ∷ rest

  unfoldable pub update_found :
      (Increment E → Bool)
      → (Increment E → Increment E)
      → List (Increment E)
      → Option (Increment E)
      → List (Increment E)
  update_found test f rows none = rows
  update_found test f rows (some i) = if test i then write_row (f i) rows else rows

-- An envelope that was handed to a chain, and the row as the database had it at that moment.
pub record Sent (w : World) : Type 0 where
  pub envelope : w.Envelope
  pub row : Option (Increment w.Envelope)

-- The rows of the trade, the trade, the increment in hand (an object of its own), and what was sent.
pub record Desk (w : World) : Type 0 where
  pub net : w.Net
  pub trade : Trade
  pub rows : List (Increment w.Envelope)
  pub inc : Increment w.Envelope
  pub log : List (Sent w)

abbrev pub Action : World → Type 0 → Type 0
Action w A = Desk w → Result A × Desk w

module _ {w : World} where
  -- From a result.
  abbrev pub lift : {A : Type 0} → Result A → Action w A
  lift r d = (r, d)

  abbrev pub pure : {A : Type 0} → A → Action w A
  pure a d = (ok a, d)

  abbrev pub done : Action w (Unit {0})
  done d = (ok tt, d)

  abbrev pub then_run : {A B : Type 0} → Result A → (A → Action w B) → Action w B
  then_run (ok a) k d = k a d
  then_run (refused e) k d = (refused e, d)
  then_run (raised x) k d = (raised x, d)

  infixl 5 ◌>>=◌ ◌>>◌
  abbrev pub ◌>>=◌ : {A B : Type 0} → Action w A → (A → Action w B) → Action w B
  ◌>>=◌ m k d = let (r, d') = m d in then_run r k d'

  abbrev pub ◌>>◌ : {A B : Type 0} → Action w A → Action w B → Action w B
  m >> k = m >>= λ _. k

  -- A question to the chains.
  abbrev pub ask : {A : Type 0} → (w.Net → Result A × w.Net) → Action w A
  ask f d = let (r, net') = f d.net in (r, record d { net = net' })

  abbrev pub the_inc : Action w (Increment w.Envelope)
  the_inc d = (ok d.inc, d)

  abbrev pub the_trade : Action w Trade
  the_trade d = (ok d.trade, d)

  abbrev pub now : Action w ℕ
  now d = (ok (w.clock d.net), d)

  abbrev pub set_trade : (Trade → Trade) → Action w (Unit {0})
  set_trade f d = (ok tt, record d { trade = f d.trade })

  -- Assignments to the fields of the increment, and then `inc.save()`: the whole row is written.
  unfoldable pub save_with : (Increment w.Envelope → Increment w.Envelope) → Action w (Unit {0})
  save_with f d = (ok tt, record d { inc = f d.inc; rows = write_row (f d.inc) d.rows })

  -- `nxt = Increment.get_or_none(..., n + 1)`, and `nxt.save()` where the test says so.
  unfoldable pub save_next :
      (Increment w.Envelope → Bool)
      → (Increment w.Envelope → Increment w.Envelope)
      → Action w (Unit {0})
  save_next test f d =
      (ok tt, record d { rows = update_found test f d.rows (find_row (d.inc.n + 1) d.rows) })

  -- `adapter.submit(envelope)`, on record.
  unfoldable pub submit : Asset → w.Envelope → Action w Bool
  submit a env d =
      let (r, net') = w.submit a env d.net in
      (
        r,
        record d {
          net = net';
          log = record { envelope = env; row = find_row d.inc.n d.rows } ∷ d.log;
        },
      )
