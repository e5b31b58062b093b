-- ===== src/Engine/Send.antt =====
-- The reading part and the crash-safe send of src/swap_engine.py.
use lapsecoin.Prelude.{ℕ, ◌*◌, String, Bool, true, false, Option, none, some, leb, if◌then◌else◌}
use lapsecoin.Prelude.Result.{ok, raised, swap_error}
use lapsecoin.Swap.{larger}
use lapsecoin.Swap.Tag.{session_tag}
use lapsecoin.Engine.{
  Asset, lapse, xlm, intent, submitted, settled, dead, is_settled, in_flight, Trade, Terms,
  Increment, World, Action, lift, pure, done, ◌>>=◌, ◌>>◌, ask, the_inc, the_trade, now, save_with,
  submit,
}

abbrev pub min_confirm_depth : ℕ
min_confirm_depth = 2

-- `xlm.ACCOUNT_MIN_BALANCE_STROOPS`: two base reserves.
abbrev pub account_min_balance_stroops : ℕ
account_min_balance_stroops = 2 * 5_000_000

-- The adapters, by the asset that they move.
unfoldable pub out_asset : Trade → Asset
out_asset t = t.i_send

unfoldable pub in_asset : Trade → Asset
in_asset t = elim t.i_send [ lapse ↦ xlm | xlm ↦ lapse ]

-- On the engine's own floor.
unfoldable pub required_depth : ℕ → Trade → Asset → ℕ
required_depth floor t lapse = larger (larger t.confirm_depth min_confirm_depth) floor
required_depth floor t xlm = 1

module _ {E : Type 0} where
  -- `_record_outbound` on the row.
  unfoldable pub with_outbound : String → ℕ → ℕ → ℕ → Increment E → Increment E
  with_outbound hash depth required time i =
      if leb required depth
      then record i {
        out_tx_hash = hash;
        out_settled_at = if is_settled i.out_state then i.out_settled_at else time;
        out_state = settled;
      }
      else record i { out_tx_hash = hash; out_state = submitted }

  abbrev pub sent_at : ℕ → Increment E → Increment E
  sent_at time i = record i { out_state = submitted; out_submitted_at = time }

  abbrev pub with_answer : Bool → ℕ → Increment E → Increment E
  with_answer accepted time i = if accepted then sent_at time i else i

  -- The signed envelope, its hash and its sequence number go to the row before they go out.
  abbrev pub with_intent : E → String → ℕ → Increment E → Increment E
  with_intent env hash seq i = record i {
    out_envelope = some env;
    out_tx_hash = hash;
    out_seq = seq;
    out_state = intent;
  }

  abbrev pub dead_envelope : Increment E → Increment E
  dead_envelope i = record i { out_state = dead; out_envelope = none }

  unfoldable pub in_flight_envelope : Increment E → Option E
  in_flight_envelope i = if in_flight i.out_state then i.out_envelope else none

module _ {w : World} where
  -- The payment of a leg, with its two ends.
  unfoldable pub terms : Trade → ℕ → String → String → ℕ → Action w Terms
  terms t n from to amount = do
    tag ← lift (session_tag t.order_id t.session_id n)
    pure (record { from_addr = from; to_addr = to; memo = tag; amount = amount })

  -- The leg that this node sends, by what it sends, and the one that it receives.
  unfoldable pub out_terms : Trade → Asset → Increment w.Envelope → Action w Terms
  out_terms t lapse i = terms t i.n t.my_lapse_addr t.peer_lapse_addr i.lapse_amount
  out_terms t xlm i = terms t i.n t.my_xlm_addr t.peer_xlm_addr i.xlm_amount

  unfoldable pub in_terms : Trade → Asset → Increment w.Envelope → Action w Terms
  in_terms t lapse i = terms t i.n t.peer_xlm_addr t.my_xlm_addr i.xlm_amount
  in_terms t xlm i = terms t i.n t.peer_lapse_addr t.my_lapse_addr i.lapse_amount

  unfoldable pub record_outbound : String → ℕ → ℕ → Action w (Unit {0})
  record_outbound hash depth required =
      now >>= λ time. save_with (with_outbound hash depth required time)

  -- The amount of an XLM payment, and whether it creates the account.
  unfoldable pub xlm_send_amount : String → ℕ → Action w (ℕ × Bool)
  xlm_send_amount to amount = do
    exists ← ask (w.account_exists to)
    pure (if exists then (amount, false) else (larger amount account_min_balance_stroops, true))

  unfoldable pub unlocked : Action w (Unit {0})
  unlocked d = if w.unlocked d.net then done d else lift (raised swap_error) d

  unfoldable pub leg_amount : Asset → String → ℕ → Action w (ℕ × Bool)
  leg_amount lapse to amount = pure (amount, false)
  leg_amount xlm to amount = xlm_send_amount to amount

  unfoldable pub send_written : Asset → w.Envelope → Action w (Unit {0})
  send_written a env = do accepted ← submit a env; time ← now; save_with (with_answer accepted time)

  unfoldable pub build_and_send : Asset → Terms → Action w (Unit {0})
  build_and_send a t = do
    unlocked
    (amount, create) ← leg_amount a t.to_addr t.amount
    (env, hash, seq) ← ask (w.build a t.to_addr amount t.memo create)
    save_with (with_intent env hash seq)
    send_written a env

  -- A rejected envelope is dead where its sequence number is spent.
  unfoldable pub judge_rejected : Asset → String → Bool → Action w Bool
  judge_rejected a from true = do
    save_with dead_envelope
    ask (λ net. (ok tt, w.forget_sequence a from net))
    pure false
  judge_rejected a from false = save_with (λ i. i) >> pure true

  unfoldable pub judge_resent : Asset → String → Bool → Action w Bool
  judge_resent a from true = do time ← now; save_with (sent_at time); pure true
  judge_resent a from false = do
    i ← the_inc
    consumed ← ask (w.sequence_consumed a from i.out_seq)
    judge_rejected a from consumed

  -- Whether the stored envelope is still in play.
  unfoldable pub resend : Asset → String → w.Envelope → Action w Bool
  resend a from env = submit a env >>= judge_resent a from

  -- The stored envelope first, if there is one in flight, and a new one if it is out of play.
  unfoldable pub send_stored : Asset → Terms → Option w.Envelope → Action w (Unit {0})
  send_stored a t none = build_and_send a t
  send_stored a t (some env) =
      resend a t.from_addr env >>= λ in_play. if in_play then done else build_and_send a t

  unfoldable pub send_unless_found : Asset → Terms → ℕ → Option (String × ℕ) → Action w (Unit {0})
  send_unless_found a t required (some (hash, depth)) = record_outbound hash depth required
  send_unless_found a t required none = the_inc >>= λ i. send_stored a t (in_flight_envelope i)

  unfoldable pub send_leg : Action w (Unit {0})
  send_leg = do
    i ← the_inc
    trade ← the_trade
    t ← out_terms trade trade.i_send i
    found ← ask (w.find_payment (out_asset trade) t)
    send_unless_found (out_asset trade) t
        (required_depth w.min_confirm_depth trade (out_asset trade)) found

  unfoldable pub ensure_sent : Action w (Unit {0})
  ensure_sent = the_inc >>= λ i. if is_settled i.out_state then done else send_leg
