-- ===== src/Engine/Watch.antt =====
-- `check_outbound` and `check_inbound` of src/swap_engine.py: what the chains say of the two legs.
use lapsecoin.Prelude.{
  ℕ, ◌+◌, ◌*◌, String, Bool, true, not, ◌&&◌, Option, none, some, leb, ltb, ◌==◌, str_eq,
  if◌then◌else◌,
}
use lapsecoin.Engine.{
  pending, submitted, settled, is_settled, Trade, Terms, Increment, World, Action, done, ◌>>=◌,
  ◌>>◌, ask, the_inc, the_trade, now, save_with, save_next,
}
use lapsecoin.Engine.Send.{out_asset, in_asset, in_terms, required_depth, record_outbound}

abbrev pub step_timeout_multiplier : ℕ
step_timeout_multiplier = 6

unfoldable pub step_timeout_blocks : ℕ → ℕ
step_timeout_blocks confirm_depth = confirm_depth * step_timeout_multiplier

unfoldable pub deadline_height : ℕ → ℕ → ℕ
deadline_height base_height confirm_depth = base_height + step_timeout_blocks confirm_depth

module _ {E : Type 0} where
  abbrev pub taken_back : Increment E → Increment E
  taken_back i = record i { out_state = submitted; out_settled_at = 0 }

  abbrev pub inbound_lost : Increment E → Increment E
  inbound_lost i = record i { in_state = pending; in_settled_at = 0 }

  unfoldable pub with_inbound : String → ℕ → ℕ → ℕ → Increment E → Increment E
  with_inbound hash depth required time i =
      if leb required depth
      then record i { in_tx_hash = hash; in_state = settled; in_settled_at = time }
      else record i { in_tx_hash = hash }

  abbrev pub without_deadline : Increment E → Increment E
  without_deadline i = record i { deadline_height = 0 }

  abbrev pub not_completed : Increment E → Increment E
  not_completed i = record i { completed_height = 0 }

-- `depth is None or depth < required`
unfoldable pub is_short : Option ℕ → ℕ → Bool
is_short none required = true
is_short (some depth) required = ltb depth required

module _ {w : World} where
  unfoldable pub unpropagate_deadline : Action w (Unit {0})
  unpropagate_deadline =
      the_inc >>= λ i. if i.completed_height == 0 then done else undo i.completed_height
    where
      undo : ℕ → Action w (Unit {0})
      undo stale_height = do
        save_with not_completed
        trade ← the_trade
        save_next (λ next. next.deadline_height == deadline_height stale_height trade.confirm_depth)
            without_deadline

  unfoldable pub judge_outbound : String → ℕ → Option ℕ → Action w (Unit {0})
  judge_outbound hash required none = save_with taken_back >> unpropagate_deadline
  judge_outbound hash required (some depth) = record_outbound hash depth required

  unfoldable pub check_sent : String → Action w (Unit {0})
  check_sent hash = do
    trade ← the_trade
    depth ← ask (w.confirmations (out_asset trade) hash)
    judge_outbound hash (required_depth w.min_confirm_depth trade (out_asset trade)) depth

  unfoldable pub check_outbound : Action w (Unit {0})
  check_outbound =
      the_inc >>= λ i. if str_eq i.out_tx_hash "" then done else check_sent i.out_tx_hash

  unfoldable pub recheck_inbound : ℕ → Option ℕ → Action w (Unit {0})
  recheck_inbound required depth =
      if is_short depth required then save_with inbound_lost >> unpropagate_deadline else done

  unfoldable pub judge_inbound : ℕ → Option (String × ℕ) → Action w (Unit {0})
  judge_inbound required none = done
  judge_inbound required (some (hash, depth)) =
      now >>= λ time. save_with (with_inbound hash depth required time)

  unfoldable pub find_inbound : Trade → ℕ → Terms → Action w (Unit {0})
  find_inbound trade required t = ask (w.find_payment (in_asset trade) t) >>= judge_inbound required

  unfoldable pub watch_inbound : Trade → ℕ → Increment w.Envelope → Terms → Action w (Unit {0})
  watch_inbound trade required i t =
      if is_settled i.in_state && not (str_eq i.in_tx_hash "")
      then ask (w.confirmations (in_asset trade) i.in_tx_hash) >>= recheck_inbound required
      else find_inbound trade required t

  unfoldable pub check_inbound : Action w (Unit {0})
  check_inbound = do
    i ← the_inc
    trade ← the_trade
    t ← in_terms trade trade.i_send i
    watch_inbound trade (required_depth w.min_confirm_depth trade (in_asset trade)) i t
