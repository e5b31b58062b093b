-- ===== src/Tests/Pending.antt =====
-- Runs of src/mempool.py on the payment of Tests/Data.
use lapsecoin.Prelude.{String, ◌≡◌, refl, some, List, [], ◌∷◌, arith}
use lapsecoin.Prelude.Int.{ℤ, pos, ◌+ℤ◌, ◌-ℤ◌, leb_ℤ}
use lapsecoin.Prelude.Result.{ok}
use lapsecoin.Dict.{lookup}
use lapsecoin.Json
use lapsecoin.Tx
use lapsecoin.Tx.{tx_hash}
use lapsecoin.Block
use lapsecoin.State
use lapsecoin.State.{State}
use lapsecoin.State.Ledger.{IsLedger}
use lapsecoin.Chain
use lapsecoin.Mempool
use lapsecoin.Mempool.{Rates, Entry, Mempool, entry_of, add, prune_stale, remove_many}
use lapsecoin.Mempool.Bounds.{IsPool}
use lapsecoin.Mempool.Admit.{add-IsPool}
use lapsecoin.Mempool.Overlay.{Overlay}
use lapsecoin.Mempool.Overlay.Agrees.{Agrees}
use lapsecoin.Mempool.Probe
use lapsecoin.Mempool.Probe.{in_nonce_order, probe_state_for, probe_state_for-Agrees}
use lapsecoin.Tests.Data.{crypto, payment, alice, funded, value_or}

-- The fee itself as the rate.
abbrev pub by_fee : Rates
by_fee = record { Rate = ℤ; rate_of = λ fee size. some fee; at_least = λ a b. leb_ℤ b a }

abbrev pub no_txs : Mempool by_fee
no_txs = record { pool = []; total_bytes = pos 0 }

no_txs-IsPool : IsPool by_fee no_txs
no_txs-IsPool = record { sized = record { keyed = tt; total-eq = refl }; bounded = omega arith }

abbrev added : Mempool by_fee × String
unfolding Tx.tx_hash Tx.tx_size Tx.unsigned Block.tx_fee Mempool.entry_of Mempool.to_evict
    Mempool.remove_many Mempool.hashes Mempool.put Mempool.add ◌+ℤ◌ ◌-ℤ◌
added = value_or (no_txs, "") (add by_fee crypto 40 payment no_txs)

payment_added : add by_fee crypto 40 payment no_txs ≡ ok (added.0, added.1)
unfolding Tx.tx_hash Tx.tx_size Tx.unsigned Block.tx_fee Mempool.entry_of Mempool.to_evict
    Mempool.remove_many Mempool.hashes Mempool.put Mempool.add ◌+ℤ◌ ◌-ℤ◌
payment_added = refl

add-IsPool_example :
    IsPool by_fee added.0
    × (added.1 ≡ tx_hash crypto payment)
    × ((e : Entry by_fee) × (lookup (tx_hash crypto payment) added.0.pool ≡ some e)
        × (entry_of by_fee crypto 40 payment ≡ ok e))
add-IsPool_example = add-IsPool by_fee crypto 40 payment no_txs no_txs-IsPool payment_added

-- After the payment has been applied, its nonce is stale.
abbrev pruned : Mempool by_fee × List String
unfolding Json.subscript Tx.is_board_post Tx.sum_amounts Tx.sender Tx.outputs Tx.int_field
    State.credit State.debit State.set_nonce State.credit_outputs State.apply_tx ◌+ℤ◌ ◌-ℤ◌ added
    Mempool.stale Mempool.prune_stale Mempool.remove Mempool.remove_many
pruned =
    value_or (no_txs, [])
      (prune_stale by_fee (value_or funded (State.apply_tx payment funded)) 50 1000 added.0)

funded-held : IsLedger funded
funded-held = record { keyed = (refl, tt); positive = (omega arith, tt) }

abbrev paid : State
unfolding Json.subscript Tx.is_board_post Tx.sum_amounts Tx.sender Tx.outputs Tx.int_field
    State.credit State.debit State.set_nonce State.credit_outputs State.apply_tx ◌+ℤ◌
paid = value_or funded (State.apply_tx payment funded)

payment_runs :
    (State.apply_tx payment funded ≡ ok paid)
    × (in_nonce_order by_fee alice added.0 ≡ ok (payment ∷ []))
    × (Chain.apply_all (Json.obj payment ∷ []) funded ≡ ok paid)
unfolding Json.subscript Tx.is_board_post Tx.sum_amounts Tx.sender Tx.outputs Tx.int_field
    State.credit State.debit State.set_nonce State.credit_outputs State.apply_tx ◌+ℤ◌
    Chain.apply_all added Probe.with_nonces Probe.insert_by_nonce Probe.sort_by_nonce Probe.pending
    Probe.in_nonce_order paid
payment_runs = (refl, refl, refl)

probe_state_for-Agrees_example :
    (o : Overlay) × (probe_state_for by_fee alice funded added.0 ≡ ok o) × Agrees o paid
probe_state_for-Agrees_example =
    probe_state_for-Agrees by_fee alice funded added.0 (payment ∷ []) funded-held payment_runs.1
      payment_runs.2
