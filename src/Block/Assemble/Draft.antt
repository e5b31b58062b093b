-- ===== src/Block/Assemble/Draft.antt =====
-- `assemble` of src/block.py around its packing loop: which pending transactions may enter a block,
-- and in which order; and what `_run_cycle` of src/node.py adds to the block once it has the proof.
-- A pending transaction is a dict whose sender is a text.
use lapsecoin.Prelude.{
  ℕ, ◌+◌, String, Bool, true, false, none, some, List, [], ◌∷◌, ◌++◌, map, str_eq, ◌==◌,
  if◌then◌else◌,
}
use lapsecoin.Prelude.Int.{ℤ, pos, ◌+ℤ◌, ◌-ℤ◌, ltb_ℤ}
use lapsecoin.Prelude.Result.{Result, ok, raised, index_error, ◌>>=◌}
use lapsecoin.Params.{min_block_spacing_seconds}
use lapsecoin.Json.{Fields, str, int, obj, field, end}
use lapsecoin.Tx.{tx_size, sender, is_board_post}
use lapsecoin.Block.{Block, World, or_missing, tx_fee, create, block_size}
use lapsecoin.Block.Assemble.{pack}
use lapsecoin.Mempool.{Rates, or_overflow}
use lapsecoin.Mempool.Probe.{with_nonces, sort_by_nonce}

-- `is_board_post(t) and t.get("fee", 0) < board_fee_floor`
abbrev pub under_floor : ℕ → Fields → Bool → Result Bool
under_floor floor t false = ok false
under_floor floor t true = do fee ← tx_fee (obj t); ok (ltb_ℤ fee (pos floor))

-- The posts on the board whose fee is under the floor are left out.
unfoldable pub above_floor : ℕ → List Fields → Result (List Fields)
above_floor floor [] = ok []
above_floor floor (t ∷ ts) = do
  post ← is_board_post t
  drop ← under_floor floor t post
  rest ← above_floor floor ts
  ok (if drop then rest else t ∷ rest)

-- `by_sender.setdefault(t.get("from"), []).append(t)`
unfoldable pub add_to : String → Fields → List (String × List Fields) → List (String × List Fields)
add_to from t [] = (from, t ∷ []) ∷ []
add_to from t ((k, group) ∷ d) =
    let rest = add_to from t d in
    if str_eq k from then (k, group ++ t ∷ []) ∷ d else (k, group) ∷ rest

unfoldable pub by_sender :
    List Fields → List (String × List Fields) → Result (List (String × List Fields))
by_sender [] d = ok d
by_sender (t ∷ ts) d = do from ← sender t; by_sender ts (add_to from t d)

-- `group.sort(key=lambda t: t["nonce"])`, for each group.
unfoldable pub sort_groups : List (String × List Fields) → Result (List (List Fields))
sort_groups [] = ok []
sort_groups ((k, group) ∷ d) = do
  l ← with_nonces group
  rest ← sort_groups d
  ok (map (λ e. e.1) (sort_by_nonce l) ∷ rest)

-- `max(_time.time(), tip["timestamp"] + MIN_BLOCK_SPACING_SECONDS)`
abbrev pub later_of : ℤ → ℤ → ℤ
later_of a b = if ltb_ℤ a b then b else a

module _ (w : World) (rates : Rates) where
  open rates use {Rate}

  -- `g[0].get("fee", 0) / max(tx_mod.tx_size(g[0]), 1)`
  abbrev pub lead_rate : List Fields → Result Rate
  lead_rate [] = raised index_error
  lead_rate (t ∷ group) = do
    fee ← tx_fee (obj t)
    or_overflow rates (rates.rate_of fee (tx_size w.crypto t))

  unfoldable pub with_rates : List (List Fields) → Result (List (Rate × List Fields))
  with_rates [] = ok []
  with_rates (g ∷ groups) = do q ← lead_rate g; rest ← with_rates groups; ok ((q, g) ∷ rest)

  -- `sorted(..., reverse=True)`, which is stable.
  unfoldable pub insert_by_lead :
      Rate → List Fields → List (Rate × List Fields) → List (Rate × List Fields)
  insert_by_lead q g [] = (q, g) ∷ []
  insert_by_lead q g ((p, h) ∷ l) =
      let rest = insert_by_lead q g l in
      if rates.at_least q p then (q, g) ∷ (p, h) ∷ l else (p, h) ∷ rest

  unfoldable pub best_first : List (Rate × List Fields) → List (Rate × List Fields)
  best_first [] = []
  best_first ((q, g) ∷ l) = insert_by_lead q g (best_first l)

  abbrev pub skeleton : Block → String → ℤ → String → ℕ → Block
  skeleton tip parent ts builder iterations = create w (record {
    height = tip.height + 1;
    previous_hash = parent;
    timestamp = some ts;
    transactions = [];
    builder = str builder;
    vdf_output = none;
    vdf_proof = none;
    claimed_iterations = some iterations;
    hash = none;
    extra = end;
  })

  -- The skeleton with what was packed, and without its hash.
  abbrev pub filled : Block → List Fields × ℕ → Block
  filled s (valid_txs, running) = record s {
    transactions = map obj valid_txs;
    hash = none;
    extra = field "tx_bytes" (int (pos running -ℤ pos (block_size w s))) end;
  }

  unfoldable pub assemble : ℤ → Block → List Fields → String → ℕ → ℕ → Result Block
  unfolding pack
  assemble now tip txs builder iterations floor = do
    kept ← if floor == 0 then ok txs else above_floor floor txs
    parent_ts ← or_missing tip.timestamp
    parent ← or_missing tip.hash
    let ts = later_of now (parent_ts +ℤ pos min_block_spacing_seconds)
    let s = skeleton tip parent ts builder iterations
    senders ← by_sender kept []
    groups ← sort_groups senders
    rated ← with_rates groups
    ok (filled s (pack w.crypto (block_size w s) 0 (map (λ e. e.1) (best_first rated))))

  -- `_run_cycle`: the proof, the count and the hash are set once the block is packed.
  unfoldable pub finished : String → String → ℕ → Block → Block
  finished output proof iterations blk = create w (record blk {
    vdf_output = some output;
    vdf_proof = some proof;
    claimed_iterations = some iterations;
  })
