-- ===== src/Mempool.antt =====
-- src/mempool.py: the pending transactions, by hash, and the number of bytes that they take.
pub mod Overlay
pub mod Evict
pub mod Bounds
pub mod Admit
pub mod Probe
use lapsecoin.Prelude.{
  ℕ, ◌+◌, ◌-◌, ◌*◌, String, Bool, true, false, ◌||◌, Option, none, some, List, [], ◌∷◌, map, length,
  str_eq, leb, ltb, if◌then◌else◌,
}
use lapsecoin.Prelude.Int.{ℤ, pos, ◌+ℤ◌, ◌-ℤ◌, leb_ℤ, ltb_ℤ}
use lapsecoin.Prelude.Result.{
  Result, ok, raised, overflow_error, ◌>>=◌, ◌>>◌, refuse_if, duplicate, mempool_full,
}
use lapsecoin.Params.{block_size_limit}
use lapsecoin.Dict.{Dict, lookup, contains, insert, erase}
use lapsecoin.Json.{Json, Fields, obj}
use lapsecoin.Crypto.{Crypto}
use lapsecoin.Tx.{tx_hash, tx_size, int_field, sender}
use lapsecoin.State.{State, get_nonce}
use lapsecoin.Block.{tx_fee}

abbrev pub mempool_max_bytes : ℕ
mempool_max_bytes = 10 * block_size_limit

-- Python's floats, as far as the fee rates use them: `fee / max(size, 1)`, `none` where the division
-- overflows, and `>=`.
pub record Rates : Type 1 where
  pub Rate : Type 0
  pub rate_of : ℤ → ℕ → Option Rate
  pub at_least : Rate → Rate → Bool

module _ (rates : Rates) where
  open rates use {Rate}

  -- `entered` is what the monotonic clock showed.
  pub record Entry : Type 0 where
    pub tx : Fields
    pub entered : ℕ
    pub size : ℕ
    pub fee_rate : Rate

  pub record Mempool : Type 0 where
    pub pool : Dict Entry
    pub total_bytes : ℤ

  abbrev pub or_overflow : Option Rate → Result Rate
  or_overflow none = raised overflow_error
  or_overflow (some q) = ok q

  unfoldable pub entry_of : Crypto → ℕ → Fields → Result Entry
  entry_of c now tx = do
    let size = tx_size c tx
    fee ← tx_fee (obj tx)
    q ← or_overflow (rates.rate_of fee size)
    ok (record { tx = tx; entered = now; size = size; fee_rate = q })

  -- `sorted(self._pool.items(), key=fee_rate)`, which is stable.
  unfoldable pub insert_by_rate : String → Entry → Dict Entry → Dict Entry
  insert_by_rate h e [] = (h, e) ∷ []
  insert_by_rate h e ((h2, other) ∷ d) =
      let rest = insert_by_rate h e d in
      if rates.at_least other.fee_rate e.fee_rate
      then (h, e) ∷ (h2, other) ∷ d
      else (h2, other) ∷ rest

  unfoldable pub by_worst_first : Dict Entry → Dict Entry
  by_worst_first [] = []
  by_worst_first ((h, e) ∷ d) = insert_by_rate h e (by_worst_first d)

  -- The loop over the worst: what it evicts, and the bytes that this frees.
  unfoldable pub scan : ℤ → Rate → ℕ → Dict Entry → Dict Entry × ℕ
  scan overflow q freed [] = ([], freed)
  scan overflow q freed ((h, other) ∷ d) =
      let (evict, freed') = scan overflow q (freed + other.size) d in
      if leb_ℤ overflow (pos freed)
      then ([], freed)
      else if rates.at_least other.fee_rate q
      then ([], freed)
      else ((h, other) ∷ evict, freed')

  abbrev pub enough : ℤ → Dict Entry × ℕ → Result (Dict Entry)
  enough overflow (evict, freed) = do refuse_if (ltb_ℤ (pos freed) overflow) mempool_full; ok evict

  unfoldable pub to_evict : Mempool → Entry → Result (Dict Entry)
  to_evict p e =
      let overflow = p.total_bytes +ℤ pos e.size -ℤ pos mempool_max_bytes in
      if ltb_ℤ (pos 0) overflow
      then enough overflow (scan overflow e.fee_rate 0 (by_worst_first p.pool))
      else ok []

  abbrev pub popped : Option Entry → String → Mempool → Mempool
  popped none h p = p
  popped (some e) h p = record p {
    pool = erase h p.pool;
    total_bytes = p.total_bytes -ℤ pos e.size;
  }

  unfoldable pub remove : String → Mempool → Mempool
  remove h p = popped (lookup h p.pool) h p

  unfoldable pub remove_many : List String → Mempool → Mempool
  remove_many [] p = p
  remove_many (h ∷ hs) p = remove_many hs (remove h p)

  unfoldable pub hashes : Dict Entry → List String
  hashes [] = []
  hashes ((h, e) ∷ d) = h ∷ hashes d

  unfoldable pub put : String → Entry → Mempool → Mempool
  put h e p = record p { pool = insert h e p.pool; total_bytes = p.total_bytes +ℤ pos e.size }

  -- `(False, reason)` leaves the mempool as it was.
  unfoldable pub add : Crypto → ℕ → Fields → Mempool → Result (Mempool × String)
  add c now tx p = do
    let h = tx_hash c tx
    refuse_if (contains h p.pool) duplicate
    e ← entry_of c now tx
    evict ← to_evict p e
    ok (put h e (remove_many (hashes evict) p), h)

  -- `prune_stale`: a nonce that the chain has passed, or an age past the limit.
  unfoldable pub stale : State → ℕ → ℕ → Dict Entry → Result (List String)
  stale s now ttl [] = ok []
  stale s now ttl ((h, e) ∷ d) = do
    nonce ← int_field "nonce" e.tx
    from ← sender e.tx
    rest ← stale s now ttl d
    ok (if leb_ℤ nonce (get_nonce s from) || ltb ttl (now - e.entered) then h ∷ rest else rest)

  unfoldable pub prune_stale : State → ℕ → ℕ → Mempool → Result (Mempool × List String)
  prune_stale s now ttl p = do pruned ← stale s now ttl p.pool; ok (remove_many pruned p, pruned)
