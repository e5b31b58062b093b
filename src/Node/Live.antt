-- ===== src/Node/Live.antt =====
-- How src/node.py changes its chain: a block that it commits, and a better chain that it takes, with
-- what becomes of the pending transactions. Writing to the disk and sending to peers are left out.
pub mod Inbound
pub mod Sibling
pub mod Moved
pub mod Relay
use lapsecoin.Prelude.{
  ℕ, ◌+◌, ◌-◌, String, Bool, true, false, ◌||◌, Option, none, some, List, [], ◌∷◌, ◌++◌, str_eq,
  length, if◌then◌else◌,
}
use lapsecoin.Prelude.Int.{ℤ}
use lapsecoin.Prelude.Result.{
  Result, Check, Reason, ok, refused, raised, ◌>>=◌, not_better, attribute_error,
}
use lapsecoin.Json.{Json, Fields, obj}
use lapsecoin.Tx.{tx_hash}
use lapsecoin.Tx.Signature.{LruCache}
use lapsecoin.Tx.Validate
use lapsecoin.State.{State, view}
use lapsecoin.Block.{Block, World}
use lapsecoin.Chain.{ChainState, apply_block}
use lapsecoin.Chain.Fork.Search.{first_difference}
use lapsecoin.Mempool.{Rates, Mempool, add, remove_many}
use lapsecoin.Node.{Node, drop, remember_state, forget_states_from, evaluate_remote_chain}
use lapsecoin.Node.Judge.{VerdictCache, Memory}
use lapsecoin.Node.Draw.{Draw, open_draw}

-- `self.cs = cs` and `self._remember_state(self.cs)`
unfoldable pub switch_to : ChainState → Node → Result Node
switch_to cs node = remember_state cs (record node { cs = cs })

-- `{tx_mod.tx_hash(t) for t in txs}`; a transaction that is no dict raises.
unfoldable pub hashes_of : World → List Json → Result (List String)
hashes_of w [] = ok []
hashes_of w (obj t ∷ ts) = do rest ← hashes_of w ts; ok (tx_hash w.crypto t ∷ rest)
hashes_of w (_ ∷ ts) = raised attribute_error

unfoldable pub txs_in : List Block → List Json
txs_in [] = []
txs_in (b ∷ blocks) = b.transactions ++ txs_in blocks

abbrev pub among : String → List String → Bool
among h [] = false
among h (k ∷ ks) = str_eq h k || among h ks

-- `err == self._NOT_BETTER`
abbrev pub is_not_better : Reason → Bool
is_not_better not_better = true
is_not_better _ = false

module _ (w : World) (lru : LruCache) (vc : VerdictCache) (rates : Rates) where
  open lru use {Cache}

  -- The strongest claim of a longer chain: who made it and for which height.
  pub record Hint : Type 0 where
    pub peer : Option String
    pub reached : ℕ

  pub record Live : Type 0 where
    pub node : Node
    pub pool : Mempool rates
    pub draw : Draw
    pub memory : Memory w lru vc
    pub hint : Hint

  -- `_commit`: the mempool loses what the block confirms, and the block's height is open for its draw.
  unfoldable pub commit : ℕ → ℕ → Block → Live → Result Live
  unfolding open_draw
  commit window time blk live = do
    confirmed ← hashes_of w blk.transactions
    cs ← apply_block live.node.cs blk
    node ← switch_to cs live.node
    ok (record live {
      node = node;
      pool = remove_many rates confirmed live.pool;
      draw = open_draw window blk.height time live.draw;
    })

  abbrev pub Readded : Type 0
  Readded = Check × (Mempool rates × Cache)

  abbrev pub added_to :
      Result (Mempool rates × String)
      → Mempool rates
      → Cache
      → (Mempool rates → Cache → Readded)
      → Readded
  added_to (ok (p, h)) old m rest = rest p m
  added_to (refused e) old m rest = rest old m
  added_to (raised x) old m rest = (raised x, (old, m))

  -- What follows the validation of one transaction: `add` it, pass over it, or stop.
  abbrev pub readd_if :
      Check × Cache → ℕ → Fields → Mempool rates → (Mempool rates → Cache → Readded) → Readded
  readd_if (ok u, m) time t p rest = added_to (add rates w.crypto time t p) p m rest
  readd_if (refused e, m) time t p rest = rest p m
  readd_if (raised x, m) time t p rest = (raised x, (p, m))

  -- `_readd_valid_txs`; the transactions that come back are also sent to the peers.
  unfoldable pub readd_valid_txs :
      ℕ → List Json → List String → State → Mempool rates → Cache → Readded
  readd_valid_txs time [] excluded s p m = (ok tt, (p, m))
  readd_valid_txs time (obj t ∷ ts) excluded s p m =
      if among (tx_hash w.crypto t) excluded
      then readd_valid_txs time ts excluded s p m
      else readd_if (Validate.validate w.crypto lru t (view s) none m) time t p
          (λ p' m'. readd_valid_txs time ts excluded s p' m')
  readd_valid_txs time (_ ∷ ts) excluded s p m = (raised attribute_error, (p, m))

  abbrev pub readd_unless :
      Result (List String) → ℕ → List Json → State → Mempool rates → Cache → Readded
  readd_unless (ok confirmed) time txs s p m = readd_valid_txs time txs confirmed s p m
  readd_unless (refused e) time txs s p m = (refused e, (p, m))
  readd_unless (raised x) time txs s p m = (raised x, (p, m))

  -- `_salvage_fork_txs`: what the chain that lost had and ours has not.
  unfoldable pub salvage_fork_txs : ℕ → ℕ → List Block → Node → Mempool rates → Cache → Readded
  unfolding readd_valid_txs
  salvage_fork_txs time fork tail node p m =
      readd_unless (hashes_of w (txs_in (drop fork node.cs.chain))) time (txs_in tail) node.cs.state
        p m

  abbrev pub reorged :
      Result (List String) → ℕ → List Json → State → Mempool rates → Cache → Readded
  reorged (ok confirmed) time txs s p m =
      readd_valid_txs time txs confirmed s (remove_many rates confirmed p) m
  reorged (refused e) time txs s p m = (refused e, (p, m))
  reorged (raised x) time txs s p m = (raised x, (p, m))

  -- `_reorg_mempool`: what the branch that is given up had and the new chain has not.
  unfoldable pub reorg_mempool :
      ℕ → ℕ → List Block → List Block → State → Mempool rates → Cache → Readded
  unfolding readd_valid_txs
  reorg_mempool time fork old new s p m =
      reorged (hashes_of w (txs_in (drop fork new))) time (txs_in (drop fork old)) s p m

  abbrev pub with_pool : Mempool rates × Cache → Live → Live
  with_pool (p, m) live = record live { pool = p; memory = record live.memory { signatures = m } }

  abbrev pub with_signatures : Cache → Live → Live
  with_signatures m live = record live { memory = record live.memory { signatures = m } }

  -- The `except Exception` around `_reorg_mempool`: the chain stays changed whatever it raises.
  abbrev pub taken : ℕ → ℕ → List Block → ChainState → Result Node → Live → Check × Live
  taken time fork remote cs (ok node) live =
      let (r, left) =
        reorg_mempool time fork live.node.cs.chain remote cs.state live.pool
          live.memory.signatures in
      (ok tt, with_pool left (record live { node = node }))
  taken time fork remote cs (refused e) live = (refused e, live)
  taken time fork remote cs (raised x) live = (raised x, live)

  -- `if fork_point is not None and tail`: the chain is valid and no better, and has blocks of its own.
  abbrev pub salvaged : ℕ → ℕ → List Block → Live → Check × Live
  salvaged time fork [] live = (refused not_better, live)
  salvaged time fork (b ∷ tail) live =
      let (r, left) =
        salvage_fork_txs time fork (b ∷ tail) live.node live.pool live.memory.signatures in
      ((do u ← r; refused not_better), with_pool left live)

  abbrev pub not_taken : Reason → ℕ → ℕ → List Block → Live → Check × Live
  not_taken e time fork tail live =
      if is_not_better e then salvaged time fork tail live else (refused e, live)

  abbrev pub settled : Result ChainState → ℕ → ℕ → List Block → Live → Check × Live
  settled (ok cs) time fork remote live =
      taken time fork remote cs (switch_to cs (forget_states_from fork live.node)) live
  settled (refused e) time fork remote live = not_taken e time fork (drop fork remote) live
  settled (raised x) time fork remote live = (raised x, live)

  unfoldable pub apply_better_chain : (ℕ → ℤ) → ℕ → List Block → Live → Check × Live
  unfolding salvage_fork_txs reorg_mempool
  apply_better_chain clock time remote live =
      let (r, m) = evaluate_remote_chain w lru live.node clock remote live.memory.signatures in
      settled r time (first_difference live.node.cs.chain remote) remote (with_signatures m live)

  -- `True`, `False` or `None`
  abbrev pub page_verdict : Check → Result (Option Bool)
  page_verdict (ok u) = ok (some true)
  page_verdict (refused e) = ok (if is_not_better e then none else some false)
  page_verdict (raised x) = raised x

  unfoldable pub sync_page_outcome : (ℕ → ℤ) → ℕ → List Block → Live → Result (Option Bool) × Live
  sync_page_outcome clock time chain live =
      let (r, live') = apply_better_chain clock time chain live in (page_verdict r, live')
