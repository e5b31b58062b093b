-- ===== src/Node/Coherent/Adopts.antt =====
-- What src/node.py keeps when it takes a better chain, and the chain that it then has.
use mathlib.Core.Path.{subst}
use lapsecoin.Prelude.{ℕ, ◌≡◌, refl, sym, List, [], ◌∷◌, arith, All, take, leb, if-cases}
use lapsecoin.Prelude.Int.{ℤ}
use lapsecoin.Prelude.Result.{Result, Check, ok, refused, raised}
use lapsecoin.Tx.Signature.{LruCache}
use lapsecoin.Block.{Block, World}
use lapsecoin.Chain.{ChainState}
use lapsecoin.Chain.Fork.Search.{first_difference}
use lapsecoin.Chain.Grow.{NotGenesis}
use lapsecoin.Mempool.{Rates}
use lapsecoin.Node.{Node, Recent, drop, below, forget_states_from, evaluate_remote_chain}
use lapsecoin.Node.Adopt.{evaluate_remote_chain-built}
use lapsecoin.Node.Judge.{VerdictCache}
use lapsecoin.Node.Live.{
  Live, is_not_better, switch_to, taken, salvaged, settled, with_signatures, apply_better_chain,
}
use lapsecoin.Node.Coherent.{IsCoherent, Kept, Kept-prefix, switch_to-IsCoherent}
use lapsecoin.Node.Coherent.Grown.{Grown}
use lapsecoin.Node.Coherent.Resume.{build_remote-Grown}

-- What is below the fork stays right.
below-Kept :
    (fork : ℕ) (own : List Block) (cs : ChainState)
    → Grown own fork cs
    → (r : Recent) → All (Kept own) r
    → All (Kept cs.chain) (below fork r)
below-Kept fork own cs g [] a = tt
below-Kept fork own cs g ((i, v) ∷ r) a =
    if-cases (All (Kept cs.chain)) (below fork r) ((i, v) ∷ below fork r) (leb fork i)
      (λ _. below-Kept fork own cs g r a.1)
      (λ h. (
        Kept-prefix own cs.chain fork (i, v) a.0 (ground arith) (sym g.same) g.long,
        below-Kept fork own cs g r a.1,
      ))

module _ (w : World) (lru : LruCache) (vc : VerdictCache) (rates : Rates) where
  open lru use {Cache}

  taken-IsCoherent :
      (time fork : ℕ) (remote : List Block) (cs : ChainState) (n : Result Node)
      (live : Live w lru vc rates)
      → IsCoherent live.node
      → ((node : Node) → n ≡ ok node → IsCoherent node)
      → IsCoherent (taken w lru vc rates time fork remote cs n live).1.node
  taken-IsCoherent time fork remote cs (ok node) live c next = next node refl
  taken-IsCoherent time fork remote cs (refused e) live c next = c
  taken-IsCoherent time fork remote cs (raised x) live c next = c

  salvaged-node :
      (time fork : ℕ) (tail : List Block) (live : Live w lru vc rates)
      → (salvaged w lru vc rates time fork tail live).1.node ≡ live.node
  salvaged-node time fork [] live = refl
  salvaged-node time fork (b ∷ tail) live = refl

  settled-IsCoherent :
      (r : Result ChainState) (time : ℕ) (remote : List Block) (live : Live w lru vc rates)
      → let fork = first_difference live.node.cs.chain remote in
        IsCoherent live.node
        → ((cs : ChainState) → r ≡ ok cs → Grown live.node.cs.chain fork cs)
        → IsCoherent (settled w lru vc rates r time fork remote live).1.node
  unfolding forget_states_from
  settled-IsCoherent (ok cs) time remote live c g =
      let fork = first_difference live.node.cs.chain remote in
      let grown : Grown live.node.cs.chain fork cs = g cs refl in
      taken-IsCoherent time fork remote cs (switch_to cs (forget_states_from fork live.node)) live c
        (λ node e.
          switch_to-IsCoherent cs (forget_states_from fork live.node) grown.is_built
            (below-Kept fork live.node.cs.chain cs grown live.node.recent c.kept) e)
  settled-IsCoherent (refused x) time remote live c g =
      let fork = first_difference live.node.cs.chain remote in
      if-cases (λ (s : Check × Live w lru vc rates). IsCoherent s.1.node)
        (salvaged w lru vc rates time fork (drop fork remote) live) (refused x, live)
        (is_not_better x)
        (λ _. subst IsCoherent (sym (salvaged-node time fork (drop fork remote) live)) c) (λ _. c)
  settled-IsCoherent (raised x) time remote live c g = c

  -- Whatever chain a node is offered, it keeps a replayable chain, and every state in its cache is
  -- what a replay of its chain up to that height gives, if the chain offered is the node's own up
  -- to the first difference of the hashes and no block after it claims height 0.
  pub apply_better_chain-IsCoherent :
      (clock : ℕ → ℤ) (time : ℕ) (remote : List Block) (live : Live w lru vc rates)
      → let fork = first_difference live.node.cs.chain remote in
        IsCoherent live.node
        → take fork remote ≡ take fork live.node.cs.chain
        → All NotGenesis (drop fork remote)
        → IsCoherent (apply_better_chain w lru vc rates clock time remote live).1.node
  unfolding apply_better_chain
  apply_better_chain-IsCoherent clock time remote live c agree a =
      settled-IsCoherent
        (evaluate_remote_chain w lru live.node clock remote live.memory.signatures).0 time remote
        (with_signatures w lru vc rates
          (evaluate_remote_chain w lru live.node clock remote live.memory.signatures).1 live)
        c
        (λ cs e.
          build_remote-Grown w lru live.node c remote clock live.memory.signatures agree a
            (evaluate_remote_chain-built w lru live.node clock remote live.memory.signatures e))
