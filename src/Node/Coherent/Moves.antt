-- ===== src/Node/Coherent/Moves.antt =====
-- The moves of src/node.py keep its states coherent: a block that it commits, and a chain that it
-- takes from a peer, resumed from a kept state.
use lapsecoin.Prelude.{
  ℕ, ◌≡◌, ◌≢◌, refl, sym, ap, ◌∙◌, [], ◌∷◌, ◌++◌, arith, All, length, length-append,
}
use mathlib.Core.Path.{subst}
use lapsecoin.Prelude.Result.{ok, ◌>>=◌, >>=-eq-ok, ok-injective}
use lapsecoin.Tx.Signature.{LruCache}
use lapsecoin.State
use lapsecoin.State.{State}
use lapsecoin.Block.{Block, World}
use lapsecoin.Chain.{
  ChainState, replay_block, apply_all, apply_to_state, apply_block, apply_block_with_state,
}
use lapsecoin.Chain.Replay.{
  Replays, replay-append, cumulative-append, cumulative-one, replay_block-eq,
}
use lapsecoin.Mempool.{Rates}
use lapsecoin.Node.{Recent}
use lapsecoin.Node.Judge.{VerdictCache}
use lapsecoin.Node.Live.{Live, commit, switch_to, hashes_of}
use lapsecoin.Node.Coherent.{
  Kept, IsCoherent, take-all, take-append, Kept-prefix, switch_to-IsCoherent, append-IsBuilt,
}

module _ (cs : ChainState) (blk : Block) where
  apply_block-Replays :
      {cs' : ChainState}
      → Replays cs
      → blk.height ≢ 0
      → apply_block cs blk ≡ ok cs'
      → Replays cs' × (cs'.chain ≡ cs.chain ++ blk ∷ [])
  unfolding apply_block apply_block_with_state
  apply_block-Replays {cs' = cs'} r h e =
      let (probe, e0, r0) = >>=-eq-ok (apply_all blk.transactions cs.state) _ e in
      let (s, e1, r1) = >>=-eq-ok (apply_to_state probe blk) _ r0 in
      let same = ok-injective r1 in
      subst (λ (c : ChainState). Replays c × (c.chain ≡ cs.chain ++ blk ∷ [])) same
        (
          record {
            state-eq =
                replay-append cs.chain blk State.empty
                ∙ ap (λ q. q >>= replay_block blk) r.state-eq
                ∙ replay_block-eq blk cs.state probe s h e0 e1;
            iterations-eq =
                cumulative-append cs.chain blk
                ∙ omega (arith, r.iterations-eq, cumulative-one blk h);
          },
          refl,
        )

  -- What is kept stays right when a block is added.
  append-Kept : (r : Recent) → All (Kept cs.chain) r → All (Kept (cs.chain ++ blk ∷ [])) r
  append-Kept [] a = tt
  append-Kept (e ∷ r) a = (
    Kept-prefix cs.chain (cs.chain ++ blk ∷ []) (length cs.chain) e a.0 a.0.inside
        (take-all cs.chain ∙ sym (take-append cs.chain (blk ∷ [])))
        (omega (arith, length-append cs.chain (blk ∷ []))),
    append-Kept r a.1,
  )

module _ (w : World) (lru : LruCache) (vc : VerdictCache) (rates : Rates) where
  -- Committing a block whose height is the next one keeps every state that the node has kept equal
  -- to a replay of its chain.
  pub commit-IsCoherent :
      (window time : ℕ) (blk : Block) (live : Live w lru vc rates) {after : Live w lru vc rates}
      → IsCoherent live.node
      → blk.height ≡ length live.node.cs.chain
      → commit w lru vc rates window time blk live ≡ ok after
      → IsCoherent after.node
  unfolding commit
  commit-IsCoherent window time blk live c h e =
      let (confirmed, e0, r0) = >>=-eq-ok (hashes_of w blk.transactions) _ e in
      let (cs, e1, r1) = >>=-eq-ok (apply_block live.node.cs blk) _ r0 in
      let (node, e2, r2) = >>=-eq-ok (switch_to cs live.node) _ r1 in
      let (r, chain-eq) =
        apply_block-Replays live.node.cs blk c.built.replays
          (λ z. absurd (omega (arith, z, h, c.built.nonempty))) e1 in
      subst (λ (l : Live w lru vc rates). IsCoherent l.node) (ok-injective r2)
        (switch_to-IsCoherent cs live.node (append-IsBuilt live.node.cs cs blk c.built r chain-eq h)
          (subst (λ l. All (Kept l) live.node.recent) (sym chain-eq)
            (append-Kept live.node.cs blk live.node.recent c.kept))
          e2)
