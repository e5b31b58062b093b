-- ===== src/Node/Adopt.antt =====
-- What the adoption of a peer's chain and the cache of states in src/node.py guarantee.
pub mod Built
use lapsecoin.Prelude.{
  ℕ, ◌≤◌, ◌≡◌, refl, ap, ◌∙◌, Bool, true, false, not, none, List, [], ◌∷◌, arith, length, leb,
  if◌then◌else◌,
}
use mathlib.Core.Path.{subst}
use lapsecoin.Prelude.Int.{ℤ}
use lapsecoin.Prelude.Result.{
  Result, ok, refused, raised, >>=-eq-ok, ok-injective, refuse_if, refuse_if-eq-ok, not_better,
}
use lapsecoin.Tx.Signature.{LruCache}
use lapsecoin.Block.{Block, World}
use lapsecoin.Chain.{ChainState}
use lapsecoin.Chain.Fork.{is_better_than}
use lapsecoin.Chain.Fork.Tie.{is_better_than_asymm}
use lapsecoin.Node.Adopt.Built.{
  SameGenesis, BuiltOn, same_genesis-SameGenesis, build_remote-BuiltOn,
}
use lapsecoin.Node.{
  height, Node, Recent, state_at, keep_last, recent_state_cache_size, remember_state,
  forget_states_from, below, caught, only_better, judge, build_remote, same_genesis,
  evaluate_remote_chain,
}

keep_last_le : (n : ℕ) (r : Recent) → length (keep_last n r) ≤ n
unfolding keep_last
keep_last_le n [] = omega arith
keep_last_le n (e ∷ r) = ground (arith, keep_last_le n r)

-- After a state has been remembered, the cache holds at most as many states as its size.
pub remember_state_le :
    (cs : ChainState) (node : Node) {node' : Node}
    → remember_state cs node ≡ ok node'
    → length node'.recent ≤ recent_state_cache_size
unfolding remember_state
remember_state_le cs node e =
    let (h, e0, r0) = >>=-eq-ok (height cs) _ e in
    subst (λ (n : Node). length n.recent ≤ recent_state_cache_size) (ok-injective r0)
      (keep_last_le recent_state_cache_size _)

below-state_at :
    (h i : ℕ) (r : Recent) → state_at i (below h r) ≡ (if leb h i then none else state_at i r)
below-state_at h i [] = ground arith
below-state_at h i ((j, v) ∷ r) = ground (arith, below-state_at h i r)

-- After the states from a height on have been forgotten, the cache has none at that height or
-- above, and what it had at every height below.
pub state_at-forget_states_from :
    (h i : ℕ) (node : Node)
    → state_at i (forget_states_from h node).recent
      ≡ (if leb h i then none else state_at i node.recent)
unfolding forget_states_from
state_at-forget_states_from h i node = below-state_at h i node.recent

module _ (w : World) (lru : LruCache) where
  open lru use {Cache}

  only_better-ok :
      (node : Node) (r : ChainState) {cs' : ChainState}
      → only_better w lru node r ≡ ok cs'
      → (r ≡ cs') × (is_better_than w cs' node.cs ≡ ok true)
  only_better-ok node r {cs' = cs'} e =
      let (better, e0, r0) = >>=-eq-ok (is_better_than w r node.cs) _ e in
      let (u, e1, r1) = >>=-eq-ok (refuse_if (not better) not_better) _ r0 in
      (
        ok-injective r1,
        subst (λ c. is_better_than w c node.cs ≡ ok true) (ok-injective r1)
            (e0 ∙ ap ok (not-false better (refuse_if-eq-ok _ not_better e1))),
      )
    where
      not-false : (b : Bool) → not b ≡ false → b ≡ true
      not-false true h = refl
      not-false false h = cc

  uncaught : (r : Result ChainState) {cs : ChainState} → caught r ≡ ok cs → r ≡ ok cs
  uncaught (ok x) h = h
  uncaught (refused y) h = cc
  uncaught (raised y) h = cc

  -- The three answers that an accepted chain has had.
  record Judged (node : Node) (clock : ℕ → ℤ) (remote : List Block) (m : Cache) (cs : ChainState)
      (g : Result (Unit {0})) : Type 0 where
    pub genesis : g ≡ ok tt
    pub built : (build_remote w lru node clock remote m).0 ≡ ok cs
    pub better : is_better_than w cs node.cs ≡ ok true

  judge-Judged :
      (g : Result (Unit {0})) (node : Node) (clock : ℕ → ℤ) (remote : List Block) (m : Cache)
      {cs : ChainState}
      → (judge w lru g node clock remote m).0 ≡ ok cs
      → Judged node clock remote m cs g
  judge-Judged (ok u) node clock remote m e =
      let (r, e0, r0) = >>=-eq-ok (caught (build_remote w lru node clock remote m).0) _ e in
      let (same, better) = only_better-ok node r r0 in
      record { genesis = refl; built = uncaught _ e0 ∙ ap ok same; better = better }
  judge-Judged (refused x) node clock remote m e = cc
  judge-Judged (raised x) node clock remote m e = cc

  pub evaluate_remote_chain-built :
      (node : Node) (clock : ℕ → ℤ) (remote : List Block) (m : Cache) {cs : ChainState}
      → (evaluate_remote_chain w lru node clock remote m).0 ≡ ok cs
      → (build_remote w lru node clock remote m).0 ≡ ok cs
  unfolding evaluate_remote_chain
  evaluate_remote_chain-built node clock remote m e =
      (judge-Judged (same_genesis w lru node remote) node clock remote m e).built

  -- What is known of a chain that is taken.
  pub record Adopted (own : ChainState) (remote : List Block) (cs : ChainState) : Type 0 where
    pub genesis : SameGenesis own.chain remote
    pub built : BuiltOn w lru own.chain remote cs
    pub better : is_better_than w cs own ≡ ok true
    pub not_worse : is_better_than w own cs ≡ ok false

  -- A chain from a peer is taken only if its first block and the node's have the same hash; the
  -- chain that the node then has is the part up to the first difference, as the node or the peer
  -- had it, and after it all the blocks that the peer has from there on; and it is better than the
  -- node's own chain, which is not better than it.
  pub evaluate_remote_chain-Adopted :
      (node : Node) (clock : ℕ → ℤ) (remote : List Block) (m : Cache) {cs : ChainState}
      → (evaluate_remote_chain w lru node clock remote m).0 ≡ ok cs
      → Adopted node.cs remote cs
  unfolding evaluate_remote_chain
  evaluate_remote_chain-Adopted node clock remote m {cs = cs} e =
      let j = judge-Judged (same_genesis w lru node remote) node clock remote m e in
      let genesis = same_genesis-SameGenesis w lru node remote j.genesis in
      record {
        genesis = genesis;
        built = build_remote-BuiltOn w lru node clock remote m genesis j.built;
        better = j.better;
        not_worse = is_better_than_asymm w cs node.cs j.better;
      }
