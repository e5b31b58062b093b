-- ===== src/Node/Coherent/Resume.antt =====
-- A chain of a peer that src/node.py resumes from a kept state, or replays, is built as a replay.
use lapsecoin.Prelude.{
  ℕ, zero, suc, ◌<◌, ◌≤◌, ◌≡◌, refl, sym, ap, ◌∙◌, true, false, Option, none, some, List, [], ◌∷◌,
  arith, All, length, take, length-take_le, ◌==◌, ==_iff, if-cases, Bool-cases, ◌⊎◌, inl, inr,
}
use mathlib.Core.Path.{subst}
use lapsecoin.Prelude.Int.{ℤ}
use lapsecoin.Prelude.Result.{ok, >>=-eq-ok, ok-injective}
use lapsecoin.Tx.Signature.{LruCache}
use lapsecoin.State
use lapsecoin.State.{State}
use lapsecoin.Block.{Block, World, create_genesis}
use lapsecoin.Chain.{ChainState, replay, cumulative, replay_block, from_chain, from_genesis}
use lapsecoin.Chain.Replay.{Replays, from_chain-Replays, from_genesis-Replays}
use lapsecoin.Chain.Fork.Search.{first_difference, first_difference-IsFork}
use lapsecoin.Chain.Grow.{NotGenesis, start, continue-ok, extend, validate_tail}
use lapsecoin.Node.{
  Node, Recent, state_at, resumed, from_cache, resume_point, built, build_remote, drop,
}
use lapsecoin.Node.Adopt.Built.{IsShared, resume_point-IsShared}
use lapsecoin.Node.Coherent.{Numbered, Kept, IsCoherent}
use lapsecoin.Node.Coherent.Grown.{Grown, extend-Grown, prefix-Grown}

state_at-All :
    (P : ℕ × (State × ℕ) → Type 0) (h : ℕ) (r : Recent) {v : State × ℕ}
    → All P r
    → state_at h r ≡ some v
    → P (h, v)
state_at-All P h [] a e = cc
state_at-All P h ((i, u) ∷ r) {v = v} a e =
    at (Bool-cases (i == h)) (λ e'. state_at-All P h r a.1 e')
  where
    at : ((i == h) ≡ true) ⊎ ((i == h) ≡ false) → (state_at h r ≡ some v → P (h, v)) → P (h, v)
    at (inl same) rec =
        subst P (ap (λ j. (j, u)) ((==_iff i h).0 same) ∙ ap (λ x. (h, x)) found) a.0
      where
        found : u ≡ v
        found = cc (e, same)
    at (inr other) rec = rec (rw other at e)

module _ (w : World) (lru : LruCache) (node : Node) (c : IsCoherent node)
    (remote : List Block) where
  open lru use {Cache}

  one-Replays :
      (l : List Block)
      → Numbered 0 l
      → Replays (record { chain = take 1 l; state = State.empty; cumulative_iterations = 0 })
  unfolding replay replay_block cumulative
  one-Replays [] n = record { state-eq = refl; iterations-eq = refl }
  one-Replays (b ∷ l) n = record { state-eq = rw n.0 refl; iterations-eq = rw n.0 refl }

  module _ (fork : ℕ) (agree : take fork remote ≡ take fork node.cs.chain)
      (le : fork ≤ length node.cs.chain) where
    resumed-Grown :
        (n : ℕ) (s : State) (k : ℕ) {base : ChainState}
        → n ≡ fork
        → 0 < n
        → replay (take n node.cs.chain) State.empty ≡ ok s
        → cumulative (take n node.cs.chain) ≡ k
        → resumed (take n remote) (some (s, k)) ≡ some base
        → Grown node.cs.chain fork base
    resumed-Grown n s k {base = base} h pos_n r q e = subst (Grown node.cs.chain fork) (some-eq e) (
        prefix-Grown w lru node.cs.chain fork resumed_state c.built.numbered prefix_eq
          (record {
            state-eq = ap (λ l. replay l State.empty) prefix_eq ∙ up_to_n;
            iterations-eq =
                ap cumulative prefix_eq ∙ ap (λ j. cumulative (take j node.cs.chain)) (sym h) ∙ q;
          })
          (omega (arith, h)) le)
      where
        resumed_state : ChainState
        resumed_state = record { chain = take n remote; state = s; cumulative_iterations = k }

        prefix_eq : take n remote ≡ take fork node.cs.chain
        prefix_eq = ap (λ j. take j remote) h ∙ agree

        up_to_n : replay (take fork node.cs.chain) State.empty ≡ ok s
        up_to_n = ap (λ j. replay (take j node.cs.chain) State.empty) (sym h) ∙ r

        some-eq : {x y : ChainState} → some x ≡ some y → x ≡ y
        some-eq p = cc

    from_cache-Grown :
        (n : ℕ) {base : ChainState}
        → n ≡ fork
        → from_cache node n remote ≡ some base
        → Grown node.cs.chain fork base
    from_cache-Grown zero h e = cc
    from_cache-Grown (suc zero) h e =
        resumed-Grown 1 State.empty 0 h (omega arith)
          (one-Replays node.cs.chain c.built.numbered).state-eq
          (one-Replays node.cs.chain c.built.numbered).iterations-eq e
    from_cache-Grown (suc (suc i)) {base = base} h e = at (state_at (suc i) node.recent) refl e
      where
        at :
            (o : Option (State × ℕ))
            → state_at (suc i) node.recent ≡ o
            → resumed (take (suc (suc i)) remote) o ≡ some base
            → Grown node.cs.chain fork base
        at none f e' = cc
        at (some (s, k)) f e' =
            let kept : Kept node.cs.chain (suc i, (s, k)) =
              state_at-All (Kept node.cs.chain) (suc i) node.recent c.kept f in
            resumed-Grown (suc (suc i)) s k h (omega arith) kept.state-eq kept.iterations-eq e'

    resume_point-Grown :
        {base : ChainState}
        → resume_point node fork remote ≡ some base
        → Grown node.cs.chain fork base
    unfolding resume_point
    resume_point-Grown {base = base} =
        if-cases (λ o. o ≡ some base → Grown node.cs.chain fork base) (some node.cs)
          (from_cache node fork remote) (fork == length node.cs.chain)
          (λ same e.
            subst (Grown node.cs.chain fork) (cc e)
              (record { is_built = c.built; same = refl; long = le }))
          (λ other e. from_cache-Grown fork refl e)

    -- A full replay of the part that the two chains share.
    start-Grown :
        (prefix : List Block) {cs : ChainState}
        → prefix ≡ take fork node.cs.chain
        → start w lru prefix ≡ ok cs
        → Grown node.cs.chain fork cs
    unfolding from_chain from_genesis create_genesis
    start-Grown [] {cs = cs} p e = subst (Grown node.cs.chain fork) (ok-injective e) (record {
      is_built = record {
        replays = from_genesis-Replays w;
        numbered = (refl, tt);
        nonempty = omega arith;
      };
      same = rw (sym no_fork) refl;
      long = omega (arith, no_fork);
    })
      where
        no_fork : 0 ≡ fork
        no_fork = ap length p ∙ length-take_le fork node.cs.chain le
    start-Grown (b ∷ prefix) {cs = cs} p e =
        let (s, e0, r0) = >>=-eq-ok (replay (b ∷ prefix) State.empty) _ e in
        let same = ok-injective r0 in
        prefix-Grown w lru node.cs.chain fork cs c.built.numbered
          (ap (λ (x : ChainState). x.chain) (sym same) ∙ p)
          (subst Replays same (record { state-eq = e0; iterations-eq = refl })) (positive fork p) le
      where
        positive : (n : ℕ) → b ∷ prefix ≡ take n node.cs.chain → 0 < n
        positive zero q = cc
        positive (suc n) q = omega arith

    built-Grown :
        (o : Option ChainState) (clock : ℕ → ℤ) (tail : List Block) (m : Cache) {cs' : ChainState}
        → All NotGenesis tail
        → resume_point node fork remote ≡ o
        → (built w lru o clock tail (take fork remote) m).0 ≡ ok cs'
        → Grown node.cs.chain fork cs'
    unfolding validate_tail
    built-Grown (some base) clock tail m a f e =
        extend-Grown w lru node.cs.chain fork clock tail base m a (resume_point-Grown f) e
    built-Grown none clock tail m a f e =
        let (base, e0, r0) =
          continue-ok w lru (start w lru (take fork remote), m)
            (λ cs m'. extend w lru clock 0 tail cs m') e in
        extend-Grown w lru node.cs.chain fork clock tail base m a
          (start-Grown (take fork remote) agree e0) r0

  -- What a chain that is taken has been built into.
  pub build_remote-Grown :
      (clock : ℕ → ℤ) (m : Cache) {cs' : ChainState}
      → let fork = first_difference node.cs.chain remote in
        take fork remote ≡ take fork node.cs.chain
        → All NotGenesis (drop fork remote)
        → (build_remote w lru node clock remote m).0 ≡ ok cs'
        → Grown node.cs.chain fork cs'
  unfolding build_remote
  build_remote-Grown clock m agree a e =
      built-Grown (first_difference node.cs.chain remote) agree in_own
        (resume_point node (first_difference node.cs.chain remote) remote) clock
        (drop (first_difference node.cs.chain remote) remote) m a refl e
    where
      in_own : first_difference node.cs.chain remote ≤ length node.cs.chain
      in_own = omega (arith, (first_difference-IsFork node.cs.chain remote).in_range)

  -- Where a node whose kept states agree with its chain resumes from, the chain is the blocks
  -- offered up to the fork, and the chain state is the one that a full replay of these blocks
  -- gives, if they are the node's own and the fork is not above its tip.
  pub resume_point-from_chain :
      (fork : ℕ) {base : ChainState}
      → take fork remote ≡ take fork node.cs.chain
      → fork ≤ length node.cs.chain
      → resume_point node fork remote ≡ some base
      → (base.chain ≡ take fork remote) × (from_chain (take fork remote) ≡ ok base)
  resume_point-from_chain fork {base = base} agree le e =
      let g = resume_point-Grown fork agree le e in
      let same = shared_chain (resume_point-IsShared node remote fork e) in
      (same, ap from_chain (sym same) ∙ from_chain-Replays base g.is_built.replays)
    where
      shared_chain : IsShared node.cs.chain remote fork base.chain → base.chain ≡ take fork remote
      shared_chain (inl own) = own ∙ sym agree
      shared_chain (inr theirs) = theirs
