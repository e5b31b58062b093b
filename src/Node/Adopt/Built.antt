-- ===== src/Node/Adopt/Built.antt =====
-- The blocks of a chain that src/node.py builds from a peer's: those up to the fork, and the tail.
use lapsecoin.Prelude.{
  ℕ, zero, suc, ◌+◌, ◌≡◌, ◌≢◌, ◌⊎◌, inl, inr, refl, sym, ap, ◌∙◌, String, Bool, true, false, not,
  Option, none, some, List, [], ◌∷◌, ◌++◌, length, take, eq_iff, ◌==◌, ==_iff, if-cases,
}
use lapsecoin.Prelude.Int.{ℤ}
use lapsecoin.Prelude.Result.{ok, >>=-eq-ok, ok-injective, refuse_if-eq-ok, genesis_mismatch}
use lapsecoin.Tx.Signature.{LruCache}
use lapsecoin.State
use lapsecoin.State.{State}
use lapsecoin.Block.{Block, World}
use lapsecoin.Chain.{ChainState, replay, from_chain, validate_and_apply}
use lapsecoin.Chain.Accepted.{Accepted, validate_and_apply-Accepted}
use lapsecoin.Chain.Extends.Header.{or_missing-ok}
use lapsecoin.Chain.Fork.Search.{first_difference}
use lapsecoin.Chain.Grow.{continue-ok, extend, start, validate_tail}
use lapsecoin.Node.{
  Node, state_at, resumed, from_cache, resume_point, built, build_remote, drop, hash_at_genesis,
  genesis_hash, same_genesis,
}

module _ {ℓ} {A : Type ℓ} where
  append-snoc : (xs : List A) (y : A) (ys : List A) → (xs ++ y ∷ []) ++ ys ≡ xs ++ y ∷ ys
  append-snoc [] y ys = refl
  append-snoc (x ∷ xs) y ys = ap (◌∷◌ x) (append-snoc xs y ys)

  append-nil : (xs : List A) → xs ++ [] ≡ xs
  append-nil [] = refl
  append-nil (x ∷ xs) = ap (◌∷◌ x) (append-nil xs)

  take-length : (xs : List A) → take (length xs) xs ≡ xs
  take-length [] = refl
  take-length (x ∷ xs) = ap (◌∷◌ x) (take-length xs)

resumed-chain :
    (prefix : List Block) (o : Option (State × ℕ)) {base : ChainState}
    → resumed prefix o ≡ some base
    → base.chain ≡ prefix
resumed-chain prefix none e = cc
resumed-chain prefix (some (s, n)) e = ap (chain_or prefix) (sym e)
  where
    chain_or : List Block → Option ChainState → List Block
    chain_or l none = l
    chain_or l (some cs) = cs.chain

from_cache-chain :
    (node : Node) (remote : List Block) (n : ℕ) {base : ChainState}
    → from_cache node n remote ≡ some base
    → base.chain ≡ take n remote
from_cache-chain node remote zero e = cc
from_cache-chain node remote (suc zero) e = resumed-chain (take 1 remote) (some (State.empty, 0)) e
from_cache-chain node remote (suc (suc i)) e =
    resumed-chain (take (suc (suc i)) remote) (state_at (suc i) node.recent) e

-- The blocks up to the fork, which are the node's own or those of the peer.
abbrev pub IsShared : List Block → List Block → ℕ → List Block → Type 0
IsShared own remote fork shared = (shared ≡ take fork own) ⊎ (shared ≡ take fork remote)

pub resume_point-IsShared :
    (node : Node) (remote : List Block) (fork : ℕ) {base : ChainState}
    → resume_point node fork remote ≡ some base
    → IsShared node.cs.chain remote fork base.chain
unfolding resume_point
resume_point-IsShared node remote fork {base = base} =
    if-cases (λ o. o ≡ some base → IsShared node.cs.chain remote fork base.chain) (some node.cs)
      (from_cache node fork remote) (fork == length node.cs.chain)
      (λ whole e. inl (
        resumed-chain node.cs.chain (some (node.cs.state, node.cs.cumulative_iterations)) e
        ∙ sym (take-length node.cs.chain)
        ∙ ap (λ n. take n node.cs.chain) (sym ((==_iff fork (length node.cs.chain)).0 whole))))
      (λ other e. inr (from_cache-chain node remote fork e))

-- Two chains with the same genesis hash.
pub record SameGenesis (own remote : List Block) : Type 0 where
  pub ours : Block
  pub theirs : Block
  pub own_rest : List Block
  pub remote_rest : List Block
  pub hash : String
  pub own-eq : own ≡ ours ∷ own_rest
  pub remote-eq : remote ≡ theirs ∷ remote_rest
  pub ours-hash : ours.hash ≡ some hash
  pub theirs-hash : theirs.hash ≡ some hash

first_difference-suc :
    (own remote : List Block)
    → SameGenesis own remote
    → (n : ℕ) × (first_difference own remote ≡ suc n)
unfolding first_difference
first_difference-suc own remote g = (
  first_difference g.own_rest g.remote_rest,
  rw (g.own-eq, g.remote-eq, g.ours-hash, g.theirs-hash, (eq_iff g.hash g.hash).1 refl) refl,
)

module _ (w : World) (lru : LruCache) where
  open lru use {Cache}

  extend-chain :
      (clock : ℕ → ℤ) (i : ℕ) (tail : List Block) (cs : ChainState) (m : Cache) {cs' : ChainState}
      → (extend w lru clock i tail cs m).0 ≡ ok cs'
      → cs'.chain ≡ cs.chain ++ tail
  unfolding extend
  extend-chain clock i [] cs m e =
      ap (λ (c : ChainState). c.chain) (sym (ok-injective e)) ∙ sym (append-nil cs.chain)
  extend-chain clock i (b ∷ tail) cs m e =
      let (next, e0, r0) =
        continue-ok w lru (validate_and_apply w lru (clock i) cs b m)
          (λ cs' m'. extend w lru clock (i + 1) tail cs' m') e in
      let a : Accepted w lru (clock i) cs b next =
        validate_and_apply-Accepted w lru (clock i) cs b m e0 in
      extend-chain clock (i + 1) tail next _ r0
      ∙ ap (λ l. l ++ tail) a.chain-eq
      ∙ append-snoc cs.chain b tail

  start-chain :
      (prefix : List Block) {cs : ChainState}
      → prefix ≢ []
      → start w lru prefix ≡ ok cs
      → cs.chain ≡ prefix
  unfolding from_chain
  start-chain [] ne e = absurd (ne refl)
  start-chain (b ∷ prefix) ne e =
      let (s, e0, r0) = >>=-eq-ok (replay (b ∷ prefix) State.empty) _ e in
      ap (λ (c : ChainState). c.chain) (sym (ok-injective r0))

  -- The chain that is built: a shared part, and the peer's blocks after it.
  pub record BuiltOn (own remote : List Block) (cs : ChainState) : Type 0 where
    pub shared : List Block
    pub is_shared : IsShared own remote (first_difference own remote) shared
    pub chain-eq : cs.chain ≡ shared ++ drop (first_difference own remote) remote

  built-BuiltOn :
      (node : Node) (remote : List Block) (o : Option ChainState) (clock : ℕ → ℤ) (m : Cache)
      {cs : ChainState}
      → let fork = first_difference node.cs.chain remote in
        take fork remote ≢ []
        → resume_point node fork remote ≡ o
        → (built w lru o clock (drop fork remote) (take fork remote) m).0 ≡ ok cs
        → BuiltOn node.cs.chain remote cs
  unfolding validate_tail
  built-BuiltOn node remote (some base) clock m ne f e =
      let fork = first_difference node.cs.chain remote in
      record {
        shared = base.chain;
        is_shared = resume_point-IsShared node remote fork f;
        chain-eq = extend-chain clock 0 (drop fork remote) base m e;
      }
  built-BuiltOn node remote none clock m ne f e =
      let fork = first_difference node.cs.chain remote in
      let (base, e0, r0) =
        continue-ok w lru (start w lru (take fork remote), m)
          (λ cs m'. extend w lru clock 0 (drop fork remote) cs m') e in
      record {
        shared = base.chain;
        is_shared = inr (start-chain (take fork remote) ne e0);
        chain-eq = extend-chain clock 0 (drop fork remote) base _ r0;
      }

  pub same_genesis-SameGenesis :
      (node : Node) (remote : List Block)
      → same_genesis w lru node remote ≡ ok tt
      → SameGenesis node.cs.chain remote
  unfolding same_genesis
  same_genesis-SameGenesis node remote e =
      let (theirs, e0, r0) = >>=-eq-ok (hash_at_genesis remote) _ e in
      let (ours, e1, r1) = >>=-eq-ok (genesis_hash node.cs.chain) _ r0 in
      at node.cs.chain remote e1 e0
        ((eq_iff theirs ours).0 (not-false _ (refuse_if-eq-ok _ genesis_mismatch r1)))
    where
      not-false : (b : Bool) → not b ≡ false → b ≡ true
      not-false true h = refl
      not-false false h = cc

      at :
          (own remote' : List Block) {ours theirs : String}
          → genesis_hash own ≡ ok ours
          → hash_at_genesis remote' ≡ ok theirs
          → theirs ≡ ours
          → SameGenesis own remote'
      at [] r f g h = cc
      at (b ∷ l) [] f g h = cc
      at (b ∷ l) (c ∷ r) {ours = ours} f g h = record {
        ours = b;
        theirs = c;
        own_rest = l;
        remote_rest = r;
        hash = ours;
        own-eq = refl;
        remote-eq = refl;
        ours-hash = or_missing-ok b.hash f;
        theirs-hash = or_missing-ok c.hash g ∙ ap some h;
      }

  pub build_remote-BuiltOn :
      (node : Node) (clock : ℕ → ℤ) (remote : List Block) (m : Cache) {cs : ChainState}
      → SameGenesis node.cs.chain remote
      → (build_remote w lru node clock remote m).0 ≡ ok cs
      → BuiltOn node.cs.chain remote cs
  unfolding build_remote
  build_remote-BuiltOn node clock remote m g e =
      built-BuiltOn node remote (resume_point node (first_difference node.cs.chain remote) remote)
        clock m nonempty refl e
    where
      nonempty : take (first_difference node.cs.chain remote) remote ≢ []
      nonempty =
          let (n, more) = first_difference-suc node.cs.chain remote g in
          rw (more, g.remote-eq) (λ no. cc)
