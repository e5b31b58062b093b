-- ===== src/Chain/Grow.antt =====
-- `_validate_tail` of src/node.py: blocks from a peer, validated and applied one after another.
use mathlib.Core.Path.{subst}
use lapsecoin.Prelude.{ℕ, ◌+◌, ◌≡◌, ◌≢◌, refl, List, [], ◌∷◌, arith, All}
use lapsecoin.Prelude.Int.{ℤ}
use lapsecoin.Prelude.Result.{Result, ok, refused, raised, ok-injective}
use lapsecoin.Tx.Signature.{LruCache}
use lapsecoin.State
use lapsecoin.State.{State}
use lapsecoin.State.Ledger.{IsLedger, supply}
use lapsecoin.Block.{Block, World}
use lapsecoin.Chain.{ChainState, from_genesis, from_chain, validate_and_apply}
use lapsecoin.Chain.Backed.{IsBacked, validate_and_apply-IsBacked, validate_and_apply-supply}
use lapsecoin.Chain.Replay.{
  Replays, from_genesis-Replays, validate_and_apply-Replays, from_chain-Replays,
}

-- All that was minted is held: fees move to the builder and nothing is lost.
pub record IsExact (s : State) : Type 0 where
  pub ledger : IsLedger s
  pub exact : supply s ≡ s.total_minted

abbrev pub NotGenesis : Block → Type 0
NotGenesis blk = blk.height ≢ 0

module _ (w : World) (lru : LruCache) where
  open lru use {Cache}

  abbrev continue :
      Result ChainState × Cache
      → (ChainState → Cache → Result ChainState × Cache)
      → Result ChainState × Cache
  continue (ok cs, m) rest = rest cs m
  continue (refused e, m) rest = (refused e, m)
  continue (raised x, m) rest = (raised x, m)

  -- The loop over the tail; `clock i` is what the clock shows in round i.
  unfoldable pub extend : (ℕ → ℤ) → ℕ → List Block → ChainState → Cache → Result ChainState × Cache
  extend clock i [] cs m = (ok cs, m)
  extend clock i (blk ∷ tail) cs m =
      continue (validate_and_apply w lru (clock i) cs blk m)
        (λ cs' m'. extend clock (i + 1) tail cs' m')

  abbrev pub start : List Block → Result ChainState
  start [] = ok (from_genesis w)
  start (b ∷ prefix) = from_chain (b ∷ prefix)

  unfoldable pub validate_tail :
      (ℕ → ℤ) → List Block → List Block → Cache → Result ChainState × Cache
  validate_tail clock tail prefix m =
      continue (start prefix, m) (λ cs m'. extend clock 0 tail cs m')

  pub continue-ok :
      (p : Result ChainState × Cache) (rest : ChainState → Cache → Result ChainState × Cache)
      {cs' : ChainState}
      → (continue p rest).0 ≡ ok cs'
      → (cs : ChainState) × (p.0 ≡ ok cs) × ((rest cs p.1).0 ≡ ok cs')
  continue-ok (ok cs, m) rest e = (cs, refl, e)
  continue-ok (refused x, m) rest e = cc
  continue-ok (raised x, m) rest e = cc

  -- An invariant of one accepted block is one of the loop.
  pub extend_induction {ℓ} :
      (P : ChainState → Type ℓ) (Q : Block → Type 0)
      → ((now : ℤ) (cs cs' : ChainState) (blk : Block) (m : Cache)
          → Q blk
          → P cs
          → (validate_and_apply w lru now cs blk m).0 ≡ ok cs'
          → P cs')
      → (clock : ℕ → ℤ) (i : ℕ) (tail : List Block) (cs : ChainState) (m : Cache) {cs' : ChainState}
      → All Q tail
      → P cs
      → (extend clock i tail cs m).0 ≡ ok cs'
      → P cs'
  unfolding extend
  extend_induction P Q keep clock i [] cs m a h e = subst P (ok-injective e) h
  extend_induction P Q keep clock i (blk ∷ tail) cs m a h e =
      let (next, e0, r0) =
        continue-ok (validate_and_apply w lru (clock i) cs blk m)
          (λ cs' m'. extend clock (i + 1) tail cs' m') e in
      extend_induction P Q keep clock (i + 1) tail next _ a.1
        (keep (clock i) cs next blk m a.0 h e0) r0

  -- After any number of accepted blocks on top of genesis, whatever heights they claim, the ledger
  -- is well formed, the balances sum to at most what was minted, and what was minted is within the
  -- supply cap.
  pub extend-IsBacked :
      (clock : ℕ → ℤ) (tail : List Block) (m : Cache) {cs' : ChainState}
      → (extend clock 0 tail (from_genesis w) m).0 ≡ ok cs'
      → IsBacked cs'.state
  unfolding from_genesis
  extend-IsBacked clock tail m e =
      extend_induction (λ cs. IsBacked cs.state) (λ _. Unit {0})
        (λ now cs cs' blk m' _ h e'. validate_and_apply-IsBacked w lru now cs blk m' h e') clock 0
        tail (from_genesis w) m (All-unit tail) genesis_backed e
    where
      All-unit : (l : List Block) → All (λ _. Unit {0}) l
      All-unit [] = tt
      All-unit (x ∷ xs) = (tt, All-unit xs)

      genesis_backed : IsBacked State.empty
      genesis_backed = record {
        ledger = record { keyed = tt; positive = tt };
        backed = omega arith;
        capped = omega arith;
      }

  -- After any number of accepted blocks on top of genesis, none of which claims height 0, the
  -- ledger is well formed and the sum of all balances is exactly the amount that has been minted.
  pub extend-IsExact :
      (clock : ℕ → ℤ) (tail : List Block) (m : Cache) {cs' : ChainState}
      → All NotGenesis tail
      → (extend clock 0 tail (from_genesis w) m).0 ≡ ok cs'
      → IsExact cs'.state
  unfolding from_genesis
  extend-IsExact clock tail m a e =
      extend_induction (λ cs. IsExact cs.state) NotGenesis
        (λ now cs cs' blk m' n h e'.
          let r = validate_and_apply-supply w lru now cs blk m' h.ledger n e' in
          record { ledger = r.0; exact = omega (arith, r.1, r.2, h.exact) })
        clock 0 tail (from_genesis w) m a
        (record { ledger = record { keyed = tt; positive = tt }; exact = refl }) e

  -- A chain grown from genesis by accepting blocks one by one, none of which claims height 0,
  -- replays through from_chain to the very same chain state: blocks, ledger and cumulative
  -- iterations.
  pub from_chain-extend :
      (clock : ℕ → ℤ) (tail : List Block) (m : Cache) {cs' : ChainState}
      → All NotGenesis tail
      → (extend clock 0 tail (from_genesis w) m).0 ≡ ok cs'
      → from_chain cs'.chain ≡ ok cs'
  from_chain-extend clock tail m {cs' = cs'} a e = from_chain-Replays cs' (
      extend_induction Replays NotGenesis
        (λ now cs next blk m' n h e'. validate_and_apply-Replays w lru now cs blk m' h n e') clock 0
        tail (from_genesis w) m a (from_genesis-Replays w) e)
