-- ===== src/Chain/Supply.antt =====
-- What an accepted block does to the supply (src/chainstate.py with src/state.py).
use mathlib.Core.Path.{subst}
use lapsecoin.Prelude.{ℕ, ◌+◌, String, ◌≡◌, refl, ap, ◌∙◌, Bool, List, [], ◌∷◌, arith}
use lapsecoin.Prelude.Int.{ℤ, pos, ◌+ℤ◌, ◌≤ℤ◌, int_laws}
use lapsecoin.Prelude.Result.{ok, >>=-eq-ok}
use lapsecoin.Json.{Json, Fields, Items, nil, cons}
use lapsecoin.Tx.Signature.{LruCache}
use lapsecoin.State.{
  State, count_post, set_nonce, credit, debit, credit_outputs, mint_to, apply_tx,
  apply_reward_distribution, compute_block_reward, compute_reward,
}
use lapsecoin.State.Ledger.{IsLedger, supply, credit-IsLedger, supply-credit}
use lapsecoin.State.Apply.{Credited, credit_outputs-Credited, Applied, apply_tx-Applied}
use lapsecoin.State.Mint.{Mints, apply_reward_distribution-Mints, total_minted-credit}
use lapsecoin.Block.{Block, World, block_fees, sum_fees}
use lapsecoin.Block.Ran.{Ran, done, step, Collects}
use lapsecoin.Chain.{credit_fees, mint_reward, apply_builder_reward}

total_minted-debit :
    (a : String) (z : ℤ) (s : State) {s' : State}
    → debit a z s ≡ ok s'
    → s'.total_minted ≡ s.total_minted
unfolding debit
total_minted-debit a z s e = ground arith

total_minted-credit_outputs :
    (os : Items) (s : State) {s' : State}
    → credit_outputs os s ≡ ok s'
    → s'.total_minted ≡ s.total_minted
unfolding credit_outputs
total_minted-credit_outputs nil s e = ground arith
total_minted-credit_outputs (cons o os) s {s' = s'} e =
    let k : Credited o os s s' = credit_outputs-Credited o os s e in
    ground (
      arith,
      total_minted-credit k.addr k.amount s k.paid,
      total_minted-credit_outputs os k.next k.rest,
    )

total_minted-final :
    (p : Bool) (a : String) (n : ℤ) (s : State) {s' : State}
    → ok (count_post p (set_nonce a n s)) ≡ ok s'
    → s'.total_minted ≡ s.total_minted
unfolding set_nonce
total_minted-final p a n s e = ground arith

-- A transaction mints nothing.
pub total_minted-apply_tx :
    (tx : Fields) (s : State) {s' : State}
    → apply_tx tx s ≡ ok s'
    → s'.total_minted ≡ s.total_minted
total_minted-apply_tx tx s {s' = s'} e =
    let k : Applied tx s s' = apply_tx-Applied tx s e in
    ground (
      arith,
      total_minted-debit k.from (k.total_out +ℤ k.fee) s k.debit-eq,
      total_minted-credit_outputs k.os k.debited k.credit-eq,
      total_minted-final k.post k.from k.nonce k.credited k.final-eq,
    )

pub total_minted-Ran :
    (w : World) (lru : LruCache) (floor : ℕ) {ts : List Json} {s s' : State}
    → Ran w lru floor ts s s'
    → s'.total_minted ≡ s.total_minted
total_minted-Ran w lru floor done = refl
total_minted-Ran w lru floor (step tx {s = s} m a e r) =
    ground (arith, total_minted-Ran w lru floor r, total_minted-apply_tx tx s e)

total_minted-mint_reward :
    (b : String) (s : State) {s' : State}
    → mint_reward b s ≡ ok s'
    → s'.total_minted ≡ s.total_minted + compute_reward s.total_minted
unfolding mint_reward apply_reward_distribution mint_to credit compute_block_reward
total_minted-mint_reward b s e = ground arith

mint_reward-Mints :
    (b : String) (s : State) {s' : State} → IsLedger s → mint_reward b s ≡ ok s' → Mints s s'
unfolding mint_reward
mint_reward-Mints b s {s' = s'} h e =
    ground (
      arith,
      apply_reward_distribution-Mints ((b, pos (compute_block_reward s)) ∷ []) s {s' = s'} h,
    )

-- The fees that left the ledger with the transactions come back to the builder.
credit_fees-supply :
    (b : String) (fees : ℤ) (s : State) {s' : State}
    → IsLedger s
    → pos 0 ≤ℤ fees
    → credit_fees b fees s ≡ ok s'
    → IsLedger s'
      × ((pos (supply s') ≡ pos (supply s) +ℤ fees) × (s'.total_minted ≡ s.total_minted))
unfolding credit_fees
credit_fees-supply b fees s h p e =
    grind
      (int_laws, credit-IsLedger b fees s h, supply-credit b fees s, total_minted-credit b fees s)

pos_eq : (a b : ℕ) → pos a ≡ pos b → a ≡ b
pos_eq a b e = cc

-- The two parts of the reward, one after the other.
settled :
    (s next s' : State) (start : ℕ) (fees : ℤ)
    → (pos (supply next) ≡ pos (supply s) +ℤ fees) × (next.total_minted ≡ s.total_minted)
    → Mints next s' × (s'.total_minted ≡ next.total_minted + compute_reward next.total_minted)
    → pos (supply s) +ℤ fees ≡ pos start
    → IsLedger s'
      × (s'.total_minted ≡ s.total_minted + compute_reward s.total_minted)
      × (supply s' ≡ start + compute_reward s.total_minted)
settled s next s' start fees paid minted conserved =
    let r = ap compute_reward paid.1 in
    let same = pos_eq (supply next) start (paid.0 ∙ conserved) in
    (minted.0.0, omega (arith, minted.1, paid.1, r), omega (arith, minted.0.1, minted.1, same, r))

-- A builder's block adds its reward, and the fees are where they were.
pub apply_builder_reward-supply :
    (b : String) (blk : Block) (start s : State) {s' : State}
    → IsLedger s
    → Collects blk.transactions start s
    → apply_builder_reward s b blk ≡ ok s'
    → IsLedger s'
      × (s'.total_minted ≡ s.total_minted + compute_reward s.total_minted)
      × (supply s' ≡ supply start + compute_reward s.total_minted)
unfolding apply_builder_reward block_fees
apply_builder_reward-supply b blk start s {s' = s'} h (fees, f0, f1, f2) e =
    let (fees', e0, r0) = >>=-eq-ok (sum_fees blk.transactions) _ e in
    let (next, e1, r1) = >>=-eq-ok (credit_fees b fees' s) _ r0 in
    let same : fees' ≡ fees = cc (e0, f0) in
    let paid =
      credit_fees-supply b fees s h f1 (subst (λ z. credit_fees b z s ≡ ok next) same e1) in
    settled s next s' (supply start) fees paid.1
      (mint_reward-Mints b next paid.0 r1, total_minted-mint_reward b next r1) f2
