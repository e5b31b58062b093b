-- ===== src/Chain/Backed.antt =====
-- The supply of a chain that is built block by block with `validate_and_apply` of
-- src/chainstate.py.
use mathlib.Core.Path.{subst}
use lapsecoin.Prelude.{
  ◌+◌, ◌≤◌, String, ◌≡◌, ◌≢◌, ap, sym, ◌∙◌, true, false, arith, str_eq, eq_iff, Bool-cases, inl,
  inr,
}
use lapsecoin.Prelude.Int.{ℤ, pos, ◌+ℤ◌, ◌≤ℤ◌, int_laws}
use lapsecoin.Prelude.Result.{ok}
use lapsecoin.Prelude.Text.{split}
use lapsecoin.Params.{supply_cap}
use lapsecoin.Json.{Json, str}
use lapsecoin.Crypto.{is_valid_address}
use lapsecoin.Tx.{board_fee_floor}
use lapsecoin.Tx.Signature.{LruCache}
use lapsecoin.State.{State, compute_reward}
use lapsecoin.State.Ledger.{IsLedger, supply}
use lapsecoin.State.Mint.{compute_reward_bounds}
use lapsecoin.Block.{Block, World}
use lapsecoin.Block.Ran.{Ran-IsLedger, Ran-Collects, Collects}
use lapsecoin.Chain.{
  ChainState, truthy, reward_builder, apply_builder_reward, apply_to_state, validate_and_apply,
}
use lapsecoin.Chain.Supply.{apply_builder_reward-supply, total_minted-Ran}
use lapsecoin.Chain.Accepted.{Accepted, validate_and_apply-Accepted, Checked, header_checks-Checked}
use lapsecoin.Chain.Extends.{Proven, check_builder_and_vdf-Proven}

empty_address : (w : World) → ¬ (is_valid_address w.crypto (str "") ≡ true)
unfolding is_valid_address split
empty_address w h = cc

-- A text that is a valid address is not empty, so Python takes it for true.
valid_address-truthy :
    (w : World) (s : String) → is_valid_address w.crypto (str s) ≡ true → truthy (str s) ≡ true
unfolding truthy
valid_address-truthy w s h = elim (Bool-cases (str_eq s "")) [
  | inl empty ↦ absurd (
      empty_address w
        (subst (λ t. is_valid_address w.crypto (str t) ≡ true) ((eq_iff s "").0 empty) h))
  | inr filled ↦ rw filled
]

reward_builder-apply :
    (v : Json) (s : State) (blk : Block) {s' : State}
    → reward_builder v s blk ≡ ok s'
    → (b : String) × (apply_builder_reward s b blk ≡ ok s')
unfolding reward_builder
reward_builder-apply (str b) s blk e = (b, e)
reward_builder-apply _ s blk e = cc

-- The ledger is well formed, no tick exists that was not minted, and the cap holds.
pub record IsBacked (s : State) : Type 0 where
  pub ledger : IsLedger s
  pub backed : supply s ≤ s.total_minted
  pub capped : s.total_minted ≤ supply_cap

-- What the reward does, by whether the block has a builder.
apply_to_state-supply :
    (blk : Block) (start s : State) {s' : State}
    → IsLedger s
    → Collects blk.transactions start s
    → s.total_minted ≡ start.total_minted
    → apply_to_state s blk ≡ ok s'
    → truthy blk.builder ≡ true
    → IsLedger s'
      × (s'.total_minted ≡ start.total_minted + compute_reward start.total_minted)
      × (supply s' ≡ supply start + compute_reward start.total_minted)
unfolding apply_to_state
apply_to_state-supply blk start s {s' = s'} h c m e t =
    let (b, e0) = reward_builder-apply blk.builder s blk (rw t at e) in
    let r = apply_builder_reward-supply b blk start s h c e0 in
    let same = ap compute_reward m in (r.0, omega (arith, r.1, m, same), omega (arith, r.2, same))

apply_to_state-none :
    (blk : Block) (s : State) {s' : State}
    → apply_to_state s blk ≡ ok s'
    → truthy blk.builder ≡ false
    → s' ≡ s
unfolding apply_to_state
apply_to_state-none blk s e t = cc (rw t at e)

burnt :
    (s s' : State) (fees : ℤ)
    → pos 0 ≤ℤ fees
    → pos (supply s') +ℤ fees ≡ pos (supply s)
    → supply s' ≤ supply s
burnt s s' fees p e = grind int_laws

module _ (w : World) (lru : LruCache) (now : ℤ) where
  open lru use {Cache}

  -- Accepting a block whose height is not 0 on a well-formed ledger adds exactly the reward for
  -- the amount minted so far both to the minted total and to the sum of the balances, and keeps
  -- the ledger well formed.
  pub validate_and_apply-supply :
      (cs : ChainState) (blk : Block) (m : Cache) {cs' : ChainState}
      → IsLedger cs.state
      → blk.height ≢ 0
      → (validate_and_apply w lru now cs blk m).0 ≡ ok cs'
      → IsLedger cs'.state
        × (cs'.state.total_minted ≡ cs.state.total_minted + compute_reward cs.state.total_minted)
        × (supply cs'.state ≡ supply cs.state + compute_reward cs.state.total_minted)
  validate_and_apply-supply cs blk m {cs' = cs'} l h e =
      let a : Accepted w lru now cs blk cs' = validate_and_apply-Accepted w lru now cs blk m e in
      let k : Checked w lru now blk cs.chain =
        header_checks-Checked w lru now blk cs.chain a.header in
      let p : Proven w blk cs.chain = check_builder_and_vdf-Proven w blk cs.chain h k.proof in
      let floor = board_fee_floor cs.state.total_board_posts in
      apply_to_state-supply blk cs.state a.probe (Ran-IsLedger w lru floor a.ran l)
        (Ran-Collects w lru floor a.ran) (total_minted-Ran w lru floor a.ran) a.settled
        (ap truthy p.builder-eq ∙ valid_address-truthy w p.builder p.is_valid)

  -- Accepting one block on a backed ledger, whatever height the block claims, leaves a backed
  -- ledger: well formed, with balances that sum to at most what was minted, within the supply cap.
  pub validate_and_apply-IsBacked :
      (cs : ChainState) (blk : Block) (m : Cache) {cs' : ChainState}
      → IsBacked cs.state
      → (validate_and_apply w lru now cs blk m).0 ≡ ok cs'
      → IsBacked cs'.state
  validate_and_apply-IsBacked cs blk m {cs' = cs'} b e =
      let a : Accepted w lru now cs blk cs' = validate_and_apply-Accepted w lru now cs blk m e in
      let floor = board_fee_floor cs.state.total_board_posts in
      let l = Ran-IsLedger w lru floor a.ran b.ledger in
      let (fees, c0, c1, c2) = Ran-Collects w lru floor a.ran in
      let same = total_minted-Ran w lru floor a.ran in
      let bound = compute_reward_bounds cs.state.total_minted in
      elim (Bool-cases (truthy blk.builder)) [
        | inl t ↦
            let r =
              apply_to_state-supply blk cs.state a.probe l (fees, c0, c1, c2) same a.settled t in
            record {
              ledger = r.0;
              backed = omega (arith, r.1, r.2, b.backed);
              capped = omega (arith, r.1, bound.0 b.capped);
            }
        | inr f ↦ subst IsBacked (sym (apply_to_state-none blk a.probe a.settled f)) (record {
          ledger = l;
          backed = omega (arith, burnt cs.state a.probe fees c1 c2, same, b.backed);
          capped = omega (arith, same, b.capped);
        })
      ]
