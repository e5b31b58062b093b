-- ===== src/State/Mint.antt =====
-- The emission of src/state.py: what a block mints, and what a distribution of it does.
use lapsecoin.Prelude.{ℕ, ◌+◌, ◌-◌, ◌*◌, ◌/◌, ◌<◌, ◌≤◌, String, ◌≡◌, List, [], ◌∷◌, arith}
use lapsecoin.Prelude.Int.{ℤ, int_laws}
use lapsecoin.Prelude.Result.{ok, >>=-eq-ok}
use lapsecoin.Params.{supply_cap, emission_decay_numerator, emission_decay_denominator}
use lapsecoin.State.{
  State, credit, mint_to, compute_can_mint, compute_reward, apply_reward_distribution,
}
use lapsecoin.State.Ledger.{IsLedger, supply, credit-IsLedger, supply-credit}

-- A share below one of what is left is at most what is left, and below it unless nothing is left.
share-le : (left n d : ℕ) → n < d → left * n / d ≤ left
share-le left n d h = grind arith

share-lt : (left n d : ℕ) → n < d → 0 < left → left * n / d < left
share-lt left n d h p = grind arith

-- The reward never takes more than what the cap leaves.
pub compute_reward-le : (minted : ℕ) → compute_reward minted ≤ supply_cap - minted
unfolding compute_reward compute_can_mint
compute_reward-le minted =
    share-le (supply_cap - minted) emission_decay_numerator emission_decay_denominator (omega arith)

-- Minting the reward keeps the supply within the cap, never uses the cap up, and stops at it.
pub compute_reward_bounds :
    (minted : ℕ)
    → (minted ≤ supply_cap → minted + compute_reward minted ≤ supply_cap)
      × (minted < supply_cap → minted + compute_reward minted < supply_cap)
      × (supply_cap ≤ minted → compute_reward minted ≡ 0)
unfolding compute_reward compute_can_mint
compute_reward_bounds minted =
    (λ h. omega (arith, compute_reward-le minted), λ h. omega (arith, below h), λ h. omega arith)
  where
    below : minted < supply_cap → compute_reward minted < supply_cap - minted
    below h =
        share-lt (supply_cap - minted) emission_decay_numerator emission_decay_denominator
          (omega arith) (omega arith)

share_mono : (a b n d : ℕ) → a ≤ b → 0 < d → a * n / d ≤ b * n / d
share_mono a b n d h p = grind arith

-- Below the supply cap, minting the reward leaves the minted total below the cap.
pub compute_reward-below_cap :
    (minted : ℕ) → minted < supply_cap → minted + compute_reward minted < supply_cap
compute_reward-below_cap minted h = (compute_reward_bounds minted).1 h

-- The more has been minted, the smaller the reward, or equal.
pub compute_reward_antitone :
    (minted minted' : ℕ) → minted ≤ minted' → compute_reward minted' ≤ compute_reward minted
unfolding compute_reward compute_can_mint
compute_reward_antitone minted minted' h =
    share_mono (supply_cap - minted') (supply_cap - minted) emission_decay_numerator
      emission_decay_denominator (omega arith) (omega arith)

pub total_minted-credit :
    (a : String) (z : ℤ) (s : State) {s' : State}
    → credit a z s ≡ ok s'
    → s'.total_minted ≡ s.total_minted
unfolding credit
total_minted-credit a z s e = ground arith

-- What `s'` has over `s` was minted.
abbrev pub Mints : State → State → Type 0
Mints s s' = IsLedger s' × (supply s' + s.total_minted ≡ supply s + s'.total_minted)

mint_to-Mints :
    (a : String) (z : ℤ) (s : State) {s' : State} → IsLedger s → mint_to a z s ≡ ok s' → Mints s s'
unfolding mint_to
mint_to-Mints a z s h e =
    grind (int_laws, credit-IsLedger a z s h, supply-credit a z s, total_minted-credit a z s)

-- A distribution of rewards that goes through on a well-formed ledger keeps it well formed, and
-- raises the sum of the balances by exactly what it adds to the minted total.
pub apply_reward_distribution-Mints :
    (l : List (String × ℤ)) (s : State) {s' : State}
    → IsLedger s
    → apply_reward_distribution l s ≡ ok s'
    → Mints s s'
unfolding apply_reward_distribution
apply_reward_distribution-Mints [] s h e = ground arith
apply_reward_distribution-Mints ((a, z) ∷ l) s h e =
    let (next, e0, e1) = >>=-eq-ok (mint_to a z s) _ e in
    let m : Mints s next = mint_to-Mints a z s h e0 in
    ground (arith, apply_reward_distribution-Mints l next m.0 e1)
