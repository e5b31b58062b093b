-- ===== src/State/Dirty.antt =====
-- The dirty set of src/state.py: what it leaves out need not be written.
use lapsecoin.Prelude.{◌+◌, ◌-◌, String, ◌≡◌, refl, Bool, false, List, [], ◌∷◌, arith}
use lapsecoin.Prelude.Int.{ℤ, pos_part, ◌+ℤ◌}
use lapsecoin.Prelude.Result.{ok, >>=-eq-ok}
use lapsecoin.Dict.{lookup-insert, lookup-erase_ne}
use lapsecoin.Json.{Items, nil, cons, Fields}
use lapsecoin.State.{
  State, count_post, get_balance, get_nonce, is_dirty, credit, debit, set_nonce, credit_outputs,
  apply_tx, mint_to, apply_reward_distribution, mark_persisted,
}
use lapsecoin.State.Apply.{Credited, credit_outputs-Credited, Applied, apply_tx-Applied}

-- An address that is not in the set has the balance and the nonce that were last written.
abbrev pub Tracks : State → State → Type 0
Tracks written s =
    (a : String)
    → is_dirty a s.dirty ≡ false
    → (get_balance s a ≡ get_balance written a) × (get_nonce s a ≡ get_nonce written a)

module _ (written : State) where
  credit-Tracks :
      (a : String) (z : ℤ) (s : State) {s' : State}
      → Tracks written s
      → credit a z s ≡ ok s'
      → Tracks written s'
  unfolding credit
  credit-Tracks a z s h e b clean =
      ground (arith, h b, lookup-insert a b (get_balance s a + pos_part z) s.balances)

  debit-Tracks :
      (a : String) (z : ℤ) (s : State) {s' : State}
      → Tracks written s
      → debit a z s ≡ ok s'
      → Tracks written s'
  unfolding debit
  debit-Tracks a z s h e b clean = ground (
    arith,
    h b,
    lookup-insert a b (get_balance s a - pos_part z) s.balances,
    lookup-erase_ne a b s.balances,
  )

  credit_outputs-Tracks :
      (os : Items) (s : State) {s' : State}
      → Tracks written s
      → credit_outputs os s ≡ ok s'
      → Tracks written s'
  unfolding credit_outputs
  credit_outputs-Tracks nil s h e = λ b clean. ground (arith, h b)
  credit_outputs-Tracks (cons o os) s {s' = s'} h e =
      let k : Credited o os s s' = credit_outputs-Credited o os s e in
      credit_outputs-Tracks os k.next (credit-Tracks k.addr k.amount s h k.paid) k.rest

  finish-Tracks :
      (p : Bool) (a : String) (n : ℤ) (s : State) {s' : State}
      → Tracks written s
      → ok (count_post p (set_nonce a n s)) ≡ ok s'
      → Tracks written s'
  unfolding set_nonce
  finish-Tracks p a n s h e b clean = ground (arith, h b, lookup-insert a b n s.nonces)

  -- If every address outside the dirty set has the balance and the nonce last written, the same
  -- holds after a transaction is applied.
  pub apply_tx-Tracks :
      (tx : Fields) (s : State) {s' : State}
      → Tracks written s
      → apply_tx tx s ≡ ok s'
      → Tracks written s'
  apply_tx-Tracks tx s {s' = s'} h e =
      let k : Applied tx s s' = apply_tx-Applied tx s e in
      let d : Tracks written k.debited =
        debit-Tracks k.from (k.total_out +ℤ k.fee) s h k.debit-eq in
      finish-Tracks k.post k.from k.nonce k.credited
        (credit_outputs-Tracks k.os k.debited d k.credit-eq) k.final-eq

  mint_to-Tracks :
      (a : String) (z : ℤ) (s : State) {s' : State}
      → Tracks written s
      → mint_to a z s ≡ ok s'
      → Tracks written s'
  unfolding mint_to credit
  mint_to-Tracks a z s h e b clean =
      ground (arith, h b, lookup-insert a b (get_balance s a + pos_part z) s.balances)

  pub apply_reward_distribution-Tracks :
      (l : List (String × ℤ)) (s : State) {s' : State}
      → Tracks written s
      → apply_reward_distribution l s ≡ ok s'
      → Tracks written s'
  unfolding apply_reward_distribution
  apply_reward_distribution-Tracks [] s h e = λ b clean. ground (arith, h b)
  apply_reward_distribution-Tracks ((a, z) ∷ l) s h e =
      let (next, e0, e1) = >>=-eq-ok (mint_to a z s) _ e in
      apply_reward_distribution-Tracks l next (mint_to-Tracks a z s h e0) e1

-- Once it has been written, a state tracks itself.
pub mark_persisted-Tracks : (s : State) → Tracks s (mark_persisted s)
unfolding mark_persisted
mark_persisted-Tracks s a clean = (refl, refl)
