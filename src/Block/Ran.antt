-- ===== src/Block/Ran.antt =====
-- The transactions of a block (src/block.py, `_apply_transactions`) as steps: each one accepted by
-- `tx.validate` in the state that the ones before it leave, and then applied.
use mathlib.Core.Path.{subst}
use lapsecoin.Prelude.{Option-cases, inl, inr, ℕ, ◌≡◌, refl, some, List, [], ◌∷◌, arith}
use lapsecoin.Prelude.Int.{ℤ, pos, ◌+ℤ◌, ◌≤ℤ◌, int_laws}
use lapsecoin.Prelude.Result.{Result, Check, ok, refused, raised, >>=-eq-ok}
use lapsecoin.Json.{Json, obj, Fields, get}
use lapsecoin.Tx.{int_field}
use lapsecoin.Tx.Signature.{LruCache}
use lapsecoin.Tx.Validate
use lapsecoin.Tx.Payable.{IsWellFormed, check_fields_and_outputs-IsWellFormed}
use lapsecoin.Tx.Accepted.{validate-Passed}
use lapsecoin.State.{State, apply_tx, view}
use lapsecoin.State.Ledger.{IsLedger, supply}
use lapsecoin.State.Apply.{apply_tx-IsLedger, supply-apply_tx}
use lapsecoin.State.Dirty.{Tracks, apply_tx-Tracks}
use lapsecoin.Block.{World, tx_fee, sum_fees}
use lapsecoin.Block.Validate.{as_invalid_tx, continue, include_tx, include_all}

tx_fee-int_field : (tx : Fields) (z : ℤ) → int_field "fee" tx ≡ ok z → tx_fee (obj tx) ≡ ok z
unfolding int_field tx_fee
tx_fee-int_field tx z e = elim (Option-cases (get "fee" tx)) [
  | inl missing ↦ absurd (cc (rw missing at e))
  | inr (v, found) ↦ rw found (rw found at e)
]

sum_fees-step :
    (t : Json) (ts : List Json) (fee rest : ℤ)
    → tx_fee t ≡ ok fee
    → sum_fees ts ≡ ok rest
    → sum_fees (t ∷ ts) ≡ ok (fee +ℤ rest)
unfolding sum_fees
sum_fees-step t ts fee rest e f = rw (e, f)

-- The fees are exactly what leaves the ledger.
abbrev pub Collects : List Json → State → State → Type 0
Collects ts s s' =
    (fees : ℤ) × (sum_fees ts ≡ ok fees)
    × (pos 0 ≤ℤ fees)
    × (pos (supply s') +ℤ fees ≡ pos (supply s))

collect_one :
    (a b c : ℕ) (fee rest : ℤ)
    → pos b +ℤ fee ≡ pos a
    → pos c +ℤ rest ≡ pos b
    → pos c +ℤ (fee +ℤ rest) ≡ pos a
collect_one a b c fee rest e f = grind int_laws

add-nonneg : (a b : ℤ) → pos 0 ≤ℤ a → pos 0 ≤ℤ b → pos 0 ≤ℤ a +ℤ b
add-nonneg a b p q = omega int_laws

module _ (w : World) (lru : LruCache) where
  open lru use {Cache}

  -- The cache changes from one transaction to the next, the floor does not.
  pub data Ran (floor : ℕ) : List Json → State → State → Type 0 where
    done : {s : State} → Ran floor [] s s
    step :
        (tx : Fields) {ts : List Json} {s s' s'' : State} (m : Cache)
        → (Validate.validate w.crypto lru tx (view s) (some floor) m).0 ≡ ok tt
        → apply_tx tx s ≡ ok s'
        → Ran floor ts s' s''
        → Ran floor (obj tx ∷ ts) s s''

  as_invalid_tx-ok : (r : Check) {u : Unit {0}} → as_invalid_tx w r ≡ ok u → r ≡ ok tt
  as_invalid_tx-ok (ok v) e = refl
  as_invalid_tx-ok (refused x) e = cc
  as_invalid_tx-ok (raised x) e = cc

  continue-ok :
      (p : Result State × Cache) (rest : State → Cache → Result State × Cache) {s' : State}
      → (continue w lru p rest).0 ≡ ok s'
      → (s : State) × (p.0 ≡ ok s) × ((rest s p.1).0 ≡ ok s')
  continue-ok (ok s, m) rest e = (s, refl, e)
  continue-ok (refused x, m) rest e = cc
  continue-ok (raised x, m) rest e = cc

  -- If the loop over the transactions of a block ends well, its result is reached by steps, each
  -- of them a transaction that validate accepts in the state before it, under the block's frozen
  -- floor, and that apply_tx applies.
  pub include_all-Ran :
      (floor : ℕ) (ts : List Json) (s : State) (m : Cache) {s' : State}
      → (include_all w lru floor ts s m).0 ≡ ok s'
      → Ran floor ts s s'
  unfolding include_all include_tx
  include_all-Ran floor [] s m {s' = s'} e =
      let same : s ≡ s' = cc e in subst (λ t. Ran floor [] s t) same done
  include_all-Ran floor (obj t ∷ ts) s m e =
      let (next, e0, r0) =
        continue-ok (include_tx w lru floor (obj t) s m) (λ s' m'. include_all w lru floor ts s' m')
          e in
      let (u, e1, r1) =
        >>=-eq-ok (as_invalid_tx w (Validate.validate w.crypto lru t (view s) (some floor) m).0) _
          e0 in
      step t m (as_invalid_tx-ok _ e1) r1 (include_all-Ran floor ts next _ r0)
  include_all-Ran floor (t ∷ ts) s m e = cc

  module _ (floor : ℕ) where
    pub Ran-IsLedger :
        {ts : List Json} {s s' : State} → Ran floor ts s s' → IsLedger s → IsLedger s'
    Ran-IsLedger done h = h
    Ran-IsLedger (step tx {s = s} m a e r) h = Ran-IsLedger r (apply_tx-IsLedger tx s h e)

    pub Ran-Tracks :
        {ts : List Json} {s s' : State} (written : State)
        → Ran floor ts s s'
        → Tracks written s
        → Tracks written s'
    Ran-Tracks written done h = h
    Ran-Tracks written (step tx {s = s} m a e r) h =
        Ran-Tracks written r (apply_tx-Tracks written tx s h e)

    -- When transactions run as steps, each of them accepted by validate in the state before it and
    -- then applied, their fees have a sum, which is not negative and is exactly what leaves the
    -- ledger.
    pub Ran-Collects : {ts : List Json} {s s' : State} → Ran floor ts s s' → Collects ts s s'
    unfolding sum_fees
    Ran-Collects done = (pos 0, refl, omega arith, omega int_laws)
    Ran-Collects (step tx {ts = ts} {s = s} {s' = s'} {s'' = s''} m a e r) =
        let (rest, e0, p0, q0) = Ran-Collects r in
        let wf : IsWellFormed w.crypto tx =
          check_fields_and_outputs-IsWellFormed w.crypto tx
            (validate-Passed w.crypto lru tx (view s) (some floor) m a).fields in
        let one = tx_fee-int_field tx wf.fee wf.fee-eq in
        (
          wf.fee +ℤ rest,
          sum_fees-step (obj tx) ts wf.fee rest one e0,
          add-nonneg wf.fee rest wf.fee_nonneg p0,
          collect_one (supply s) (supply s') (supply s'') wf.fee rest
              (supply-apply_tx tx s e wf.fee-eq) q0,
        )
