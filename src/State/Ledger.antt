-- ===== src/State/Ledger.antt =====
-- The invariants of the ledger (src/state.py): no address twice, no balance of 0; and what each
-- method does to the sum of the balances.
use lapsecoin.Prelude.{ℕ, ◌+◌, ◌-◌, ◌<◌, String, ◌≡◌, [], ◌∷◌, arith}
use lapsecoin.Prelude.Int.{ℤ, pos, pos_part, ◌+ℤ◌, int_laws}
use lapsecoin.Prelude.Result.{ok}
use lapsecoin.Dict.{Dict, lookup, insert, erase, IsKeyed, insert-IsKeyed, erase-IsKeyed}
use lapsecoin.State.{State, get_or, settle, credit, debit}

-- The sum of a table of balances.
abbrev pub sum : Dict ℕ → ℕ
sum [] = 0
sum ((_, v) ∷ d) = v + sum d

-- Every entry is a real holder.
abbrev pub AllPositive : Dict ℕ → Type 0
AllPositive [] = Unit
AllPositive ((_, v) ∷ d) = (0 < v) × AllPositive d

pub sum-insert :
    (k : String) (v : ℕ) (d : Dict ℕ) → sum (insert k v d) + get_or (lookup k d) 0 ≡ sum d + v
sum-insert k v [] = omega arith
sum-insert k v ((i, w) ∷ d) = ground (arith, sum-insert k v d)

pub sum-erase : (k : String) (d : Dict ℕ) → sum (erase k d) + get_or (lookup k d) 0 ≡ sum d
sum-erase k [] = omega arith
sum-erase k ((i, w) ∷ d) = ground (arith, sum-erase k d)

pub sum-settle :
    (k : String) (v : ℕ) (d : Dict ℕ) → sum (settle k v d) + get_or (lookup k d) 0 ≡ sum d + v
sum-settle k v d = ground (arith, sum-insert k v d, sum-erase k d)

insert-AllPositive :
    (k : String) (v : ℕ) (d : Dict ℕ) → 0 < v → AllPositive d → AllPositive (insert k v d)
insert-AllPositive k v [] p h = (p, tt)
insert-AllPositive k v ((i, w) ∷ d) p h = ground (arith, insert-AllPositive k v d p h.1)

erase-AllPositive : (k : String) (d : Dict ℕ) → AllPositive d → AllPositive (erase k d)
erase-AllPositive k [] h = tt
erase-AllPositive k ((i, w) ∷ d) h = ground (arith, erase-AllPositive k d h.1)

pub record IsLedger (s : State) : Type 0 where
  pub keyed : IsKeyed s.balances
  pub positive : AllPositive s.balances

abbrev pub supply : State → ℕ
supply s = sum s.balances

pub credit-IsLedger :
    (a : String) (z : ℤ) (s : State) {s' : State} → IsLedger s → credit a z s ≡ ok s' → IsLedger s'
unfolding credit
credit-IsLedger a z s h e = ground (
  arith,
  insert-IsKeyed a (get_or (lookup a s.balances) 0 + pos_part z) s.balances h.keyed,
  insert-AllPositive a (get_or (lookup a s.balances) 0 + pos_part z) s.balances,
)

pub debit-IsLedger :
    (a : String) (z : ℤ) (s : State) {s' : State} → IsLedger s → debit a z s ≡ ok s' → IsLedger s'
unfolding debit
debit-IsLedger a z s h e = ground (
  arith,
  insert-IsKeyed a (get_or (lookup a s.balances) 0 - pos_part z) s.balances h.keyed,
  insert-AllPositive a (get_or (lookup a s.balances) 0 - pos_part z) s.balances,
  erase-IsKeyed a s.balances h.keyed,
  erase-AllPositive a s.balances h.positive,
)

pub supply-credit :
    (a : String) (z : ℤ) (s : State) {s' : State}
    → credit a z s ≡ ok s'
    → pos (supply s') ≡ pos (supply s) +ℤ z
unfolding credit
supply-credit a z s e =
    grind (int_laws, sum-insert a (get_or (lookup a s.balances) 0 + pos_part z) s.balances)

pub supply-debit :
    (a : String) (z : ℤ) (s : State) {s' : State}
    → debit a z s ≡ ok s'
    → pos (supply s') +ℤ z ≡ pos (supply s)
unfolding debit
supply-debit a z s e =
    grind (int_laws, sum-settle a (get_or (lookup a s.balances) 0 - pos_part z) s.balances)
