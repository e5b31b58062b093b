-- ===== src/State.antt =====
-- src/state.py: the balance ledger, the nonces and the emission. A method that mutates returns the
-- new state; where it raises, its caller drops the copy that it worked on, so no state comes back.
pub mod Ledger
pub mod Apply
pub mod Mint
pub mod Dirty
pub mod Accept
pub mod Balance
use lapsecoin.Prelude.{
  ℕ, suc, ◌+◌, ◌-◌, ◌*◌, ◌/◌, String, Bool, true, false, ◌||◌, Option, none, some, List, [], ◌∷◌,
  ◌++◌, map, str_eq, leb, ◌==◌, if◌then◌else◌,
}
use lapsecoin.Prelude.Int.{ℤ, pos, pos_part, ◌+ℤ◌, leb_ℤ, ltb_ℤ}
use lapsecoin.Prelude.Result.{Result, ok, raised, value_error, ◌>>=◌}
use lapsecoin.Params.{supply_cap, emission_decay_numerator, emission_decay_denominator}
use lapsecoin.Dict.{Dict, lookup, insert, erase}
use lapsecoin.Json.{Json, Items, nil, cons, Fields, index, as_int, as_str, subscript}
use lapsecoin.Tx.{addr_of, amount_of, is_board_post, sum_amounts, sender, outputs, int_field}
use lapsecoin.Tx.Validate.{LedgerView}

-- `max(0, SUPPLY_CAP - total_minted)`
unfoldable pub compute_can_mint : ℕ → ℕ
compute_can_mint total_minted = supply_cap - total_minted

unfoldable pub compute_reward : ℕ → ℕ
unfolding compute_can_mint
compute_reward total_minted =
    compute_can_mint total_minted * emission_decay_numerator / emission_decay_denominator

-- A nonce may be any integer that a persisted table holds; balances are naturals, since `credit` and
-- `debit` refuse every other amount. `dirty` is a set: the order and the copies do not count.
pub record State : Type 0 where
  pub balances : Dict ℕ
  pub nonces : Dict ℤ
  pub total_minted : ℕ
  pub total_board_posts : ℕ
  pub dirty : List String

abbrev pub empty : State
empty = record { balances = []; nonces = []; total_minted = 0; total_board_posts = 0; dirty = [] }

abbrev pub get_or {ℓ} : {A : Type ℓ} → Option A → A → A
get_or none d = d
get_or (some a) d = a

-- `self._balances.get(addr, 0)`
abbrev pub get_balance : State → String → ℕ
get_balance s addr = get_or (lookup addr s.balances) 0

abbrev pub get_nonce : State → String → ℤ
get_nonce s addr = get_or (lookup addr s.nonces) (pos 0)

-- `addr in self._dirty`
abbrev pub is_dirty : String → List String → Bool
is_dirty addr [] = false
is_dirty addr (a ∷ rest) = str_eq a addr || is_dirty addr rest

unfoldable pub get_all_balances : State → List ℕ
get_all_balances s = map (λ e. e.1) s.balances

unfoldable pub credit : String → ℤ → State → Result State
credit addr amount s =
    if leb_ℤ amount (pos 0)
    then raised value_error
    else ok (record s {
      balances = insert addr (get_balance s addr + pos_part amount) s.balances;
      dirty = addr ∷ s.dirty;
    })

-- A balance that reaches 0 is removed, not stored.
abbrev pub settle : String → ℕ → Dict ℕ → Dict ℕ
settle addr remaining d = if remaining == 0 then erase addr d else insert addr remaining d

unfoldable pub debit : String → ℤ → State → Result State
debit addr amount s =
    if leb_ℤ amount (pos 0)
    then raised value_error
    else if ltb_ℤ (pos (get_balance s addr)) amount
    then raised value_error
    else ok (record s {
      balances = settle addr (get_balance s addr - pos_part amount) s.balances;
      dirty = addr ∷ s.dirty;
    })

unfoldable pub set_nonce : String → ℤ → State → State
set_nonce addr nonce s = record s { nonces = insert addr nonce s.nonces; dirty = addr ∷ s.dirty }

unfoldable pub mark_persisted : State → State
mark_persisted s = record s { dirty = [] }

-- `for out in tx_dict["outputs"]: self.credit(out["to"], out["amount"])`
unfoldable pub credit_outputs : Items → State → Result State
credit_outputs nil s = ok s
credit_outputs (cons out os) s = do
  addr ← addr_of out
  amount ← amount_of out
  s' ← credit addr amount s
  credit_outputs os s'

abbrev pub count_post : Bool → State → State
count_post true s = record s { total_board_posts = suc s.total_board_posts }
count_post false s = s

unfoldable pub apply_tx : Fields → State → Result State
apply_tx tx s = do
  from ← sender tx
  os ← outputs tx
  total_out ← sum_amounts os
  fee ← int_field "fee" tx
  debited ← debit from (total_out +ℤ fee) s
  credited ← credit_outputs os debited
  nonce ← int_field "nonce" tx
  post ← is_board_post tx
  ok (count_post post (set_nonce from nonce credited))

unfoldable pub compute_block_reward : State → ℕ
unfolding compute_reward
compute_block_reward s = compute_reward s.total_minted

-- One pair of a distribution: what is below one tick is skipped.
unfoldable pub mint_to : String → ℤ → State → Result State
mint_to addr amount s =
    if leb_ℤ (pos 1) amount
    then (do
      s' ← credit addr amount s
      ok (record s' { total_minted = s'.total_minted + pos_part amount }))
    else ok s

unfoldable pub apply_reward_distribution : List (String × ℤ) → State → Result State
unfolding mint_to
apply_reward_distribution [] s = ok s
apply_reward_distribution ((addr, amount) ∷ rest) s = do
  s' ← mint_to addr amount s
  apply_reward_distribution rest s'

-- `{addr: bal for addr, bal in balances.items() if bal}`
unfoldable pub drop_zeros : Dict ℕ → Dict ℕ
drop_zeros [] = []
drop_zeros ((addr, bal) ∷ d) =
    let rest = drop_zeros d in if bal == 0 then rest else (addr, bal) ∷ rest

unfoldable pub from_snapshot : Dict ℕ → Dict ℤ → ℕ → ℕ → State
unfolding drop_zeros
from_snapshot balances nonces total_minted total_board_posts = record {
  balances = drop_zeros balances;
  nonces = nonces;
  total_minted = total_minted;
  total_board_posts = total_board_posts;
  dirty = [];
}

-- What `tx.validate` reads of a state.
abbrev pub view : State → LedgerView
view s = record {
  get_balance = get_balance s;
  get_nonce = get_nonce s;
  total_board_posts = s.total_board_posts;
}
