-- ===== src/Mempool/Overlay.antt =====
-- `_Overlay` of src/mempool.py: a writable view over a state. A balance of 0 is stored here, where
-- the state removes it.
pub mod Agrees
use lapsecoin.Prelude.{
  ℕ, ◌+◌, ◌-◌, String, Bool, true, false, Option, none, some, List, [], ◌∷◌, if◌then◌else◌,
}
use lapsecoin.Prelude.Int.{ℤ, pos, pos_part, ◌+ℤ◌, leb_ℤ, ltb_ℤ}
use lapsecoin.Prelude.Result.{Result, ok, raised, value_error, ◌>>=◌}
use lapsecoin.Dict.{Dict, lookup, insert}
use lapsecoin.Json.{Items, nil, cons, Fields}
use lapsecoin.Tx.{addr_of, amount_of, sum_amounts, sender, outputs, int_field}
use lapsecoin.Tx.Validate.{LedgerView}
use lapsecoin.State
use lapsecoin.State.{State, get_or}

pub record Overlay : Type 0 where
  pub base : State
  pub own_balances : Dict ℕ
  pub own_nonces : Dict ℤ

abbrev pub over : State → Overlay
over s = record { base = s; own_balances = []; own_nonces = [] }

abbrev pub get_balance : Overlay → String → ℕ
get_balance o addr = get_or (lookup addr o.own_balances) (State.get_balance o.base addr)

abbrev pub get_nonce : Overlay → String → ℤ
get_nonce o addr = get_or (lookup addr o.own_nonces) (State.get_nonce o.base addr)

unfoldable pub credit : String → ℤ → Overlay → Result Overlay
credit addr amount o =
    if leb_ℤ amount (pos 0)
    then raised value_error
    else ok (record o {
      own_balances = insert addr (get_balance o addr + pos_part amount) o.own_balances;
    })

unfoldable pub debit : String → ℤ → Overlay → Result Overlay
debit addr amount o =
    if leb_ℤ amount (pos 0)
    then raised value_error
    else if ltb_ℤ (pos (get_balance o addr)) amount
    then raised value_error
    else ok (record o {
      own_balances = insert addr (get_balance o addr - pos_part amount) o.own_balances;
    })

unfoldable pub set_nonce : String → ℤ → Overlay → Overlay
set_nonce addr nonce o = record o { own_nonces = insert addr nonce o.own_nonces }

unfoldable pub credit_outputs : Items → Overlay → Result Overlay
credit_outputs nil o = ok o
credit_outputs (cons out os) o = do
  addr ← addr_of out
  amount ← amount_of out
  o' ← credit addr amount o
  credit_outputs os o'

unfoldable pub apply_tx : Fields → Overlay → Result Overlay
apply_tx tx o = do
  from ← sender tx
  os ← outputs tx
  total_out ← sum_amounts os
  fee ← int_field "fee" tx
  debited ← debit from (total_out +ℤ fee) o
  credited ← credit_outputs os debited
  nonce ← int_field "nonce" tx
  ok (set_nonce from nonce credited)

-- What the checks of a transaction see; the count of posts is the state's own.
abbrev pub view : Overlay → LedgerView
view o = record {
  get_balance = get_balance o;
  get_nonce = get_nonce o;
  total_board_posts = o.base.total_board_posts;
}
