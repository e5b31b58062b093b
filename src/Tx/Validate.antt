-- ===== src/Tx/Validate.antt =====
-- The checks of src/tx.py that read the ledger, and `validate`, which runs all six in order.
use lapsecoin.Prelude.{ℕ, String, Bool, true, false, not, Option, none, some}
use lapsecoin.Prelude.Int.{ℤ, pos, ◌+ℤ◌, ltb_ℤ, eqb_ℤ}
use lapsecoin.Prelude.Result.{
  Check, ok, refused, raised, ◌>>=◌, ◌>>◌, refuse_if, bad_nonce, insufficient_balance,
  board_fee_low,
}
use lapsecoin.Json.{Fields}
use lapsecoin.Crypto.{Crypto}
use lapsecoin.Tx.{is_board_post, board_fee_floor, sum_amounts, sender, outputs, int_field}
use lapsecoin.Tx.Shape.{check_fields_and_outputs, check_not_from_burn_address}
use lapsecoin.Tx.Signature.{LruCache, check_signature}

-- "object with .get_balance(addr), .get_nonce(addr), .total_board_posts": what the checks use of
-- the ledger, which the chain's state and the mempool's overlay both give.
pub record LedgerView : Type 0 where
  pub get_balance : String → ℕ
  pub get_nonce : String → ℤ
  pub total_board_posts : ℕ

unfoldable pub check_nonce : Fields → LedgerView → Check
check_nonce tx state = do
  from ← sender tx
  nonce ← int_field "nonce" tx
  refuse_if (not (eqb_ℤ nonce (state.get_nonce from +ℤ pos 1))) bad_nonce

unfoldable pub check_balance : Fields → LedgerView → Check
check_balance tx state = do
  os ← outputs tx
  total_out ← sum_amounts os
  from ← sender tx
  fee ← int_field "fee" tx
  refuse_if (ltb_ℤ (pos (state.get_balance from)) (total_out +ℤ fee)) insufficient_balance

-- `floor_override if floor_override is not None else board_fee_floor(...)`
abbrev pub board_floor : Option ℕ → LedgerView → ℕ
board_floor none state = board_fee_floor state.total_board_posts
board_floor (some floor) state = floor

unfoldable pub check_floor : Bool → Fields → ℕ → Check
check_floor false tx floor = ok tt
check_floor true tx floor = do
  fee ← int_field "fee" tx
  refuse_if (ltb_ℤ fee (pos floor)) board_fee_low

unfoldable pub check_board_fee : Fields → LedgerView → Option ℕ → Check
check_board_fee tx state floor_override = do
  post ← is_board_post tx
  check_floor post tx (board_floor floor_override state)

-- The checks before and after the signature's, which alone has a state of its own.
unfoldable pub checks_before : Crypto → Fields → Check
checks_before c tx = do check_fields_and_outputs c tx; check_not_from_burn_address c tx

unfoldable pub checks_after : Fields → LedgerView → Option ℕ → Check
checks_after tx state floor_override = do
  check_nonce tx state
  check_balance tx state
  check_board_fee tx state floor_override

module _ (c : Crypto) (lru : LruCache) where
  open lru use {Cache}

  -- Early return: the signature is asked for only if what comes before it has passed.
  unfoldable pub after_shape : Check → Fields → LedgerView → Option ℕ → Cache → Check × Cache
  after_shape (ok _) tx state floor_override m =
      let (answer, m') = check_signature c lru tx m in
      (answer >> checks_after tx state floor_override, m')
  after_shape (refused e) tx state floor_override m = (refused e, m)
  after_shape (raised x) tx state floor_override m = (raised x, m)

  unfoldable pub validate : Fields → LedgerView → Option ℕ → Cache → Check × Cache
  unfolding after_shape
  validate tx state floor_override m = after_shape (checks_before c tx) tx state floor_override m
