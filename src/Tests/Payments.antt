-- ===== src/Tests/Payments.antt =====
-- Runs of src/tx.py and src/state.py on the payment of Tests/Data.
use lapsecoin.Prelude.{String, ◌≡◌, refl, true, none, List, [], ◌∷◌, arith}
use lapsecoin.Prelude.Int.{ℤ, pos, ◌+ℤ◌}
use lapsecoin.Prelude.Result.{ok}
use lapsecoin.Prelude.Text
use lapsecoin.Json
use lapsecoin.Crypto
use lapsecoin.Tx
use lapsecoin.Tx.Shape
use lapsecoin.Tx.Signature
use lapsecoin.Tx.Validate
use lapsecoin.Tx.Validate.{validate}
use lapsecoin.State
use lapsecoin.State.{State, apply_tx, view}
use lapsecoin.State.Accept.{validate-apply_tx, validate-apply_tx_twice}
use lapsecoin.State.Ledger.{IsLedger}
use lapsecoin.State.Balance.{share, received, balance-apply_tx}
use lapsecoin.State.{get_balance, compute_reward, apply_reward_distribution, mark_persisted}
use lapsecoin.Tx.{sender, outputs, int_field, sum_amounts, is_board_post}
use lapsecoin.Tx.Shape.{check_fields_and_outputs}
use lapsecoin.Tx.Payable.{IsWellFormed, check_fields_and_outputs-IsWellFormed}
use lapsecoin.Tx.Accepted.{Passed, validate-Passed}
use lapsecoin.Tx.Validate.{board_floor}
use lapsecoin.Tx.Signature.{check_signature}
use lapsecoin.Tx.Cached.{IsSound, fresh_check, check_signature-fresh}
use lapsecoin.Tests.Data.{crypto, no_cache, payment, payment_outputs, alice, bob, funded, value_or}

payment_accepted : (validate crypto no_cache payment (view funded) none tt).0 ≡ ok tt
unfolding Text.encode Text.same_codes Text.has_code Text.split Text.join Text.from_hex Json.has_item
    Json.contains Json.subscript Crypto.verify Crypto.public_key_to_address Crypto.burn_address
    Crypto.is_valid_address Tx.unsigned Tx.serialize_for_signing Tx.is_board_post Tx.board_fee_floor
    Tx.sum_amounts Tx.sender Tx.outputs Tx.int_field Shape.has_unexpected Shape.require_fields
    Shape.is_sender Shape.lacks_amount Shape.count_items Shape.non_empty_list Shape.check_memo
    Shape.check_output Shape.check_outputs Shape.check_fields_and_outputs
    Shape.check_not_from_burn_address Signature.question Signature.answered Signature.verdict
    Signature.judged Signature.check_signature Validate.check_nonce Validate.check_balance
    Validate.check_floor Validate.check_board_fee Validate.checks_before Validate.checks_after
    Validate.after_shape Validate.validate ◌+ℤ◌
payment_accepted = refl

abbrev paid : State
unfolding Json.subscript Tx.is_board_post Tx.sum_amounts Tx.sender Tx.outputs Tx.int_field
    State.credit State.debit State.set_nonce State.credit_outputs State.apply_tx ◌+ℤ◌
paid = value_or funded (apply_tx payment funded)

payment_applied : apply_tx payment funded ≡ ok paid
unfolding Json.subscript Tx.is_board_post Tx.sum_amounts Tx.sender Tx.outputs Tx.int_field
    State.credit State.debit State.set_nonce State.credit_outputs State.apply_tx ◌+ℤ◌
payment_applied = refl

validate-apply_tx_example : (s' : State) × (apply_tx payment funded ≡ ok s')
validate-apply_tx_example =
    validate-apply_tx crypto no_cache payment funded none tt payment_accepted

validate-apply_tx_twice_example :
    ¬ ((validate crypto no_cache payment (view paid) none tt).0 ≡ ok tt)
validate-apply_tx_twice_example =
    validate-apply_tx_twice crypto no_cache payment funded none tt tt payment_accepted
      payment_applied

-- What the parts of the payment are.
parts :
    (sender payment ≡ ok alice)
    × (outputs payment ≡ ok payment_outputs)
    × (sum_amounts payment_outputs ≡ ok (pos 5))
    × (int_field "fee" payment ≡ ok (pos 2))
    × (is_board_post payment ≡ ok true)
unfolding Json.subscript Tx.is_board_post Tx.sum_amounts Tx.sender Tx.outputs Tx.int_field ◌+ℤ◌
parts = (refl, refl, refl, refl, refl)

funded-IsLedger : IsLedger funded
funded-IsLedger = record { keyed = (refl, tt); positive = (omega arith, tt) }

balance-apply_tx_example :
    pos (get_balance paid bob) +ℤ share alice bob (pos 5 +ℤ pos 2)
    ≡ pos (get_balance funded bob) +ℤ received bob payment_outputs
balance-apply_tx_example =
    balance-apply_tx payment bob alice payment_outputs (pos 5) (pos 2) funded funded-IsLedger
      payment_applied parts.0 parts.1 parts.2 parts.3

abbrev rewards : List (String × ℤ)
rewards = (bob, pos 3) ∷ (alice, pos 4) ∷ []

passed : Passed crypto no_cache payment (view funded) none tt
passed = validate-Passed crypto no_cache payment (view funded) none tt payment_accepted

check_fields_and_outputs-IsWellFormed_example : IsWellFormed crypto payment
check_fields_and_outputs-IsWellFormed_example =
    check_fields_and_outputs-IsWellFormed crypto payment passed.fields

check_signature-fresh_example :
    ((check_signature crypto no_cache payment tt).0 ≡ fresh_check crypto no_cache payment)
    × IsSound crypto no_cache (check_signature crypto no_cache payment tt).1
check_signature-fresh_example =
    check_signature-fresh crypto no_cache payment tt (λ tx' e. e) (λ tx q e v found. cc)
