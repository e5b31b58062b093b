-- ===== src/Tests/Chains.antt =====
-- Runs of src/block.py, src/chainstate.py and the loop of src/node.py on the blocks of Tests/Data.
use lapsecoin.Prelude.{◌+◌, ◌≡◌, ◌≢◌, refl, true, false, some, List, [], ◌∷◌, arith, All}
use lapsecoin.Prelude.Int.{◌+ℤ◌}
use lapsecoin.Prelude.Result.{ok}
use lapsecoin.Prelude.Text
use lapsecoin.Json
use lapsecoin.Crypto
use lapsecoin.Tx
use lapsecoin.Tx.Shape
use lapsecoin.Tx.Signature
use lapsecoin.Tx.Validate as TxValidate
use lapsecoin.State
use lapsecoin.State.{State}
use lapsecoin.Block
use lapsecoin.Block.{Block}
use lapsecoin.Block.Retarget
use lapsecoin.Block.Validate
use lapsecoin.Chain
use lapsecoin.Chain.{ChainState, from_genesis, from_chain}
use lapsecoin.Chain.Grow
use lapsecoin.Chain.Grow.{
  extend, IsExact, NotGenesis, extend-IsExact, extend-IsBacked, from_chain-extend,
}
use lapsecoin.Chain.Fork
use lapsecoin.Chain.Fork.{is_better_than}
use lapsecoin.Chain.Fork.Tie.{is_better_than_asymm}
use lapsecoin.Chain.{validate_and_apply}
use lapsecoin.Chain.Extends.{Proven, check_builder_and_vdf-Proven}
use lapsecoin.Block.Validate.{
  check_parent, check_timestamp, check_builder_and_vdf, last?, include_all,
}
use lapsecoin.Block.Ran.{Ran, include_all-Ran}
use lapsecoin.State.Ledger.{IsLedger, supply}
use lapsecoin.State.{compute_reward}
use lapsecoin.Chain.Backed.{IsBacked, validate_and_apply-supply}
use lapsecoin.Tests.Data.{world, no_cache, now, block_1, block_2, value_or}

abbrev tail : List Block
tail = block_1 ∷ block_2 ∷ []

abbrev grown : ChainState
unfolding Text.encode Text.same_codes Text.has_code Text.split Text.join Text.from_hex Json.has_item
    Json.contains Json.subscript Crypto.verify Crypto.public_key_to_address Crypto.burn_address
    Crypto.is_valid_address Tx.unsigned Tx.serialize_for_signing Tx.is_board_post Tx.board_fee_floor
    Tx.sum_amounts Tx.sender Tx.outputs Tx.int_field Shape.has_unexpected Shape.require_fields
    Shape.is_sender Shape.lacks_amount Shape.count_items Shape.non_empty_list Shape.check_memo
    Shape.check_output Shape.check_outputs Shape.check_fields_and_outputs
    Shape.check_not_from_burn_address Signature.question Signature.answered Signature.verdict
    Signature.judged Signature.check_signature TxValidate.check_nonce TxValidate.check_balance
    TxValidate.check_floor TxValidate.check_board_fee TxValidate.checks_before
    TxValidate.checks_after TxValidate.after_shape TxValidate.validate ◌+ℤ◌ State.credit State.debit
    State.set_nonce State.credit_outputs State.apply_tx State.compute_can_mint State.compute_reward
    State.compute_block_reward State.mint_to State.apply_reward_distribution Block.vdf_verify
    Block.vdf_challenge Block.block_hash Block.block_size Block.tx_fee Block.sum_fees
    Block.block_fees Block.create Block.create_genesis Retarget.block_at Retarget.at_boundary
    Retarget.between_boundaries Retarget.get_vdf_iterations Validate.check_size Validate.check_hash
    Validate.check_parent Validate.check_timestamp Validate.check_proof
    Validate.check_builder_and_vdf Validate.header_checks Validate.include_tx Validate.include_all
    Validate.apply_transactions Validate.validate Chain.truthy Chain.credit_fees Chain.mint_reward
    Chain.apply_builder_reward Chain.reward_builder Chain.apply_to_state Chain.from_genesis
    Chain.apply_block_with_state Chain.validate_and_apply Grow.extend
grown =
    value_or (from_genesis world)
      (extend world no_cache (λ i. now) 0 tail (from_genesis world) tt).0

-- What the first block alone makes of genesis.
abbrev one : ChainState
unfolding Text.encode Text.same_codes Text.has_code Text.split Text.join Text.from_hex Json.has_item
    Json.contains Json.subscript Crypto.verify Crypto.public_key_to_address Crypto.burn_address
    Crypto.is_valid_address Tx.unsigned Tx.serialize_for_signing Tx.is_board_post Tx.board_fee_floor
    Tx.sum_amounts Tx.sender Tx.outputs Tx.int_field Shape.has_unexpected Shape.require_fields
    Shape.is_sender Shape.lacks_amount Shape.count_items Shape.non_empty_list Shape.check_memo
    Shape.check_output Shape.check_outputs Shape.check_fields_and_outputs
    Shape.check_not_from_burn_address Signature.question Signature.answered Signature.verdict
    Signature.judged Signature.check_signature TxValidate.check_nonce TxValidate.check_balance
    TxValidate.check_floor TxValidate.check_board_fee TxValidate.checks_before
    TxValidate.checks_after TxValidate.after_shape TxValidate.validate ◌+ℤ◌ State.credit State.debit
    State.set_nonce State.credit_outputs State.apply_tx State.compute_can_mint State.compute_reward
    State.compute_block_reward State.mint_to State.apply_reward_distribution Block.vdf_verify
    Block.vdf_challenge Block.block_hash Block.block_size Block.tx_fee Block.sum_fees
    Block.block_fees Block.create Block.create_genesis Retarget.block_at Retarget.at_boundary
    Retarget.between_boundaries Retarget.get_vdf_iterations Validate.check_size Validate.check_hash
    Validate.check_parent Validate.check_timestamp Validate.check_proof
    Validate.check_builder_and_vdf Validate.header_checks Validate.include_tx Validate.include_all
    Validate.apply_transactions Validate.validate Chain.truthy Chain.credit_fees Chain.mint_reward
    Chain.apply_builder_reward Chain.reward_builder Chain.apply_to_state Chain.from_genesis
    Chain.apply_block_with_state Chain.validate_and_apply Grow.extend
one =
    value_or (from_genesis world)
      (validate_and_apply world no_cache now (from_genesis world) block_1 tt).0

-- The state after the transactions of the second block, before its reward.
abbrev spent : State
unfolding Text.encode Text.same_codes Text.has_code Text.split Text.join Text.from_hex Json.has_item
    Json.contains Json.subscript Crypto.verify Crypto.public_key_to_address Crypto.burn_address
    Crypto.is_valid_address Tx.unsigned Tx.serialize_for_signing Tx.is_board_post Tx.board_fee_floor
    Tx.sum_amounts Tx.sender Tx.outputs Tx.int_field Shape.has_unexpected Shape.require_fields
    Shape.is_sender Shape.lacks_amount Shape.count_items Shape.non_empty_list Shape.check_memo
    Shape.check_output Shape.check_outputs Shape.check_fields_and_outputs
    Shape.check_not_from_burn_address Signature.question Signature.answered Signature.verdict
    Signature.judged Signature.check_signature TxValidate.check_nonce TxValidate.check_balance
    TxValidate.check_floor TxValidate.check_board_fee TxValidate.checks_before
    TxValidate.checks_after TxValidate.after_shape TxValidate.validate ◌+ℤ◌ State.credit State.debit
    State.set_nonce State.credit_outputs State.apply_tx State.compute_can_mint State.compute_reward
    State.compute_block_reward State.mint_to State.apply_reward_distribution Block.vdf_verify
    Block.vdf_challenge Block.block_hash Block.block_size Block.tx_fee Block.sum_fees
    Block.block_fees Block.create Block.create_genesis Retarget.block_at Retarget.at_boundary
    Retarget.between_boundaries Retarget.get_vdf_iterations Validate.check_size Validate.check_hash
    Validate.check_parent Validate.check_timestamp Validate.check_proof
    Validate.check_builder_and_vdf Validate.header_checks Validate.include_tx Validate.include_all
    Validate.apply_transactions Validate.validate Chain.truthy Chain.credit_fees Chain.mint_reward
    Chain.apply_builder_reward Chain.reward_builder Chain.apply_to_state Chain.from_genesis
    Chain.apply_block_with_state Chain.validate_and_apply Grow.extend
spent = value_or one.state (include_all world no_cache 1 block_2.transactions one.state tt).0

runs :
    ((extend world no_cache (λ i. now) 0 tail (from_genesis world) tt).0 ≡ ok grown)
    × ((validate_and_apply world no_cache now (from_genesis world) block_1 tt).0 ≡ ok one)
    × (check_parent world block_2 one.chain ≡ ok tt)
    × (check_timestamp world now block_2 one.chain ≡ ok tt)
    × (check_builder_and_vdf world block_2 one.chain ≡ ok tt)
    × (last? one.chain ≡ some block_1)
    × (is_better_than world grown one ≡ ok true)
    × ((include_all world no_cache 1 block_2.transactions one.state tt).0 ≡ ok spent)
unfolding Text.encode Text.same_codes Text.has_code Text.split Text.join Text.from_hex Json.has_item
    Json.contains Json.subscript Crypto.verify Crypto.public_key_to_address Crypto.burn_address
    Crypto.is_valid_address Tx.unsigned Tx.serialize_for_signing Tx.is_board_post Tx.board_fee_floor
    Tx.sum_amounts Tx.sender Tx.outputs Tx.int_field Shape.has_unexpected Shape.require_fields
    Shape.is_sender Shape.lacks_amount Shape.count_items Shape.non_empty_list Shape.check_memo
    Shape.check_output Shape.check_outputs Shape.check_fields_and_outputs
    Shape.check_not_from_burn_address Signature.question Signature.answered Signature.verdict
    Signature.judged Signature.check_signature TxValidate.check_nonce TxValidate.check_balance
    TxValidate.check_floor TxValidate.check_board_fee TxValidate.checks_before
    TxValidate.checks_after TxValidate.after_shape TxValidate.validate ◌+ℤ◌ State.credit State.debit
    State.set_nonce State.credit_outputs State.apply_tx State.compute_can_mint State.compute_reward
    State.compute_block_reward State.mint_to State.apply_reward_distribution Block.vdf_verify
    Block.vdf_challenge Block.block_hash Block.block_size Block.tx_fee Block.sum_fees
    Block.block_fees Block.create Block.create_genesis Retarget.block_at Retarget.at_boundary
    Retarget.between_boundaries Retarget.get_vdf_iterations Validate.check_size Validate.check_hash
    Validate.check_parent Validate.check_timestamp Validate.check_proof
    Validate.check_builder_and_vdf Validate.header_checks Validate.include_tx Validate.include_all
    Validate.apply_transactions Validate.validate Chain.truthy Chain.credit_fees Chain.mint_reward
    Chain.apply_builder_reward Chain.reward_builder Chain.apply_to_state Chain.from_genesis
    Chain.apply_block_with_state Chain.validate_and_apply Grow.extend Fork.is_better_than
runs = (refl, refl, refl, refl, refl, refl, refl, refl)

tail-NotGenesis : All NotGenesis tail
unfolding Block.create
tail-NotGenesis = (λ e. omega (arith, e), (λ e. omega (arith, e), tt))

extend-IsExact_example : IsExact grown.state
extend-IsExact_example = extend-IsExact world no_cache (λ i. now) tail tt tail-NotGenesis runs.0

extend-IsBacked_example : IsBacked grown.state
extend-IsBacked_example = extend-IsBacked world no_cache (λ i. now) tail tt runs.0

from_chain-extend_example : from_chain grown.chain ≡ ok grown
from_chain-extend_example =
    from_chain-extend world no_cache (λ i. now) tail tt tail-NotGenesis runs.0

genesis-IsLedger : IsLedger (from_genesis world).state
unfolding Chain.from_genesis
genesis-IsLedger = record { keyed = tt; positive = tt }

block_1_height : block_1.height ≢ 0
block_1_height = tail-NotGenesis.0

validate_and_apply-supply_example :
    IsLedger one.state
    × (one.state.total_minted
        ≡ (from_genesis world).state.total_minted
          + compute_reward (from_genesis world).state.total_minted)
    × (supply one.state
        ≡ supply (from_genesis world).state
          + compute_reward (from_genesis world).state.total_minted)
validate_and_apply-supply_example =
    validate_and_apply-supply world no_cache now (from_genesis world) block_1 tt genesis-IsLedger
      block_1_height runs.1

check_builder_and_vdf-Proven_example : Proven world block_2 one.chain
check_builder_and_vdf-Proven_example =
    check_builder_and_vdf-Proven world block_2 one.chain tail-NotGenesis.1.0 runs.4

is_better_than_asymm_example : is_better_than world one grown ≡ ok false
is_better_than_asymm_example = is_better_than_asymm world grown one runs.6

include_all-Ran_example : Ran world no_cache 1 block_2.transactions one.state spent
include_all-Ran_example = include_all-Ran world no_cache 1 block_2.transactions one.state tt runs.7
