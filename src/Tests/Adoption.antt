-- ===== src/Tests/Adoption.antt =====
-- Runs of the chain adoption of src/node.py on the blocks of Tests/Data.
use lapsecoin.Prelude.{◌≡◌, refl, List, [], ◌∷◌}
use lapsecoin.Prelude.Int.{◌+ℤ◌}
use lapsecoin.Prelude.Result.{ok}
use lapsecoin.Prelude.Text
use lapsecoin.Json
use lapsecoin.Crypto
use lapsecoin.Tx
use lapsecoin.Tx.Shape
use lapsecoin.Tx.Signature
use lapsecoin.Tx.Validate as TxValidate
use lapsecoin.State
use lapsecoin.Block
use lapsecoin.Block.Retarget
use lapsecoin.Block.Validate
use lapsecoin.Chain
use lapsecoin.Chain.Grow
use lapsecoin.Block.{Block, create_genesis}
use lapsecoin.Chain.{ChainState, from_genesis}
use lapsecoin.Chain.Fork
use lapsecoin.Chain.Fork.Search
use lapsecoin.Chain.Fork.{is_better_than}
use lapsecoin.Node
use lapsecoin.Node.{
  Node, state_at, recent_state_cache_size, remember_state, forget_states_from, same_genesis,
  evaluate_remote_chain,
}
use lapsecoin.Node.Adopt.{Adopted, evaluate_remote_chain-Adopted}
use lapsecoin.Tests.Data.{world, no_cache, now, block_1, block_2, value_or}

abbrev fresh_node : Node
fresh_node = record { cs = from_genesis world; recent = [] }

abbrev remote : List Block
remote = create_genesis world ∷ block_1 ∷ block_2 ∷ []

abbrev adopted : ChainState
unfolding Text.encode Text.same_codes Text.has_code Text.split Text.join Text.from_hex Json.has_item
    Json.contains Json.subscript Crypto.verify Crypto.public_key_to_address Crypto.burn_address
    Crypto.is_valid_address Tx.unsigned Tx.serialize_for_signing Tx.is_board_post Tx.board_fee_floor
    Tx.sum_amounts Tx.sender Tx.outputs Tx.int_field Shape.has_unexpected Shape.require_fields
    Shape.is_sender Shape.lacks_amount Shape.count_items Shape.non_empty_list Shape.check_memo
    Shape.check_output Shape.check_outputs Shape.check_fields_and_outputs
    Shape.check_not_from_burn_address Signature.question Signature.answered Signature.verdict
    Signature.judged Signature.check_signature TxValidate.check_nonce TxValidate.check_balance
    TxValidate.check_floor TxValidate.check_board_fee TxValidate.checks_before
    TxValidate.checks_after TxValidate.after_shape TxValidate.validate ◌+ℤ◌ State.credit State.debit
    State.set_nonce State.credit_outputs State.apply_tx State.compute_can_mint State.compute_reward
    State.compute_block_reward State.mint_to State.apply_reward_distribution Block.vdf_verify
    Block.vdf_challenge Block.block_hash Block.block_size Block.tx_fee Block.sum_fees
    Block.block_fees Block.create Block.create_genesis Retarget.block_at Retarget.at_boundary
    Retarget.between_boundaries Retarget.get_vdf_iterations Validate.check_size Validate.check_hash
    Validate.check_parent Validate.check_timestamp Validate.check_proof
    Validate.check_builder_and_vdf Validate.header_checks Validate.include_tx Validate.include_all
    Validate.apply_transactions Validate.validate Chain.truthy Chain.credit_fees Chain.mint_reward
    Chain.apply_builder_reward Chain.reward_builder Chain.apply_to_state Chain.from_genesis
    Chain.apply_block_with_state Chain.validate_and_apply Grow.extend Search.first_difference
    Fork.tip_hash Fork.is_better_than Node.resume_point Node.same_genesis Node.build_remote
    Node.evaluate_remote_chain
adopted =
    value_or (from_genesis world)
      (evaluate_remote_chain world no_cache fresh_node (λ i. now) remote tt).0

remote-adopted :
    (evaluate_remote_chain world no_cache fresh_node (λ i. now) remote tt).0 ≡ ok adopted
unfolding Text.encode Text.same_codes Text.has_code Text.split Text.join Text.from_hex Json.has_item
    Json.contains Json.subscript Crypto.verify Crypto.public_key_to_address Crypto.burn_address
    Crypto.is_valid_address Tx.unsigned Tx.serialize_for_signing Tx.is_board_post Tx.board_fee_floor
    Tx.sum_amounts Tx.sender Tx.outputs Tx.int_field Shape.has_unexpected Shape.require_fields
    Shape.is_sender Shape.lacks_amount Shape.count_items Shape.non_empty_list Shape.check_memo
    Shape.check_output Shape.check_outputs Shape.check_fields_and_outputs
    Shape.check_not_from_burn_address Signature.question Signature.answered Signature.verdict
    Signature.judged Signature.check_signature TxValidate.check_nonce TxValidate.check_balance
    TxValidate.check_floor TxValidate.check_board_fee TxValidate.checks_before
    TxValidate.checks_after TxValidate.after_shape TxValidate.validate ◌+ℤ◌ State.credit State.debit
    State.set_nonce State.credit_outputs State.apply_tx State.compute_can_mint State.compute_reward
    State.compute_block_reward State.mint_to State.apply_reward_distribution Block.vdf_verify
    Block.vdf_challenge Block.block_hash Block.block_size Block.tx_fee Block.sum_fees
    Block.block_fees Block.create Block.create_genesis Retarget.block_at Retarget.at_boundary
    Retarget.between_boundaries Retarget.get_vdf_iterations Validate.check_size Validate.check_hash
    Validate.check_parent Validate.check_timestamp Validate.check_proof
    Validate.check_builder_and_vdf Validate.header_checks Validate.include_tx Validate.include_all
    Validate.apply_transactions Validate.validate Chain.truthy Chain.credit_fees Chain.mint_reward
    Chain.apply_builder_reward Chain.reward_builder Chain.apply_to_state Chain.from_genesis
    Chain.apply_block_with_state Chain.validate_and_apply Grow.extend Search.first_difference
    Fork.tip_hash Fork.is_better_than Node.resume_point Node.same_genesis Node.build_remote
    Node.evaluate_remote_chain
remote-adopted = refl

evaluate_remote_chain-Adopted_example : Adopted world no_cache fresh_node.cs remote adopted
evaluate_remote_chain-Adopted_example =
    evaluate_remote_chain-Adopted world no_cache fresh_node (λ i. now) remote tt remote-adopted
