-- ===== src/Tests/Draws.antt =====
-- Runs of the verdicts and the draw of src/node.py on the blocks of Tests/Data.
use lapsecoin.Prelude.{
  ℕ, String, ◌≡◌, ◌⊎◌, ◌≢◌, inl, inr, refl, Bool, true, Option, none, some, [], ◌∷◌, str_eq, eq_iff,
  if-cases, if◌then◌else◌,
}
use lapsecoin.Prelude.Int.{◌+ℤ◌}
use lapsecoin.Prelude.Result.{ok, refused, hash_mismatch}
use lapsecoin.Prelude.Text
use lapsecoin.Json.{str}
use lapsecoin.Json
use lapsecoin.Crypto
use lapsecoin.Tx
use lapsecoin.State
use lapsecoin.State.{State}
use lapsecoin.Block
use lapsecoin.Block.{Block, World, block_hash, create_genesis, tie_break_key}
use lapsecoin.Block.Retarget
use lapsecoin.Block.Validate
use lapsecoin.Block.Validate.{check_hash}
use lapsecoin.Chain
use lapsecoin.Chain.{ChainState, from_genesis}
use lapsecoin.Chain.Fork
use lapsecoin.Node.Judge.{VerdictCache, Memory, validate_candidate}
use lapsecoin.Node.Judge.Repeats.{Follows, validate_candidate-fresh, str_eq_refl}
use lapsecoin.Node.Judge.Sound.{Validated}
use lapsecoin.Node.Judge.Looks.{looks, validate_candidate-looks, validate_candidate-Validated}
use lapsecoin.Node.Draw.{pick_winner}
use lapsecoin.Node.Draw.Pick.{Won, pick_winner-Won}
use lapsecoin.Node.Draw.Forged.{pick_winner-forged}
use lapsecoin.Tests.Data.{world, no_cache, now, block_1, bob, value_or}

-- Verdicts as a function, which forgets nothing.
abbrev pub all_verdicts : VerdictCache
all_verdicts = record {
  Verdicts = String → Option Bool;
  empty = λ h. none;
  get = λ m h. m h;
  touch = λ m h. m;
  set = λ m h v j. if str_eq h j then some v else m j;
  get-empty = λ h. refl;
  get-touch = λ m h j. refl;
  get-set_same = λ m h v. rw (str_eq_refl h) refl;
  get-set = λ m h j v w.
      if-cases (λ o. o ≡ some w → ((h ≡ j) × (v ≡ w)) ⊎ (m j ≡ some w)) (some v) (m j) (str_eq h j)
        (λ same e. inl ((eq_iff h j).0 same, cc e)) (λ other e. inr e);
}

-- The world of Tests/Data, with another hash for the blocks that show this output.
abbrev mark : Option String → ℕ → ℕ
mark none h = h
mark (some o) h = if str_eq o "04" then 2 else h

abbrev pub marked : World
marked = record world { block_json = λ blk. mark blk.vdf_output blk.height ∷ [] }

-- The first block with another builder and a lesser output, under the first block's hash.
abbrev imposter : Block
imposter = record block_1 { builder = str bob; vdf_output = some "04" }

abbrev pub unjudged : Memory marked no_cache all_verdicts
unjudged = record { judged = record { tip = none; verdicts = λ h. none }; signatures = tt }

abbrev pub at_genesis : ChainState
at_genesis = from_genesis marked

abbrev after_block_1 : State
unfolding Text.encode Text.same_codes Text.has_code Text.split Text.join Text.from_hex Json.has_item
    Json.contains Json.subscript Crypto.public_key_to_address Crypto.burn_address
    Crypto.is_valid_address Tx.board_fee_floor ◌+ℤ◌ Block.vdf_verify Block.vdf_challenge
    Block.block_hash Block.block_size Block.create Block.create_genesis Retarget.block_at
    Retarget.at_boundary Retarget.between_boundaries Retarget.get_vdf_iterations Validate.check_size
    Validate.check_hash Validate.check_parent Validate.check_timestamp Validate.check_proof
    Validate.check_builder_and_vdf Validate.header_checks Validate.include_all
    Validate.apply_transactions Validate.validate Chain.from_genesis
after_block_1 =
    value_or State.empty
      (Validate.validate marked no_cache now block_1 at_genesis.state at_genesis.chain tt).0

block_1_valid :
    (Validate.validate marked no_cache now block_1 at_genesis.state at_genesis.chain tt).0
    ≡ ok after_block_1
unfolding Text.encode Text.same_codes Text.has_code Text.split Text.join Text.from_hex Json.has_item
    Json.contains Json.subscript Crypto.public_key_to_address Crypto.burn_address
    Crypto.is_valid_address Tx.board_fee_floor ◌+ℤ◌ Block.vdf_verify Block.vdf_challenge
    Block.block_hash Block.block_size Block.create Block.create_genesis Retarget.block_at
    Retarget.at_boundary Retarget.between_boundaries Retarget.get_vdf_iterations Validate.check_size
    Validate.check_hash Validate.check_parent Validate.check_timestamp Validate.check_proof
    Validate.check_builder_and_vdf Validate.header_checks Validate.include_all
    Validate.apply_transactions Validate.validate Chain.from_genesis
block_1_valid = refl

pub block_1-Follows : Follows marked no_cache all_verdicts at_genesis "00" block_1
unfolding Block.block_hash Block.create Block.create_genesis Chain.from_genesis Fork.tip_hash
block_1-Follows = record {
  below = 0;
  tip_height = refl;
  tip_named = refl;
  next_height = refl;
  parent = refl;
}

imposter-Follows : Follows marked no_cache all_verdicts at_genesis "00" imposter
unfolding Block.block_hash Block.create Block.create_genesis Chain.from_genesis Fork.tip_hash
imposter-Follows = record {
  below = 0;
  tip_height = refl;
  tip_named = refl;
  next_height = refl;
  parent = refl;
}

block_1_judged :
    (validate_candidate marked no_cache all_verdicts now block_1 at_genesis unjudged).0 ≡ ok true
block_1_judged =
    validate_candidate-fresh marked no_cache all_verdicts now at_genesis "00" block_1 unjudged
      block_1-Follows refl block_1_valid

tip_is_genesis : Fork.tip_hash marked at_genesis.chain ≡ ok "00"
unfolding Block.block_hash Block.create Block.create_genesis Chain.from_genesis Fork.tip_hash
tip_is_genesis = refl

first_hash : block_1.hash ≡ some "01"
unfolding Block.block_hash Block.create
first_hash = refl

named : ◌≢◌ {A = String} "01" ""
named = λ e. cc e

abbrev judged_once : Memory marked no_cache all_verdicts
judged_once = (validate_candidate marked no_cache all_verdicts now block_1 at_genesis unjudged).1

validate_candidate-looks_example :
    (validate_candidate marked no_cache all_verdicts now imposter at_genesis (
      looks marked no_cache all_verdicts
        ((now, imposter) ∷ (now, block_1) ∷ [])
        at_genesis
        judged_once)).0
    ≡ ok true
validate_candidate-looks_example =
    validate_candidate-looks marked no_cache all_verdicts now now at_genesis "00" "01" block_1
      imposter ((now, imposter) ∷ (now, block_1) ∷ []) unjudged named (block_1-Follows, first_hash)
      ((imposter-Follows, first_hash), ((block_1-Follows, first_hash), tt))
      (imposter-Follows, first_hash) block_1_judged

validate_candidate-Validated_example :
    (claim : String) × (block_1.hash ≡ some claim)
    × Validated marked no_cache all_verdicts at_genesis claim
validate_candidate-Validated_example =
    validate_candidate-Validated marked no_cache all_verdicts at_genesis "00" [] now block_1
      unjudged tip_is_genesis refl block_1_judged

lie : "01" ≢ block_hash marked imposter
unfolding Block.block_hash
lie = λ e. cc ((eq_iff "01" "02").1 e)

key_of_first : tie_break_key block_1 ≡ ok "05"
unfolding Block.tie_break_key Block.create
key_of_first = refl

key_of_imposter : tie_break_key imposter ≡ ok "04"
unfolding Block.tie_break_key Block.create
key_of_imposter = refl

lesser_output : Fork.text_lt "04" "05" ≡ true
unfolding Fork.codes_lt
lesser_output = refl

pick_winner-forged_example :
    (check_hash marked imposter ≡ refused hash_mismatch)
    × ((pick_winner marked no_cache all_verdicts
          (λ i. now)
          at_genesis
          none
          (block_1 ∷ imposter ∷ [])
          judged_once).0
        ≡ ok (some (imposter, true)))
pick_winner-forged_example =
    pick_winner-forged marked no_cache all_verdicts now (λ i. now) at_genesis "00" "01" block_1
      imposter unjudged block_1-Follows imposter-Follows first_hash first_hash named lie
      key_of_first key_of_imposter lesser_output block_1_judged

imposter_wins :
    (pick_winner marked no_cache all_verdicts
      (λ i. now)
      at_genesis
      none
      (block_1 ∷ imposter ∷ [])
      judged_once).0
    ≡ ok (some (imposter, true))
imposter_wins =
    (pick_winner-forged marked no_cache all_verdicts now (λ i. now) at_genesis "00" "01" block_1
      imposter unjudged block_1-Follows imposter-Follows first_hash first_hash named lie
      key_of_first key_of_imposter lesser_output block_1_judged).1

pick_winner-Won_example :
    Won marked no_cache all_verdicts at_genesis "00" none
      (λ i. now)
      (block_1 ∷ imposter ∷ [])
      (looks marked no_cache all_verdicts ((now, block_1) ∷ []) at_genesis unjudged)
      (imposter, true)
pick_winner-Won_example =
    pick_winner-Won marked no_cache all_verdicts at_genesis "00" ((now, block_1) ∷ []) none
      (λ i. now) (block_1 ∷ imposter ∷ []) unjudged tip_is_genesis refl imposter_wins
