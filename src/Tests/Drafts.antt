-- ===== src/Tests/Drafts.antt =====
-- Runs of `assemble` of src/block.py, on the payment of Tests/Data.
use lapsecoin.Prelude.{
  ℕ, ◌+◌, ◌≡◌, refl, ap, ◌∙◌, String, Option, ◌++◌, none, some, List, [], ◌∷◌, map, arith, length,
  ltb, if◌then◌else◌,
}
use lapsecoin.Prelude.Int.{◌+ℤ◌, ◌-ℤ◌}
use lapsecoin.Prelude.Result.{ok, refuse_if, over_size_limit}
use lapsecoin.Params.{block_size_limit, vdf_iterations}
use lapsecoin.Json.{Json, Fields, obj, end}
use lapsecoin.Tx
use lapsecoin.Block
use lapsecoin.Block.{Block, World, block_size}
use lapsecoin.Block.Validate.{check_size}
use lapsecoin.Block.Assemble
use lapsecoin.Block.Assemble.{bytes_from}
use lapsecoin.Block.Assemble.Draft
use lapsecoin.Block.Assemble.Draft.{skeleton, assemble, finished}
use lapsecoin.Block.Assemble.Size.{
  Drafted, IsCompact, proof_size, assemble-Drafted, finished-check_size,
}
use lapsecoin.Mempool.Probe
use lapsecoin.Tests.Data.{world, alice, payment, block_1, now, value_or}
use lapsecoin.Tests.Pending.{by_fee}

-- One byte for a transaction, one for a comma, and what the two fields of the proof take.
abbrev spread : ℕ → List Json → List ℕ → List ℕ
spread i [] rest = rest
spread i (t ∷ ts) rest =
    let later = spread (i + 1) ts rest in if ltb 0 i then 7 ∷ 8 ∷ later else 7 ∷ later

abbrev spent : Option String → List ℕ
spent none = 1 ∷ 2 ∷ 3 ∷ 4 ∷ []
spent (some s) = 5 ∷ []

abbrev counted : World
counted = record world {
  block_json = λ blk. spread 0 blk.transactions (spent blk.vdf_output ++ spent blk.vdf_proof);
}

spread-length :
    (i : ℕ) (ts : List Fields) (rest : List ℕ)
    → length (spread i (map obj ts) rest) ≡ length rest + bytes_from counted.crypto i ts
unfolding Tx.tx_size_in_block
spread-length i [] rest = omega arith
spread-length i (t ∷ ts) rest = ground (arith, spread-length (i + 1) ts rest)

abbrev drafted : Block
unfolding Tx.tx_size Tx.tx_size_in_block Tx.unsigned Tx.sender Tx.int_field Tx.is_board_post ◌+ℤ◌
    ◌-ℤ◌ Block.tx_fee Block.block_size Block.block_hash Block.create Assemble.pack_group
    Assemble.pack Draft.by_sender Draft.add_to Draft.sort_groups Draft.with_rates
    Draft.insert_by_lead Draft.best_first Draft.assemble Probe.with_nonces Probe.insert_by_nonce
    Probe.sort_by_nonce
drafted =
    value_or block_1 (assemble counted by_fee now block_1 (payment ∷ []) alice vdf_iterations 0)

payment-drafted :
    assemble counted by_fee now block_1 (payment ∷ []) alice vdf_iterations 0 ≡ ok drafted
unfolding Tx.tx_size Tx.tx_size_in_block Tx.unsigned Tx.sender Tx.int_field Tx.is_board_post ◌+ℤ◌
    ◌-ℤ◌ Block.tx_fee Block.block_size Block.block_hash Block.create Assemble.pack_group
    Assemble.pack Draft.by_sender Draft.add_to Draft.sort_groups Draft.with_rates
    Draft.insert_by_lead Draft.best_first Draft.assemble Probe.with_nonces Probe.insert_by_nonce
    Probe.sort_by_nonce
payment-drafted = refl

assemble-Drafted_example : Drafted counted by_fee now block_1 alice vdf_iterations drafted
assemble-Drafted_example =
    assemble-Drafted counted by_fee now block_1 (payment ∷ []) alice vdf_iterations 0
      payment-drafted

draft : Drafted counted by_fee now block_1 alice vdf_iterations drafted
draft =
    assemble-Drafted counted by_fee now block_1 (payment ∷ []) alice vdf_iterations 0
      payment-drafted

abbrev empty_draft : Block
empty_draft = skeleton counted by_fee block_1 drafted.previous_hash draft.ts alice vdf_iterations

spent-length :
    (o p : Option String)
    → length (spent o ++ spent p)
      ≡ proof_size counted by_fee (λ s. 1) o + proof_size counted by_fee (λ s. 1) p
spent-length none none = omega arith
spent-length none (some s) = omega arith
spent-length (some s) none = omega arith
spent-length (some s) (some t) = omega arith

-- The texts of the proof take one byte here, where a null takes four.
counted-IsCompact : IsCompact counted by_fee
unfolding Block.block_size
counted-IsCompact = record {
  header = λ h p t b n. 0;
  quoted = λ s. 1;
  extra_size = λ e. 0;
  size-eq = λ b ts bytes e f.
      ap (λ l. length (spread 0 l (spent b.vdf_output ++ spent b.vdf_proof))) e
      ∙ spread-length 0 ts (spent b.vdf_output ++ spent b.vdf_proof)
      ∙ omega (arith, spent-length b.vdf_output b.vdf_proof);
}

finished-check_size_example :
    check_size counted (finished counted by_fee "05" "06" vdf_iterations drafted)
    ≡ refuse_if
        (ltb (block_size_limit + (8 + counted-IsCompact.extra_size end)) (
          block_size counted empty_draft
          + bytes_from counted.crypto 0 draft.txs
          + counted-IsCompact.quoted "05"
          + counted-IsCompact.quoted "06"
          + counted-IsCompact.extra_size drafted.extra))
        over_size_limit
finished-check_size_example =
    finished-check_size counted by_fee now block_1 drafted alice vdf_iterations "05" "06"
      counted-IsCompact draft
