-- ===== src/Block/Assemble.antt =====
-- The packing loop of `assemble` in src/block.py: senders' groups in the order of their priority,
-- each taken from its front until a transaction does not fit.
pub mod Draft
pub mod Size
use lapsecoin.Prelude.{
  ℕ, ◌+◌, ◌≤◌, ◌≡◌, ap, ◌∙◌, List, [], ◌∷◌, ◌++◌, arith, length, ltb, if◌then◌else◌, Bool-cases,
  inl, inr,
}
use lapsecoin.Params.{block_size_limit}
use lapsecoin.Json.{Fields}
use lapsecoin.Crypto.{Crypto}
use lapsecoin.Tx.{tx_size_in_block}

-- `for t in group`: what is taken, and `running` after it. `count` is `len(valid_txs)`.
unfoldable pub pack_group : Crypto → ℕ → ℕ → List Fields → List Fields × ℕ
pack_group c running count [] = ([], running)
pack_group c running count (t ∷ group) =
    let t_size = tx_size_in_block c t count in
    let (taken, running') = pack_group c (running + t_size) (count + 1) group in
    if ltb block_size_limit (running + t_size) then ([], running) else (t ∷ taken, running')

-- `for group in groups`
unfoldable pub pack : Crypto → ℕ → ℕ → List (List Fields) → List Fields × ℕ
pack c running count [] = ([], running)
pack c running count (group ∷ groups) =
    let (taken, running') = pack_group c running count group in
    let (rest, running'') = pack c running' (count + length taken) groups in
    (taken ++ rest, running'')

-- The bytes that transactions take in a block, from a position on.
abbrev pub bytes_from : Crypto → ℕ → List Fields → ℕ
bytes_from c count [] = 0
bytes_from c count (t ∷ ts) = tx_size_in_block c t count + bytes_from c (count + 1) ts

bytes_from-append :
    (c : Crypto) (count : ℕ) (ts us : List Fields)
    → bytes_from c count (ts ++ us) ≡ bytes_from c count ts + bytes_from c (count + length ts) us
bytes_from-append c count [] us =
    let shut : count + 0 ≡ count = omega arith in
    let shift : bytes_from c (count + 0) us ≡ bytes_from c count us =
      ap (λ n. bytes_from c n us) shut in
    omega (arith, shift)
bytes_from-append c count (t ∷ ts) us =
    let shift : count + 1 + length ts ≡ count + length (t ∷ ts) = omega arith in
    let later =
      bytes_from-append c (count + 1) ts us
      ∙ ap (λ n. bytes_from c (count + 1) ts + bytes_from c n us) shift in
    omega (arith, later)

-- `running` counts the bytes taken, and stays within the limit.
abbrev Packed : Crypto → ℕ → ℕ → List Fields × ℕ → Type 0
Packed c running count r = (r.1 ≡ running + bytes_from c count r.0) × (r.1 ≤ block_size_limit)

pack_group-Packed :
    (c : Crypto) (running count : ℕ) (group : List Fields)
    → running ≤ block_size_limit
    → Packed c running count (pack_group c running count group)
unfolding pack_group
pack_group-Packed c running count [] h = (omega arith, h)
pack_group-Packed c running count (t ∷ group) h =
    elim (Bool-cases (ltb block_size_limit (running + tx_size_in_block c t count))) [
      | inl y ↦ rw y ((omega arith, h))
      | inr n ↦
          let (same, le) =
            pack_group-Packed c (running + tx_size_in_block c t count) (count + 1) group
              (ground arith) in
          rw n ((omega (arith, same), le))
    ]

-- Packing groups of transactions into a block, from a size within the block limit, ends with that
-- size plus exactly the bytes that the transactions taken occupy from their positions on, and this
-- is within the block limit.
pub pack-bounds :
    (c : Crypto) (running count : ℕ) (groups : List (List Fields))
    → running ≤ block_size_limit
    → ((pack c running count groups).1
        ≡ running + bytes_from c count (pack c running count groups).0)
      × ((pack c running count groups).1 ≤ block_size_limit)
unfolding pack
pack-bounds c running count [] h = (omega arith, h)
pack-bounds c running count (group ∷ groups) h =
    let g = pack_group c running count group in
    let (same, le) = pack_group-Packed c running count group h in
    let (same', le') = pack-bounds c g.1 (count + length g.0) groups le in
    (
      omega (
        arith,
        same,
        same',
        bytes_from-append c count g.0 (pack c g.1 (count + length g.0) groups).0,
      ),
      le',
    )
