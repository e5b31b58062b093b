-- ===== src/Block/Assemble/Size.antt =====
-- A block that `assemble` of src/block.py drafts: its place, its time, and its size before and after
-- the proof is added to it.
use lapsecoin.Prelude.{
  ℕ, ◌+◌, ◌≤◌, ◌≡◌, refl, ap, ◌∙◌, String, false, some, none, Option, List, [], map, arith, ltb,
  ◌==◌, if◌then◌else◌,
}
use mathlib.Core.Path.{subst}
use lapsecoin.Prelude.Int.{ℤ, pos, ◌+ℤ◌, ltb_ℤ}
use lapsecoin.Prelude.Result.{ok, >>=-eq-ok, ok-injective, refuse_if, over_size_limit}
use lapsecoin.Params.{block_size_limit, min_block_spacing_seconds}
use lapsecoin.Json.{Json, Fields, obj, str, end}
use lapsecoin.Block.{block_hash, Block, World, or_missing, block_size, create}
use lapsecoin.Block.Validate.{spaced, check_size}
use lapsecoin.Block.Assemble.{pack, bytes_from, pack-bounds}
use lapsecoin.Block.Assemble.Draft.{
  above_floor, by_sender, sort_groups, with_rates, best_first, later_of, skeleton, assemble,
  finished,
}
use lapsecoin.Chain.Extends.Header.{or_missing-ok}
use lapsecoin.Mempool.{Rates}

module _ (w : World) (rates : Rates) where
  -- The block that was drafted on a tip at a time, from some transactions.
  pub record Drafted (now : ℤ) (tip : Block) (builder : String) (n : ℕ) (blk : Block) : Type 0 where
    pub ts : ℤ
    pub txs : List Fields
    pub time : blk.timestamp ≡ some ts
    pub parent : tip.hash ≡ some blk.previous_hash
    pub next_height : blk.height ≡ tip.height + 1
    pub builder-eq : blk.builder ≡ str builder
    pub on_time : spaced w ts (some tip) ≡ ok tt
    pub txs-eq : blk.transactions ≡ map obj txs
    pub fits :
        block_size w (skeleton w rates tip blk.previous_hash ts builder n) ≤ block_size_limit
        → block_size w (skeleton w rates tip blk.previous_hash ts builder n)
            + bytes_from w.crypto 0 txs
          ≤ block_size_limit

  not_early : (now t : ℤ) → ltb_ℤ (later_of now t) t ≡ false
  not_early now t = ground arith

  on_time-ok :
      (now parent_ts : ℤ) (tip : Block)
      → tip.timestamp ≡ some parent_ts
      → spaced w (later_of now (parent_ts +ℤ pos min_block_spacing_seconds)) (some tip) ≡ ok tt
  on_time-ok now parent_ts tip e =
      rw (e, not_early now (parent_ts +ℤ pos min_block_spacing_seconds)) refl

  -- A block that is drafted comes next after the tip, names its hash, keeps the minimal spacing
  -- from its time, and its transactions and the empty block take at most the size limit together,
  -- if the empty block does.
  pub assemble-Drafted :
      (now : ℤ) (tip : Block) (pending : List Fields) (builder : String) (n floor : ℕ) {blk : Block}
      → assemble w rates now tip pending builder n floor ≡ ok blk
      → Drafted now tip builder n blk
  unfolding assemble create
  assemble-Drafted now tip pending builder n floor e =
      let (kept, e0, r0) =
        >>=-eq-ok (if floor == 0 then ok pending else above_floor floor pending) _ e in
      let (parent_ts, e1, r1) = >>=-eq-ok (or_missing tip.timestamp) _ r0 in
      let (parent, e2, r2) = >>=-eq-ok (or_missing tip.hash) _ r1 in
      let (senders, e3, r3) = >>=-eq-ok (by_sender kept []) _ r2 in
      let (groups, e4, r4) = >>=-eq-ok (sort_groups senders) _ r3 in
      let (rated, e5, r5) = >>=-eq-ok (with_rates w rates groups) _ r4 in
      let ts = later_of now (parent_ts +ℤ pos min_block_spacing_seconds) in
      let s = skeleton w rates tip parent ts builder n in
      let p = pack w.crypto (block_size w s) 0 (map (λ e. e.1) (best_first w rates rated)) in
      subst (Drafted now tip builder n) (ok-injective r5) (record {
        ts = ts;
        txs = p.0;
        time = refl;
        parent = or_missing-ok tip.hash e2;
        next_height = refl;
        builder-eq = refl;
        on_time = on_time-ok now parent_ts tip (or_missing-ok tip.timestamp e1);
        txs-eq = refl;
        fits = λ le.
            let (same, within) =
              pack-bounds w.crypto (block_size w s) 0 (map (λ e. e.1) (best_first w rates rated))
                le in
            omega (arith, same, within);
      })

  -- A field that is null, or a text with its quotes.
  abbrev pub proof_size : (String → ℕ) → Option String → ℕ
  proof_size quoted none = 4
  proof_size quoted (some s) = quoted s

  -- The serializer's sizes: keys, quotes and commas are the same in every block, and so is the
  -- length of its hash, so that each field adds what its own value takes.
  pub record IsCompact : Type 0 where
    pub header : ℕ → String → Option ℤ → Json → Option ℕ → ℕ
    pub quoted : String → ℕ
    pub extra_size : Fields → ℕ
    pub size-eq :
        (b : Block) (ts : List Fields) (bytes : List ℕ)
        → b.transactions ≡ map obj ts
        → b.hash ≡ some (w.sha256_hex bytes)
        → block_size w b
          ≡ header b.height b.previous_hash b.timestamp b.builder b.claimed_iterations
            + proof_size quoted b.vdf_output
            + proof_size quoted b.vdf_proof
            + bytes_from w.crypto 0 ts
            + extra_size b.extra

  ltb_shift : (l a b c : ℕ) → a + c ≡ b → ltb l a ≡ ltb (l + c) b
  ltb_shift l a b c h = ground arith

  -- Where the serializer is compact, so that each field of a block adds what its own value takes,
  -- a drafted block with its proof passes the check of the size exactly if the empty draft, its
  -- transactions, the two texts of the proof and the added keys, less the eight bytes of the two
  -- nulls, are within the limit.
  pub finished-check_size :
      (now : ℤ) (tip blk : Block) (builder : String) (n : ℕ) (output proof : String)
      → (z : IsCompact) → (d : Drafted now tip builder n blk)
      → check_size w (finished w rates output proof n blk)
        ≡ refuse_if
            (ltb (block_size_limit + (8 + z.extra_size end)) (
              block_size w (skeleton w rates tip blk.previous_hash d.ts builder n)
              + bytes_from w.crypto 0 d.txs
              + z.quoted output
              + z.quoted proof
              + z.extra_size blk.extra))
            over_size_limit
  unfolding check_size finished create block_hash
  finished-check_size now tip blk builder n output proof z d =
      ap (λ b. refuse_if b over_size_limit)
        (ltb_shift block_size_limit (block_size w (finished w rates output proof n blk)) _
          (8 + z.extra_size end) (omega (arith, whole, empty)))
    where
      head : ℕ
      head = z.header (tip.height + 1) blk.previous_hash (some d.ts) (str builder) (some n)

      same_header : z.header blk.height blk.previous_hash blk.timestamp blk.builder (some n) ≡ head
      same_header = rw (d.next_height, d.time, d.builder-eq) refl

      whole :
          block_size w (finished w rates output proof n blk)
          ≡ head
            + z.quoted output
            + z.quoted proof
            + bytes_from w.crypto 0 d.txs
            + z.extra_size blk.extra
      whole =
          z.size-eq (finished w rates output proof n blk) d.txs _ d.txs-eq refl
          ∙ ap
              (λ h.
                h
                + z.quoted output
                + z.quoted proof
                + bytes_from w.crypto 0 d.txs
                + z.extra_size blk.extra)
              same_header

      empty :
          block_size w (skeleton w rates tip blk.previous_hash d.ts builder n)
          ≡ head + 4 + 4 + 0 + z.extra_size end
      empty = z.size-eq (skeleton w rates tip blk.previous_hash d.ts builder n) [] _ refl refl
