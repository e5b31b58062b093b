-- ===== src/Chain/Extends/Header.antt =====
-- What the checks of hash, size, parent and time of a block establish (src/block.py, `validate`).
use lapsecoin.Prelude.{
  ℕ, ◌+◌, ◌≤◌, String, ◌≡◌, ◌≢◌, refl, ap, sym, ◌∙◌, Bool, true, false, not, Option, none, some,
  List, arith, str_eq, eq_iff, ◌==◌, ltb-false-le,
}
use lapsecoin.Prelude.Int.{ℤ, pos, ◌+ℤ◌, ◌≤ℤ◌, ltb_ℤ}
use lapsecoin.Prelude.Result.{
  ok, >>=-eq-ok, refuse_if, refuse_if-eq-ok, hash_mismatch, parent_mismatch, height_gap,
  timestamp_ahead, timestamp_early, over_size_limit,
}
use lapsecoin.Params.{block_size_limit, timestamp_skew_seconds, min_block_spacing_seconds}
use lapsecoin.Block.{Block, World, or_missing, block_size, block_hash}
use lapsecoin.Block.Validate.{
  check_size, check_hash, check_parent, check_timestamp, follows, timely, last?, same_text,
}

pub not-eq-false : (b : Bool) → not b ≡ false → b ≡ true
not-eq-false true h = refl
not-eq-false false h = cc

pub or_missing-ok {ℓ} : {A : Type ℓ} (o : Option A) {a : A} → or_missing o ≡ ok a → o ≡ some a
or_missing-ok none e = cc
or_missing-ok (some a) e = cc

pub same_text-true : (o : Option String) (t : String) → same_text o t ≡ true → o ≡ some t
same_text-true none t h = cc
same_text-true (some s) t h = ap some ((eq_iff s t).0 h)

pub nat_eq-true : (a b : ℕ) → (a == b) ≡ true → a ≡ b
nat_eq-true a b h = ground arith

pub ltb_ℤ_false-le : (a b : ℤ) → ltb_ℤ a b ≡ false → b ≤ℤ a
ltb_ℤ_false-le a b h = ground arith

pub height_test : (n : ℕ) → n ≢ 0 → (n == 0) ≡ false
height_test n h = ground arith

module _ (w : World) where
  pub check_hash-ok :
      (blk : Block) {u : Unit {0}} → check_hash w blk ≡ ok u → blk.hash ≡ some (block_hash w blk)
  unfolding check_hash
  check_hash-ok blk e =
      same_text-true blk.hash (block_hash w blk)
        (not-eq-false _ (refuse_if-eq-ok _ hash_mismatch e))

  pub check_size-ok :
      (blk : Block) {u : Unit {0}} → check_size w blk ≡ ok u → block_size w blk ≤ block_size_limit
  unfolding check_size
  check_size-ok blk e =
      ltb-false-le block_size_limit (block_size w blk) (refuse_if-eq-ok _ over_size_limit e)

  -- The parent is the last block, and the block comes right after it.
  pub record Follows (blk : Block) (chain : List Block) : Type 0 where
    pub parent : Block
    pub last-eq : last? chain ≡ some parent
    pub hash-eq : parent.hash ≡ some blk.previous_hash
    pub height-eq : blk.height ≡ parent.height + 1

  follows-Follows :
      (blk : Block) (chain : List Block) (o : Option Block) {u : Unit {0}}
      → last? chain ≡ o
      → follows w blk o ≡ ok u
      → Follows blk chain
  follows-Follows blk chain none l e = cc
  follows-Follows blk chain (some parent) l e =
      let (h, e0, r0) = >>=-eq-ok (or_missing parent.hash) _ e in
      let (u1, e1, r1) =
        >>=-eq-ok (refuse_if (not (str_eq blk.previous_hash h)) parent_mismatch) _ r0 in
      let same = (eq_iff blk.previous_hash h).0 (not-eq-false _ (refuse_if-eq-ok _ _ e1)) in
      record {
        parent = parent;
        last-eq = l;
        hash-eq = or_missing-ok parent.hash e0 ∙ ap some (sym same);
        height-eq =
            nat_eq-true blk.height (parent.height + 1)
              (not-eq-false _ (refuse_if-eq-ok _ height_gap r1));
      }

  -- A block whose height is not 0 passes the check of its parent only on a chain whose last block
  -- has the hash that the block names and a height one below the block's.
  pub check_parent-Follows :
      (blk : Block) (chain : List Block) {u : Unit {0}}
      → blk.height ≢ 0
      → check_parent w blk chain ≡ ok u
      → Follows blk chain
  unfolding check_parent
  check_parent-Follows blk chain h e =
      follows-Follows blk chain (last? chain) refl (rw (height_test blk.height h) at e)

  -- The timestamp is at least the spacing after the parent's, and at most the skew ahead.
  pub record Timely (now : ℤ) (blk parent : Block) : Type 0 where
    pub ts : ℤ
    pub parent_ts : ℤ
    pub ts-eq : blk.timestamp ≡ some ts
    pub parent_ts-eq : parent.timestamp ≡ some parent_ts
    pub not_early : parent_ts +ℤ pos min_block_spacing_seconds ≤ℤ ts
    pub not_ahead : ts ≤ℤ now +ℤ pos timestamp_skew_seconds

  timely-Timely :
      (now : ℤ) (blk parent : Block) (o : Option ℤ) {u : Unit {0}}
      → blk.timestamp ≡ o
      → timely w now o (some parent) ≡ ok u
      → Timely now blk parent
  timely-Timely now blk parent none l e = cc
  timely-Timely now blk parent (some ts) l e =
      let (u0, e0, r0) =
        >>=-eq-ok (refuse_if (ltb_ℤ (now +ℤ pos timestamp_skew_seconds) ts) timestamp_ahead) _ e in
      let (pts, e1, r1) = >>=-eq-ok (or_missing parent.timestamp) _ r0 in
      record {
        ts = ts;
        parent_ts = pts;
        ts-eq = l;
        parent_ts-eq = or_missing-ok parent.timestamp e1;
        not_early =
            ltb_ℤ_false-le ts (pts +ℤ pos min_block_spacing_seconds)
              (refuse_if-eq-ok _ timestamp_early r1);
        not_ahead =
            ltb_ℤ_false-le (now +ℤ pos timestamp_skew_seconds) ts
              (refuse_if-eq-ok _ timestamp_ahead e0);
      }

  -- On a chain with a last block, a block passes the check of its time only if its timestamp is at
  -- least the minimal spacing after that block's and at most the allowed skew ahead of the clock.
  pub check_timestamp-Timely :
      (now : ℤ) (blk parent : Block) (chain : List Block) {u : Unit {0}}
      → last? chain ≡ some parent
      → check_timestamp w now blk chain ≡ ok u
      → Timely now blk parent
  unfolding check_timestamp
  check_timestamp-Timely now blk parent chain l e =
      timely-Timely now blk parent blk.timestamp refl (rw l at e)
