-- ===== src/Chain/Extends.antt =====
-- What the check of the builder and the VDF of a block establishes (src/block.py, `validate`).
pub mod Header
use mathlib.Core.Path.{subst}
use lapsecoin.Prelude.{
  ℕ, ◌+◌, ◌≤◌, String, ◌≡◌, ◌≢◌, refl, ap, sym, ◌∙◌, Bool, true, false, not, Option, none, some,
  List, ◌++◌, arith, str_eq, eq_iff, ◌==◌, ltb-false-le,
}
use lapsecoin.Prelude.Int.{ℤ, pos, ◌+ℤ◌, ◌≤ℤ◌, ltb_ℤ}
use lapsecoin.Prelude.Result.{
  ok, >>=-eq-ok, ok-injective, refuse_if, refuse_if-eq-ok, hash_mismatch, parent_mismatch,
  height_gap, timestamp_ahead, timestamp_early, invalid_builder, iterations_mismatch, invalid_vdf,
  over_size_limit,
}
use lapsecoin.Prelude.Text.{encode, from_hex}
use lapsecoin.Params.{
  block_size_limit, vdf_iterations, timestamp_skew_seconds, min_block_spacing_seconds,
}
use lapsecoin.Json.{Json, str}
use lapsecoin.Crypto.{is_valid_address}
use lapsecoin.Block.{
  Block, World, or_missing, or_value_error, block_size, block_hash, vdf_challenge, vdf_verify,
}
use lapsecoin.Block.Retarget.{get_vdf_iterations, iterations_or}
use lapsecoin.Block.Validate.{
  check_size, check_hash, check_parent, check_timestamp, check_builder_and_vdf, check_proof,
  follows, timely, last?, builder_text, or_no_vdf, tip_hash, same_text,
}
use lapsecoin.Chain.Extends.Header.{
  height_test, not-eq-false, nat_eq-true, or_missing-ok, same_text-true,
}

module _ (w : World) where
  -- The builder's own VDF, over the parent's hash and for the count that the chain asks for.
  pub record Proven (blk : Block) (chain : List Block) : Type 0 where
    pub builder : String
    pub output : String
    pub proof : String
    pub parent : Block
    pub parent_hash : String
    pub parent_bytes : List ℕ
    pub discriminant : List ℕ
    pub output_bytes : List ℕ
    pub proof_bytes : List ℕ
    pub expected : ℕ
    pub builder-eq : blk.builder ≡ str builder
    pub is_valid : is_valid_address w.crypto (str builder) ≡ true
    pub output-eq : blk.vdf_output ≡ some output
    pub proof-eq : blk.vdf_proof ≡ some proof
    pub expected-eq : get_vdf_iterations chain ≡ ok expected
    pub claimed-eq : iterations_or vdf_iterations blk.claimed_iterations ≡ expected
    pub parent-eq : last? chain ≡ some parent
    pub parent_hash-eq : parent.hash ≡ some parent_hash
    pub parent_bytes-eq : from_hex parent_hash ≡ some parent_bytes
    pub discriminant-eq :
        w.create_discriminant (w.sha256 (parent_bytes ++ encode builder)) ≡ some discriminant
    pub output_bytes-eq : from_hex output ≡ some output_bytes
    pub proof_bytes-eq : from_hex proof ≡ some proof_bytes
    pub verified :
        w.verify_n_wesolowski discriminant (output_bytes ++ proof_bytes) expected ≡ some true

  builder_text-ok : (v : Json) {s : String} → builder_text w v ≡ ok s → v ≡ str s
  builder_text-ok (str t) e = cc
  builder_text-ok _ e = cc

  or_no_vdf-ok : (o : Option String) {s : String} → or_no_vdf w o ≡ ok s → o ≡ some s
  or_no_vdf-ok none e = cc
  or_no_vdf-ok (some t) e = cc

  tip_hash-ok :
      (o : Option Block) {h : String}
      → tip_hash w o ≡ ok h
      → (parent : Block) × (o ≡ some parent) × (parent.hash ≡ some h)
  tip_hash-ok none e = cc
  tip_hash-ok (some b) e = (b, refl, or_missing-ok b.hash e)

  or_value_error-ok {ℓ} : {A : Type ℓ} (o : Option A) {a : A} → or_value_error o ≡ ok a → o ≡ some a
  or_value_error-ok none e = cc
  or_value_error-ok (some x) e = cc

  -- The challenge is the hash of the parent's hash, in bytes, and the builder's address.
  vdf_challenge-ok :
      (parent builder : String) {challenge : List ℕ}
      → vdf_challenge w parent builder ≡ ok challenge
      → (bytes : List ℕ) × (from_hex parent ≡ some bytes)
        × (w.sha256 (bytes ++ encode builder) ≡ challenge)
  unfolding vdf_challenge
  vdf_challenge-ok parent builder e =
      let (bytes, e0, r0) = >>=-eq-ok (or_value_error (from_hex parent)) _ e in
      (bytes, or_value_error-ok (from_hex parent) e0, ok-injective r0)

  -- An accepted proof is one that the library has answered for with true, on bytes that were read.
  record Answered (challenge : List ℕ) (output proof : String) (n : ℕ) : Type 0 where
    pub discriminant : List ℕ
    pub output_bytes : List ℕ
    pub proof_bytes : List ℕ
    pub discriminant-eq : w.create_discriminant challenge ≡ some discriminant
    pub output_bytes-eq : from_hex output ≡ some output_bytes
    pub proof_bytes-eq : from_hex proof ≡ some proof_bytes
    pub answer : w.verify_n_wesolowski discriminant (output_bytes ++ proof_bytes) n ≡ some true

  vdf_verify-Answered :
      (challenge : List ℕ) (output proof : String) (n : ℕ)
      → vdf_verify w challenge output proof n ≡ true
      → Answered challenge output proof n
  unfolding vdf_verify
  vdf_verify-Answered challenge output proof n e =
      at (w.create_discriminant challenge) (from_hex output) (from_hex proof) refl refl refl
    where
      at :
          (d o p : Option (List ℕ))
          → w.create_discriminant challenge ≡ d
          → from_hex output ≡ o
          → from_hex proof ≡ p
          → Answered challenge output proof n
      at none o p f g h = absurd (ground arith)
      at (some d) none p f g h = absurd (ground arith)
      at (some d) (some o) none f g h = absurd (ground arith)
      at (some d) (some o) (some p) f g h = record {
        discriminant = d;
        output_bytes = o;
        proof_bytes = p;
        discriminant-eq = f;
        output_bytes-eq = g;
        proof_bytes-eq = h;
        answer = ground arith;
      }

  check_proof-Proven :
      (blk : Block) (chain : List Block) {u : Unit {0}}
      → check_proof w blk chain ≡ ok u
      → Proven blk chain
  unfolding check_proof
  check_proof-Proven blk chain e =
      let (u0, e0, r0) =
        >>=-eq-ok (refuse_if (not (is_valid_address w.crypto blk.builder)) invalid_builder) _ e in
      let (b, e1, r1) = >>=-eq-ok (builder_text w blk.builder) _ r0 in
      let (out, e2, r2) = >>=-eq-ok (or_no_vdf w blk.vdf_output) _ r1 in
      let (prf, e3, r3) = >>=-eq-ok (or_no_vdf w blk.vdf_proof) _ r2 in
      let (n, e4, r4) = >>=-eq-ok (get_vdf_iterations chain) _ r3 in
      let claimed = iterations_or vdf_iterations blk.claimed_iterations in
      let (u5, e5, r5) = >>=-eq-ok (refuse_if (not (claimed == n)) iterations_mismatch) _ r4 in
      let (parent, e6, r6) = >>=-eq-ok (tip_hash w (last? chain)) _ r5 in
      let (challenge, e7, r7) = >>=-eq-ok (vdf_challenge w parent b) _ r6 in
      let (block, block-eq, hash-eq) = tip_hash-ok (last? chain) e6 in
      let (bytes, bytes-eq, made) = vdf_challenge-ok parent b e7 in
      let is_text = builder_text-ok blk.builder e1 in
      let same = nat_eq-true claimed n (not-eq-false _ (refuse_if-eq-ok _ _ e5)) in
      let a : Answered challenge out prf n = vdf_verify-Answered challenge out prf n (
        subst (λ k. vdf_verify w challenge out prf k ≡ true) same
          (not-eq-false _ (refuse_if-eq-ok _ invalid_vdf r7))) in
      record {
        builder = b;
        output = out;
        proof = prf;
        parent = block;
        parent_hash = parent;
        parent_bytes = bytes;
        discriminant = a.discriminant;
        output_bytes = a.output_bytes;
        proof_bytes = a.proof_bytes;
        expected = n;
        builder-eq = is_text;
        is_valid =
            subst (λ v. is_valid_address w.crypto v ≡ true) is_text
              (not-eq-false _ (refuse_if-eq-ok _ _ e0));
        output-eq = or_no_vdf-ok blk.vdf_output e2;
        proof-eq = or_no_vdf-ok blk.vdf_proof e3;
        expected-eq = e4;
        claimed-eq = same;
        parent-eq = block-eq;
        parent_hash-eq = hash-eq;
        parent_bytes-eq = bytes-eq;
        discriminant-eq = ap w.create_discriminant made ∙ a.discriminant-eq;
        output_bytes-eq = a.output_bytes-eq;
        proof_bytes-eq = a.proof_bytes-eq;
        verified = a.answer;
      }

  -- A block whose height is not 0 passes the check of its builder and VDF only with a valid
  -- address as its builder, the iteration count that the chain asks for, and an output and a proof
  -- in hex digits, for whose bytes the VDF library answers true, with that count and the
  -- discriminant that it makes of the hash of the bytes of the tip's hash, followed by the
  -- builder's.
  pub check_builder_and_vdf-Proven :
      (blk : Block) (chain : List Block) {u : Unit {0}}
      → blk.height ≢ 0
      → check_builder_and_vdf w blk chain ≡ ok u
      → Proven blk chain
  unfolding check_builder_and_vdf
  check_builder_and_vdf-Proven blk chain h e =
      check_proof-Proven blk chain (rw (height_test blk.height h) at e)
