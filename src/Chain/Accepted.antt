-- ===== src/Chain/Accepted.antt =====
-- What has been established when `validate_and_apply` of src/chainstate.py accepts a block.
use lapsecoin.Prelude.{◌+◌, ◌≡◌, refl, ap, sym, ◌∙◌, List, [], ◌∷◌, ◌++◌}
use lapsecoin.Prelude.Int.{ℤ}
use lapsecoin.Prelude.Result.{Check, ok, refused, raised, >>=-eq-ok, ok-injective}
use lapsecoin.Tx.{board_fee_floor}
use lapsecoin.Tx.Signature.{LruCache}
use lapsecoin.State.{State}
use lapsecoin.Block.{Block, World}
use lapsecoin.Block.Retarget.{iterations_or}
use lapsecoin.Block.Validate
use lapsecoin.Block.Validate.{
  header_checks, check_size, check_hash, check_parent, check_timestamp, check_builder_and_vdf,
  check_proof, after_header, apply_transactions, last?, builder_text, or_no_vdf, tip_hash,
}
use lapsecoin.Block.Ran.{Ran, include_all-Ran}
use lapsecoin.Chain.{ChainState, apply_to_state, apply_block_with_state, validate_and_apply}

module _ (w : World) (lru : LruCache) (now : ℤ) where
  open lru use {Cache}

  after_header-ok :
      (r : Check) (blk : Block) (s : State) (m : Cache) {s' : State}
      → (after_header w lru r blk s m).0 ≡ ok s'
      → (r ≡ ok tt) × ((apply_transactions w lru blk s m).0 ≡ ok s')
  after_header-ok (ok u) blk s m e = (refl, e)
  after_header-ok (refused x) blk s m e = cc
  after_header-ok (raised x) blk s m e = cc

  -- The block's transactions ran, under the floor of the state before them.
  pub record Accepted (cs : ChainState) (blk : Block) (cs' : ChainState) : Type 0 where
    pub probe : State
    pub header : header_checks w now blk cs.chain ≡ ok tt
    pub ran : Ran w lru (board_fee_floor cs.state.total_board_posts) blk.transactions cs.state probe
    pub settled : apply_to_state probe blk ≡ ok cs'.state
    pub chain-eq : cs'.chain ≡ cs.chain ++ blk ∷ []
    pub iterations-eq :
        cs'.cumulative_iterations
        ≡ cs.cumulative_iterations + iterations_or 0 blk.claimed_iterations

  pub validate_and_apply-Accepted :
      (cs : ChainState) (blk : Block) (m : Cache) {cs' : ChainState}
      → (validate_and_apply w lru now cs blk m).0 ≡ ok cs'
      → Accepted cs blk cs'
  unfolding validate_and_apply Validate.validate apply_transactions apply_block_with_state
  validate_and_apply-Accepted cs blk m {cs' = cs'} e =
      let (probe, e0, r0) = >>=-eq-ok (Validate.validate w lru now blk cs.state cs.chain m).0 _ e in
      let (s, e1, r1) = >>=-eq-ok (apply_to_state probe blk) _ r0 in
      let (header, ran) = after_header-ok (header_checks w now blk cs.chain) blk cs.state m e0 in
      let same = ok-injective r1 in
      record {
        probe = probe;
        header = header;
        ran =
            include_all-Ran w lru (board_fee_floor cs.state.total_board_posts) blk.transactions
              cs.state m ran;
        settled = e1 ∙ ap ok (ap (λ (c : ChainState). c.state) same);
        chain-eq = sym (ap (λ (c : ChainState). c.chain) same);
        iterations-eq = sym (ap (λ (c : ChainState). c.cumulative_iterations) same);
      }

  -- Every check of the header has passed.
  pub record Checked (blk : Block) (chain : List Block) : Type 0 where
    pub size : check_size w blk ≡ ok tt
    pub hash : check_hash w blk ≡ ok tt
    pub parent : check_parent w blk chain ≡ ok tt
    pub time : check_timestamp w now blk chain ≡ ok tt
    pub proof : check_builder_and_vdf w blk chain ≡ ok tt

  pub header_checks-Checked :
      (blk : Block) (chain : List Block) → header_checks w now blk chain ≡ ok tt → Checked blk chain
  unfolding header_checks
  header_checks-Checked blk chain e =
      let (u0, e0, r0) = >>=-eq-ok (check_size w blk) _ e in
      let (u1, e1, r1) = >>=-eq-ok (check_hash w blk) _ r0 in
      let (u2, e2, r2) = >>=-eq-ok (check_parent w blk chain) _ r1 in
      let (u3, e3, r3) = >>=-eq-ok (check_timestamp w now blk chain) _ r2 in
      record { size = e0; hash = e1; parent = e2; time = e3; proof = r3 }
