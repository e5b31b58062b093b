-- ===== src/Node/Coherent/Grown.antt =====
-- Chains that grow from the part that a node and its peer share: the loop of src/node.py over a tail.
use lapsecoin.Prelude.{
  ℕ, ◌<◌, ◌≤◌, ◌≡◌, sym, ap, ◌∙◌, List, [], ◌∷◌, ◌++◌, arith, All, length, take, length-append,
  length-take_le,
}
use mathlib.Core.Path.{subst}
use lapsecoin.Prelude.Int.{ℤ}
use lapsecoin.Prelude.Result.{ok}
use lapsecoin.Tx.Signature.{LruCache}
use lapsecoin.Block.{Block, World}
use lapsecoin.Chain.{ChainState, validate_and_apply}
use lapsecoin.Chain.Replay.{Replays, validate_and_apply-Replays}
use lapsecoin.Chain.Accepted.{Accepted, validate_and_apply-Accepted, header_checks-Checked}
use lapsecoin.Chain.Extends.Header.{Follows, check_parent-Follows}
use lapsecoin.Chain.Grow.{NotGenesis, extend, extend_induction}
use lapsecoin.Node.Coherent.{
  Numbered, IsBuilt, take-take, take-append, Numbered-take, last-height, append-IsBuilt,
}

-- Built, and the same as the node's own chain up to the fork.
pub record Grown (own : List Block) (fork : ℕ) (cs : ChainState) : Type 0 where
  pub is_built : IsBuilt cs
  pub same : take fork cs.chain ≡ take fork own
  pub long : fork ≤ length cs.chain

module _ (w : World) (lru : LruCache) (own : List Block) (fork : ℕ) where
  open lru use {Cache}

  validate_and_apply-Grown :
      (now : ℤ) (cs cs' : ChainState) (blk : Block) (m : Cache)
      → NotGenesis blk
      → Grown own fork cs
      → (validate_and_apply w lru now cs blk m).0 ≡ ok cs'
      → Grown own fork cs'
  validate_and_apply-Grown now cs cs' blk m n g e =
      let a : Accepted w lru now cs blk cs' = validate_and_apply-Accepted w lru now cs blk m e in
      let f : Follows w blk cs.chain =
        check_parent-Follows w blk cs.chain n
          (header_checks-Checked w lru now blk cs.chain a.header).parent in
      record {
        is_built =
            append-IsBuilt cs cs' blk g.is_built
              (validate_and_apply-Replays w lru now cs blk m g.is_built.replays n e) a.chain-eq
              (omega (arith, f.height-eq, last-height 0 cs.chain g.is_built.numbered f.last-eq));
        same =
            ap (take fork) a.chain-eq
            ∙ sym (take-take fork (length cs.chain) (cs.chain ++ blk ∷ []) g.long)
            ∙ ap (take fork) (take-append cs.chain (blk ∷ []))
            ∙ g.same;
        long = omega (arith, ap length a.chain-eq, length-append cs.chain (blk ∷ []), g.long);
      }

  pub extend-Grown :
      (clock : ℕ → ℤ) (tail : List Block) (cs : ChainState) (m : Cache) {cs' : ChainState}
      → All NotGenesis tail
      → Grown own fork cs
      → (extend w lru clock 0 tail cs m).0 ≡ ok cs'
      → Grown own fork cs'
  extend-Grown clock tail cs m a g e =
      extend_induction w lru (Grown own fork) NotGenesis validate_and_apply-Grown clock 0 tail cs m
        a g e

  -- A state on the part that the two chains share.
  pub prefix-Grown :
      (cs : ChainState)
      → Numbered 0 own
      → cs.chain ≡ take fork own
      → Replays cs
      → 0 < fork
      → fork ≤ length own
      → Grown own fork cs
  prefix-Grown cs n e r pos_fork le = record {
    is_built = record {
      replays = r;
      numbered = subst (Numbered 0) (sym e) (Numbered-take fork 0 own n);
      nonempty = omega (arith, len);
    };
    same = ap (take fork) e ∙ take-take fork fork own (omega arith);
    long = omega (arith, len);
  }
    where
      len : length cs.chain ≡ fork
      len = ap length e ∙ length-take_le fork own le
