-- ===== src/Node/Live/Sibling.antt =====
-- The chain that src/node.py offers itself for a sibling of its tip: its own up to the block below,
-- and the sibling. Whatever is built from it ends with the sibling.
use lapsecoin.Prelude.{
  ℕ, zero, suc, ◌≤◌, ◌≡◌, refl, ap, ◌∙◌, String, false, Option, none, some, List, [], ◌∷◌, ◌++◌,
  arith, length, eq_iff,
}
use lapsecoin.Prelude.Result.{ok}
use lapsecoin.Tx.Signature.{LruCache}
use lapsecoin.Block.{Block, World}
use lapsecoin.Block.Validate.{last?, same_text}
use lapsecoin.Chain.{ChainState}
use lapsecoin.Chain.Extends.Header.{or_missing-ok}
use lapsecoin.Chain.Fork.{same_hash, tip_hash}
use lapsecoin.Chain.Fork.Search.{first_difference}
use lapsecoin.Node.{drop}
use lapsecoin.Node.Adopt.Built.{BuiltOn}
use lapsecoin.Node.Live.Inbound.{but_last}

last?-cons : (x b : Block) (l : List Block) → last? l ≡ some b → last? (x ∷ l) ≡ some b
last?-cons x b [] e = cc
last?-cons x b (y ∷ l) e = e

last?-append : (s l : List Block) {b : Block} → last? l ≡ some b → last? (s ++ l) ≡ some b
last?-append [] l e = e
last?-append (x ∷ s) l {b = b} e = last?-cons x b (s ++ l) (last?-append s l e)

last?-drop :
    (n : ℕ) (xs : List Block) (b : Block) → n ≤ length xs → last? (drop n (xs ++ b ∷ [])) ≡ some b
last?-drop zero xs b h = last?-append xs (b ∷ []) refl
last?-drop (suc n) [] b h = absurd (omega arith)
last?-drop (suc n) (x ∷ xs) b h = last?-drop n xs b (omega arith)

same_hash-other :
    (o : Option String) (tip : String) → same_text o tip ≡ false → same_hash (some tip) o ≡ false
same_hash-other none tip h = refl
same_hash-other (some t) tip h = ground (arith, eq_iff t tip, eq_iff tip t)

module _ (w : World) where
  -- The two chains part at the sibling or before it.
  first_difference-sibling :
      (own : List Block) (blk : Block) (tip : String)
      → tip_hash w own ≡ ok tip
      → same_text blk.hash tip ≡ false
      → first_difference own (but_last own ++ blk ∷ []) ≤ length (but_last own)
  unfolding tip_hash first_difference
  first_difference-sibling [] blk tip t h = cc
  first_difference-sibling (b ∷ []) blk tip t h =
      rw (or_missing-ok b.hash t, same_hash-other blk.hash tip h) (omega arith)
  first_difference-sibling (b ∷ c ∷ l) blk tip t h =
      ground (arith, first_difference-sibling (c ∷ l) blk tip t h)

  pub last?-sibling :
      (lru : LruCache) (own : List Block) (blk : Block) (tip : String) (cs : ChainState)
      → tip_hash w own ≡ ok tip
      → same_text blk.hash tip ≡ false
      → BuiltOn w lru own (but_last own ++ blk ∷ []) cs
      → last? cs.chain ≡ some blk
  last?-sibling lru own blk tip cs t h b =
      ap last? b.chain-eq
      ∙ last?-append b.shared _ (
          last?-drop (first_difference own (but_last own ++ blk ∷ [])) (but_last own) blk
            (first_difference-sibling own blk tip t h))
