-- ===== src/Node/Live/Relay.antt =====
-- What src/node.py passes on of the blocks that come in, and what becomes of its sync hint.
use lapsecoin.Prelude.{
  ℕ, ◌+◌, ◌≤◌, String, ◌≡◌, refl, ap, Bool, true, false, ◌&&◌, Option, none, some, [], ◌∷◌, ◌++◌,
  arith, str_eq, ltb, ◌==◌, if-cases, if◌then◌else◌,
}
use lapsecoin.Prelude.Int.{ℤ}
use lapsecoin.Prelude.Result.{Result, Check, ok, refused, raised}
use lapsecoin.Tx.Signature.{LruCache}
use lapsecoin.Block.{Block, World}
use lapsecoin.Block.Validate.{last?, same_text}
use lapsecoin.Chain.Fork.{tip_hash, is_better_than}
use lapsecoin.Mempool.{Rates}
use lapsecoin.Node.{height}
use lapsecoin.Node.Judge.{VerdictCache, Memory, validate_candidate}
use lapsecoin.Node.Judge.Sound.{Validated, Backed, validate_candidate-Looked}
use lapsecoin.Node.Live.{Hint, Live}
use lapsecoin.Node.Live.Sibling.{last?-sibling}
use lapsecoin.Node.Live.Inbound.{
  but_last, hinted, judged_next, same_height_or_above, handled, is_ok, reorg_if, sibling_wins,
  reorg_to_sibling, handle_inbound_block,
}
use lapsecoin.Node.Live.Moved.{Moved, apply_better_chain-Moved}

module _ (w : World) (lru : LruCache) (vc : VerdictCache) (rates : Rates) where
  -- Why a block may be passed on.
  pub data Vouched (before after : Live w lru vc rates) (tip : String) (blk : Block) : Type 0 where
    validated :
        (claim : String)
        → blk.hash ≡ some claim
        → Validated w lru vc before.node.cs claim
        → Vouched before after tip blk
    own_tip : same_text blk.hash tip ≡ true → Vouched before after tip blk
    winner :
        last? after.node.cs.chain ≡ some blk
        → is_better_than w after.node.cs before.node.cs ≡ ok true
        → Vouched before after tip blk

  -- What the handling of a block leaves.
  pub record Handled (tip : String) (blk : Block) (before : Live w lru vc rates)
      (r : Result Bool × Live w lru vc rates) : Type 0 where
    pub vouched : r.0 ≡ ok true → Vouched before r.1 tip blk
    pub hint_le : before.hint.reached ≤ r.1.hint.reached

  reorg_if-Handled :
      (g : Result Bool) (clock : ℕ → ℤ) (time : ℕ) (tip : String) (blk : Block)
      (live : Live w lru vc rates)
      → tip_hash w live.node.cs.chain ≡ ok tip
      → same_text blk.hash tip ≡ false
      → Handled tip blk live (reorg_if w lru vc rates g clock time blk live)
  reorg_if-Handled (ok true) clock time tip blk live t other = moved _ (
      apply_better_chain-Moved w lru vc rates clock time (but_last live.node.cs.chain ++ blk ∷ [])
        live)
    where
      is_ok-true : (r : Check) → is_ok w lru vc rates r ≡ ok true → r ≡ ok tt
      is_ok-true (ok u) e = refl
      is_ok-true (refused x) e = cc
      is_ok-true (raised x) e = cc

      moved :
          (s : Check × Live w lru vc rates)
          → Moved w lru vc rates (but_last live.node.cs.chain ++ blk ∷ []) live s.1 s.0
          → Handled tip blk live (is_ok w lru vc rates s.0, s.1)
      moved (r, after) m = record {
        vouched = λ e.
            let a = m.adopted (is_ok-true r e) in
            winner (last?-sibling w lru live.node.cs.chain blk tip after.node.cs t other a.built)
              a.better;
        hint_le = omega (arith, ap (λ (h : Hint w lru vc rates). h.reached) m.hint-eq);
      }
  reorg_if-Handled (ok false) clock time tip blk live t other = record {
    vouched = λ no. cc;
    hint_le = omega arith;
  }
  reorg_if-Handled (refused x) clock time tip blk live t other = record {
    vouched = λ no. cc;
    hint_le = omega arith;
  }
  reorg_if-Handled (raised x) clock time tip blk live t other = record {
    vouched = λ no. cc;
    hint_le = omega arith;
  }

  hinted_le :
      (sender : Option String) (h : ℕ) (live : Live w lru vc rates)
      → live.hint.reached ≤ (hinted w lru vc rates sender h live).hint.reached
  hinted_le none h live = omega arith
  hinted_le (some s) h live = ground arith

  same_height_or_above-Handled :
      (h : ℕ) (tip : String) (clock : ℕ → ℤ) (time : ℕ) (blk : Block) (sender : Option String)
      (live : Live w lru vc rates)
      → tip_hash w live.node.cs.chain ≡ ok tip
      → Handled tip blk live (same_height_or_above w lru vc rates h tip clock time blk sender live)
  unfolding reorg_to_sibling
  same_height_or_above-Handled h tip clock time blk sender live t =
      if-cases (Handled tip blk live)
        (if same_text blk.hash tip
          then (ok true, live)
          else reorg_to_sibling w lru vc rates clock time blk live)
        (ok false, above) (blk.height == h)
        (λ _.
          if-cases (Handled tip blk live) (ok true, live)
            (reorg_to_sibling w lru vc rates clock time blk live) (same_text blk.hash tip)
            (λ same. record { vouched = λ _. own_tip same; hint_le = omega arith })
            (λ other.
              reorg_if-Handled (sibling_wins w lru vc rates time blk live) clock time tip blk live t
                other))
        (λ _. record {
          vouched = λ no. cc;
          hint_le =
              if-cases (λ (l : Live w lru vc rates). live.hint.reached ≤ l.hint.reached)
                (hinted w lru vc rates sender blk.height live) live (ltb h blk.height)
                (λ _. hinted_le sender blk.height live) (λ _. omega arith);
        })
    where
      above : Live w lru vc rates
      above = if ltb h blk.height then hinted w lru vc rates sender blk.height live else live

  -- On a node whose true verdicts are all backed, a block is passed on only if it claims the hash
  -- of a block that passed validation on the node's chain, or the hash of its tip, or the node's
  -- chain is now a better one that ends with this block; and the height that its sync hint names
  -- never falls.
  pub handle_inbound_block-Handled :
      (clock : ℕ → ℤ) (time : ℕ) (tip : String) (blk : Block) (sender : Option String)
      (live : Live w lru vc rates)
      → tip_hash w live.node.cs.chain ≡ ok tip
      → Backed w lru vc live.node.cs tip live.memory.judged
      → Handled tip blk live (handle_inbound_block w lru vc rates clock time blk sender live)
  unfolding handle_inbound_block
  handle_inbound_block-Handled clock time tip blk sender live t b = rw t (at (height live.node.cs))
    where
      next : Result Bool × Memory w lru vc
      next = validate_candidate w lru vc (clock 0) blk live.node.cs live.memory

      at :
          (h : Result ℕ)
          → Handled tip blk live (handled w lru vc rates h (ok tip) clock time blk sender live)
      at (ok h) =
          if-cases (Handled tip blk live) (judged_next w lru vc rates next live)
            (same_height_or_above w lru vc rates h tip clock time blk sender live)
            (blk.height == h + 1 && str_eq blk.previous_hash tip)
            (λ _. record {
              vouched = λ e.
                  let (claim, c, v) =
                    (validate_candidate-Looked w lru vc live.node.cs tip (clock 0) blk live.memory t
                        b).answer
                      e in
                  validated claim c v;
              hint_le = omega arith;
            })
            (λ _. same_height_or_above-Handled h tip clock time blk sender live t)
      at (refused x) = record { vouched = λ no. cc; hint_le = omega arith }
      at (raised x) = record { vouched = λ no. cc; hint_le = omega arith }
