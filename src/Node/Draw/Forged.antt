-- ===== src/Node/Draw/Forged.antt =====
-- A block with a hash that is not its own, in the draw of src/node.py.
use lapsecoin.Prelude.{
  ℕ, String, ◌≡◌, ◌≢◌, refl, ap, ◌∙◌, Bool, true, not, Option, none, some, [], ◌∷◌,
}
use lapsecoin.Prelude.Int.{ℤ}
use lapsecoin.Prelude.Result.{Result, ok, refused, refuse_if, hash_mismatch}
use lapsecoin.Tx.Signature.{LruCache}
use lapsecoin.Block.{Block, World, block_hash, tie_break_key}
use lapsecoin.Block.Validate.{same_text, check_hash}
use lapsecoin.Chain.{ChainState}
use lapsecoin.Chain.Fork.{text_lt}
use lapsecoin.Node.Judge.{VerdictCache, Memory, validate_candidate}
use lapsecoin.Node.Judge.Repeats.{Follows, validate_candidate_repeats, str_eq-ne}
use lapsecoin.Node.Draw.{
  Entrant, least, first_least, entered, with_valid, Peers, valid_peers, pick_winner,
}

check_hash-ne :
    (w : World) (blk : Block) (claim : String)
    → blk.hash ≡ some claim
    → claim ≢ block_hash w blk
    → check_hash w blk ≡ refused hash_mismatch
unfolding check_hash
check_hash-ne w blk claim e ne = at blk.hash e
  where
    at :
        (o : Option String)
        → o ≡ some claim
        → refuse_if (not (same_text o (block_hash w blk))) hash_mismatch ≡ refused hash_mismatch
    at o f = rw (f, str_eq-ne claim (block_hash w blk) ne) refl

first_least-two :
    (a b : Entrant) (ka kb : String)
    → tie_break_key a.0 ≡ ok ka
    → tie_break_key b.0 ≡ ok kb
    → text_lt kb ka ≡ true
    → first_least (a ∷ b ∷ []) ≡ ok (some b)
unfolding least
first_least-two a b ka kb e f lt = rw (e, f, lt) refl

module _ (w : World) (lru : LruCache) (vc : VerdictCache) where
  entered-true :
      (r : Result Bool × Memory w lru vc) (blk : Block) (rest : Memory w lru vc → Peers w lru vc)
      → r.0 ≡ ok true
      → entered w lru vc r blk rest ≡ with_valid w lru vc true blk (rest r.1)
  entered-true (r, m) blk rest e = rw e refl

  valid_peers-two :
      (clock : ℕ → ℤ) (a b : Block) (cs : ChainState) (mem : Memory w lru vc)
      → (validate_candidate w lru vc (clock 0) a cs mem).0 ≡ ok true
      → (validate_candidate w lru vc
          (clock 1)
          b
          cs
          (validate_candidate w lru vc (clock 0) a cs mem).1).0
        ≡ ok true
      → (valid_peers w lru vc clock 0 (a ∷ b ∷ []) cs mem).0 ≡ ok ((a, true) ∷ (b, true) ∷ [])
  unfolding valid_peers
  valid_peers-two clock a b cs mem e f =
      ap (λ r. r.0)
        (entered-true (validate_candidate w lru vc (clock 0) a cs mem) a
            (λ m. valid_peers w lru vc clock 1 (b ∷ []) cs m) e
          ∙ ap (with_valid w lru vc true a) (
              entered-true
                (validate_candidate w lru vc (clock 1) b cs
                  (validate_candidate w lru vc (clock 0) a cs mem).1)
                b (λ m. valid_peers w lru vc clock 2 [] cs m) f))

  -- Once a block on the tip has been judged true, a second block on that tip that claims its hash,
  -- whose own hash is another and which shows a lesser tie break key, is refused by the check of
  -- the hash, and still wins the draw against the first.
  pub pick_winner-forged :
      (now : ℤ) (clock : ℕ → ℤ) (cs : ChainState) (tip claim : String) (honest forged : Block)
      (mem : Memory w lru vc) {ours theirs : String}
      → Follows w lru vc cs tip honest
      → Follows w lru vc cs tip forged
      → honest.hash ≡ some claim
      → forged.hash ≡ some claim
      → claim ≢ ""
      → claim ≢ block_hash w forged
      → tie_break_key honest ≡ ok ours
      → tie_break_key forged ≡ ok theirs
      → text_lt theirs ours ≡ true
      → (validate_candidate w lru vc now honest cs mem).0 ≡ ok true
      → (check_hash w forged ≡ refused hash_mismatch)
        × ((pick_winner w lru vc clock cs none
              (honest ∷ forged ∷ [])
              (validate_candidate w lru vc now honest cs mem).1).0
            ≡ ok (some (forged, true)))
  unfolding pick_winner
  pick_winner-forged now clock cs tip claim honest forged mem {ours = ours} {theirs = theirs} f g e
        e' ne lie k k' lt h =
      (
        check_hash-ne w forged claim e' lie,
        rw (f.tip_named, both) (first_least-two (honest, true) (forged, true) ours theirs k k' lt),
      )
    where
      before : Memory w lru vc
      before = (validate_candidate w lru vc now honest cs mem).1

      again : (validate_candidate w lru vc (clock 0) honest cs before).0 ≡ ok true
      again =
          validate_candidate_repeats w lru vc now (clock 0) cs tip claim honest honest mem f f e e
            ne h

      both :
          (valid_peers w lru vc clock 0 (honest ∷ forged ∷ []) cs before).0
          ≡ ok ((honest, true) ∷ (forged, true) ∷ [])
      both = valid_peers-two clock honest forged cs before again (
          validate_candidate_repeats w lru vc (clock 0) (clock 1) cs tip claim honest forged before
            f g e e' ne again)
