-- ===== src/Mempool/Bounds.antt =====
-- The count of bytes of src/mempool.py is right, and within the limit.
use lapsecoin.Prelude.{
  ℕ, ◌+◌, ◌≤◌, String, ◌≡◌, refl, sym, ap, ◌∙◌, Option, none, some, List, [], ◌∷◌, arith,
}
use mathlib.Core.Path.{subst}
use lapsecoin.Prelude.Int.{ℤ, pos, ◌+ℤ◌, ◌-ℤ◌, int_laws}
use lapsecoin.Prelude.Result.{ok, >>=-eq-ok, ok-injective}
use lapsecoin.Dict.{Dict, lookup, insert, erase, IsKeyed, erase-IsKeyed}
use lapsecoin.State.{State}
use lapsecoin.Mempool.{
  Rates, Entry, Mempool, mempool_max_bytes, popped, remove, remove_many, prune_stale, stale,
}
use lapsecoin.Mempool.Evict.{sum_sizes}

module _ (rates : Rates) where
  abbrev pub size_or_zero : Option (Entry rates) → ℕ
  size_or_zero none = 0
  size_or_zero (some e) = e.size

  sum_sizes-erase :
      (h : String) (d : Dict (Entry rates))
      → sum_sizes rates (erase h d) + size_or_zero (lookup h d) ≡ sum_sizes rates d
  sum_sizes-erase h [] = omega arith
  sum_sizes-erase h ((i, e) ∷ d) = ground (arith, sum_sizes-erase h d)

  pub sum_sizes-insert :
      (h : String) (e : Entry rates) (d : Dict (Entry rates))
      → lookup h d ≡ none
      → sum_sizes rates (insert h e d) ≡ sum_sizes rates d + e.size
  sum_sizes-insert h e [] n = omega arith
  sum_sizes-insert h e ((i, w) ∷ d) n = ground (arith, sum_sizes-insert h e d)

  -- No hash twice, and the count is the sum of the sizes.
  pub record IsSized (p : Mempool rates) : Type 0 where
    pub keyed : IsKeyed p.pool
    pub total-eq : p.total_bytes ≡ pos (sum_sizes rates p.pool)

  -- And the sum is within the limit.
  pub record IsPool (p : Mempool rates) : Type 0 where
    pub sized : IsSized p
    pub bounded : sum_sizes rates p.pool ≤ mempool_max_bytes

  minus-part : (a b c : ℕ) (z : ℤ) → z ≡ pos a → b + c ≡ a → z -ℤ pos c ≡ pos b
  minus-part a b c z e f = grind int_laws

  pub plus-part : (a b c : ℕ) (z : ℤ) → z ≡ pos a → b ≡ a + c → z +ℤ pos c ≡ pos b
  plus-part a b c z e f = grind int_laws

  popped-IsSized :
      (o : Option (Entry rates)) (h : String) (p : Mempool rates)
      → lookup h p.pool ≡ o
      → IsSized p
      → IsSized (popped rates o h p)
        × (sum_sizes rates (popped rates o h p).pool + size_or_zero o ≡ sum_sizes rates p.pool)
  popped-IsSized none h p e s = (s, omega arith)
  popped-IsSized (some x) h p e s =
      let freed : sum_sizes rates (erase h p.pool) + x.size ≡ sum_sizes rates p.pool =
        ap (λ o. sum_sizes rates (erase h p.pool) + size_or_zero o) (sym e)
        ∙ sum_sizes-erase h p.pool in
      (
        record {
          keyed = erase-IsKeyed h p.pool s.keyed;
          total-eq = minus-part (sum_sizes rates p.pool) _ x.size p.total_bytes s.total-eq freed;
        },
        freed,
      )

  pub remove-IsSized :
      (h : String) (p : Mempool rates)
      → IsSized p
      → IsSized (remove rates h p)
        × (sum_sizes rates (remove rates h p).pool + size_or_zero (lookup h p.pool)
            ≡ sum_sizes rates p.pool)
  unfolding remove
  remove-IsSized h p s = popped-IsSized (lookup h p.pool) h p refl s

  remove_many-IsSized :
      (hs : List String) (p : Mempool rates)
      → IsSized p
      → IsSized (remove_many rates hs p)
        × (sum_sizes rates (remove_many rates hs p).pool ≤ sum_sizes rates p.pool)
  unfolding remove_many
  remove_many-IsSized [] p s = (s, omega arith)
  remove_many-IsSized (h ∷ hs) p s =
      let (one, le) = remove-IsSized h p s in
      let (all, more) = remove_many-IsSized hs (remove rates h p) one in
      (all, omega (arith, le, more))

  -- Removing hashes, held or not, from a mempool without a repeated hash, whose count of bytes is
  -- the sum of the sizes held and within the limit, leaves such a mempool.
  pub remove_many-IsPool :
      (hs : List String) (p : Mempool rates) → IsPool p → IsPool (remove_many rates hs p)
  remove_many-IsPool hs p k =
      let (s, le) = remove_many-IsSized hs p k.sized in
      record { sized = s; bounded = omega (arith, le, k.bounded) }

  -- Pruning a mempool without a repeated hash, whose count of bytes is the sum of the sizes held
  -- and within the limit, leaves such a mempool.
  pub prune_stale-IsPool :
      (s : State) (now ttl : ℕ) (p : Mempool rates) {p' : Mempool rates} {pruned : List String}
      → IsPool p
      → prune_stale rates s now ttl p ≡ ok (p', pruned)
      → IsPool p'
  unfolding prune_stale
  prune_stale-IsPool s now ttl p k e =
      let (hs, e0, r0) = >>=-eq-ok (stale rates s now ttl p.pool) _ e in
      subst IsPool (ap (λ q. q.0) (ok-injective r0)) (remove_many-IsPool hs p k)
