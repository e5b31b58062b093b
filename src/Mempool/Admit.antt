-- ===== src/Mempool/Admit.antt =====
-- Admission to the mempool (`add` of src/mempool.py): what it evicts makes room for what it adds.
use lapsecoin.Prelude.{
  ℕ, ◌+◌, ◌≤◌, String, ◌≡◌, sym, ap, ◌∙◌, false, none, some, List, [], ◌∷◌, arith, str_eq, eq_iff,
  if◌then◌else◌, Bool-cases, Option-cases, inl, inr,
}
use mathlib.Core.Path.{subst}
use lapsecoin.Prelude.Int.{ℤ, pos, ◌+ℤ◌, ◌-ℤ◌, ltb_ℤ, int_laws}
use lapsecoin.Prelude.Result.{
  ok, >>=-eq-ok, ok-injective, refuse_if, refuse_if-eq-ok, duplicate, mempool_full,
}
use lapsecoin.Dict.{Dict, lookup, contains, IsKeyed, insert-IsKeyed, lookup-erase, lookup-insert}
use lapsecoin.Json.{Fields}
use lapsecoin.Crypto.{Crypto}
use lapsecoin.Tx.{tx_hash}
use lapsecoin.Mempool.{
  Rates, Entry, Mempool, mempool_max_bytes, entry_of, by_worst_first, scan, to_evict, remove,
  remove_many, hashes, put, add,
}
use lapsecoin.Mempool.Evict.{sum_sizes, Within, scan-Scanned, lookup-by_worst_first}
use lapsecoin.Mempool.Bounds.{
  IsSized, IsPool, size_or_zero, remove-IsSized, sum_sizes-insert, plus-part,
}

module _ (rates : Rates) where
  lookup-remove :
      (h j : String) (p : Mempool rates)
      → IsKeyed p.pool
      → lookup j (remove rates h p).pool ≡ (if str_eq h j then none else lookup j p.pool)
  unfolding remove
  lookup-remove h j p k = elim (Option-cases (lookup h p.pool)) [
    | inl n ↦ rw n (ground (arith, eq_iff h j, n))
    | inr (e, f) ↦ rw f (lookup-erase h j p.pool k)
  ]

  Within-tail :
      (h : String) (e : Entry rates) (l : Dict (Entry rates)) (p : Mempool rates)
      → IsKeyed p.pool
      → lookup h l ≡ none
      → Within rates ((h, e) ∷ l) p.pool
      → Within rates l (remove rates h p).pool
  Within-tail h e l p k n w j x f = ground (arith, eq_iff h j, lookup-remove h j p k, w j x, n, f)

  -- Evicting entries of the pool, each once, frees exactly their bytes.
  pub remove_many-hashes :
      (l : Dict (Entry rates)) (p : Mempool rates)
      → IsKeyed l
      → Within rates l p.pool
      → IsSized rates p
      → IsSized rates (remove_many rates (hashes rates l) p)
        × (sum_sizes rates (remove_many rates (hashes rates l) p).pool + sum_sizes rates l
            ≡ sum_sizes rates p.pool)
  unfolding remove_many hashes
  remove_many-hashes [] p k w s = (s, omega arith)
  remove_many-hashes ((h, e) ∷ l) p k w s =
      let (one, freed) = remove-IsSized rates h p s in
      let here : lookup h p.pool ≡ some e = w h e (ground (arith, eq_iff h h)) in
      let freed' : sum_sizes rates (remove rates h p).pool + e.size ≡ sum_sizes rates p.pool =
        ap (λ o. sum_sizes rates (remove rates h p).pool + size_or_zero rates o) (sym here)
        ∙ freed in
      let (all, more) =
        remove_many-hashes l (remove rates h p) k.1 (Within-tail h e l p s.keyed k.0 w) one in
      (all, omega (arith, freed', more))

  lookup-remove_many :
      (j : String) (hs : List String) (p : Mempool rates)
      → IsSized rates p
      → lookup j p.pool ≡ none
      → lookup j (remove_many rates hs p).pool ≡ none
  unfolding remove_many
  lookup-remove_many j [] p s n = n
  lookup-remove_many j (h ∷ hs) p s n =
      lookup-remove_many j hs (remove rates h p) (remove-IsSized rates h p s).0
        (ground (arith, lookup-remove h j p s.keyed, n))

  -- What is chosen for eviction stands in the pool, each entry once, and leaves room for the new one.
  record Room (p : Mempool rates) (e : Entry rates) (l : Dict (Entry rates)) : Type 0 where
    keyed : IsKeyed l
    within : Within rates l p.pool
    fits : sum_sizes rates p.pool + e.size ≤ mempool_max_bytes + sum_sizes rates l

  no_overflow :
      (total : ℤ) (sum size cap : ℕ)
      → total ≡ pos sum
      → ltb_ℤ (pos 0) (total +ℤ pos size -ℤ pos cap) ≡ false
      → sum + size ≤ cap
  no_overflow total sum size cap e h = grind int_laws

  freed_enough :
      (total : ℤ) (sum size cap freed : ℕ)
      → total ≡ pos sum
      → ltb_ℤ (pos freed) (total +ℤ pos size -ℤ pos cap) ≡ false
      → sum + size ≤ cap + freed
  freed_enough total sum size cap freed e h = grind int_laws

  to_evict-Room :
      (p : Mempool rates) (e : Entry rates) {l : Dict (Entry rates)}
      → IsSized rates p
      → to_evict rates p e ≡ ok l
      → Room p e l
  unfolding to_evict
  to_evict-Room p e s h =
      let overflow = p.total_bytes +ℤ pos e.size -ℤ pos mempool_max_bytes in
      elim (Bool-cases (ltb_ℤ (pos 0) overflow)) [
        | inl y ↦
            let (keyed, same) = lookup-by_worst_first rates p.pool s.keyed in
            let k = scan-Scanned rates overflow e.fee_rate 0 (by_worst_first rates p.pool) keyed in
            let (u, e0, r0) =
              >>=-eq-ok
                (refuse_if
                  (ltb_ℤ (pos (scan rates overflow e.fee_rate 0 (by_worst_first rates p.pool)).1)
                    overflow)
                  mempool_full)
                _ (rw y at h) in
            subst (Room p e) (ok-injective r0) (record {
              keyed = k.keyed;
              within = λ j x f. sym (same j) ∙ k.within j x f;
              fits = omega (
                arith,
                freed_enough p.total_bytes (sum_sizes rates p.pool) e.size mempool_max_bytes _
                    s.total-eq (refuse_if-eq-ok _ mempool_full e0),
                k.freed-eq,
              );
            })
        | inr n ↦ subst (Room p e) (ok-injective (rw n at h)) (record {
          keyed = tt;
          within = λ j x. cc;
          fits = omega (
            arith,
            no_overflow p.total_bytes (sum_sizes rates p.pool) e.size mempool_max_bytes s.total-eq
                n,
          );
        })
      ]

  put-IsPool :
      (h : String) (e : Entry rates) (p : Mempool rates)
      → IsSized rates p
      → lookup h p.pool ≡ none
      → sum_sizes rates p.pool + e.size ≤ mempool_max_bytes
      → IsPool rates (put rates h e p) × (lookup h (put rates h e p).pool ≡ some e)
  unfolding put
  put-IsPool h e p s n le =
      let more = sum_sizes-insert rates h e p.pool n in
      (
        record {
          sized = record {
            keyed = insert-IsKeyed h e p.pool s.keyed;
            total-eq =
                plus-part rates (sum_sizes rates p.pool) _ e.size p.total_bytes s.total-eq more;
          };
          bounded = omega (arith, le, more);
        },
        ground (arith, eq_iff h h, lookup-insert h h e p.pool),
      )

  contains-none : (h : String) (d : Dict (Entry rates)) → contains h d ≡ false → lookup h d ≡ none
  contains-none h d e = ground arith

  -- Adding a transaction to a mempool without a repeated hash, whose count of bytes is the sum of
  -- the sizes held and within the limit, leaves such a mempool, which holds the new transaction,
  -- with its size and fee rate, under the transaction's own hash, the one that is returned,
  -- whatever had to be evicted for it.
  pub add-IsPool :
      (c : Crypto) (now : ℕ) (tx : Fields) (p : Mempool rates) {p' : Mempool rates} {h : String}
      → IsPool rates p
      → add rates c now tx p ≡ ok (p', h)
      → IsPool rates p'
        × (h ≡ tx_hash c tx)
        × ((e : Entry rates) × (lookup (tx_hash c tx) p'.pool ≡ some e)
            × (entry_of rates c now tx ≡ ok e))
  unfolding add
  add-IsPool c now tx p {p' = p'} {h = h} k e =
      let (u, e0, r0) = >>=-eq-ok (refuse_if (contains (tx_hash c tx) p.pool) duplicate) _ e in
      let (x, e1, r1) = >>=-eq-ok (entry_of rates c now tx) _ r0 in
      let (l, e2, r2) = >>=-eq-ok (to_evict rates p x) _ r1 in
      let room : Room p x l = to_evict-Room p x k.sized e2 in
      let (s, freed) = remove_many-hashes l p room.keyed room.within k.sized in
      let fresh = contains-none (tx_hash c tx) p.pool (refuse_if-eq-ok _ duplicate e0) in
      let gone = lookup-remove_many (tx_hash c tx) (hashes rates l) p k.sized fresh in
      let (pool, found) =
        put-IsPool (tx_hash c tx) x (remove_many rates (hashes rates l) p) s gone
          (omega (arith, freed, room.fits)) in
      let same = ok-injective r2 in
      (
        subst (IsPool rates) (ap (λ q. q.0) same) pool,
        sym (ap (λ q. q.1) same),
        (
          x,
          subst (λ (q : Mempool rates × String). lookup (tx_hash c tx) q.0.pool ≡ some x) same
              found,
          e1,
        ),
      )
