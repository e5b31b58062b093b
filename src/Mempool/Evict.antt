-- ===== src/Mempool/Evict.antt =====
-- What the eviction of src/mempool.py chooses: entries of the pool, each once.
use lapsecoin.Prelude.{
  ℕ, ◌+◌, String, ◌≡◌, refl, ap, ◌∙◌, none, some, [], ◌∷◌, arith, str_eq, eq_iff, if◌then◌else◌,
  Bool-cases, inl, inr,
}
use lapsecoin.Prelude.Int.{ℤ, pos, leb_ℤ}
use lapsecoin.Dict.{Dict, lookup, IsKeyed}
use lapsecoin.Mempool.{Rates, Entry, insert_by_rate, by_worst_first, scan}

module _ (rates : Rates) where
  open rates use {Rate}

  -- The bytes of a table of entries.
  abbrev pub sum_sizes : Dict (Entry rates) → ℕ
  sum_sizes [] = 0
  sum_sizes ((_, e) ∷ d) = e.size + sum_sizes d

  lookup-insert_by_rate :
      (h j : String) (e : Entry rates) (d : Dict (Entry rates))
      → lookup h d ≡ none
      → lookup j (insert_by_rate rates h e d) ≡ (if str_eq h j then some e else lookup j d)
  unfolding insert_by_rate
  lookup-insert_by_rate h j e [] n = refl
  lookup-insert_by_rate h j e ((i, w) ∷ d) n =
      ground (arith, eq_iff h j, eq_iff i h, eq_iff i j, lookup-insert_by_rate h j e d)

  insert_by_rate-IsKeyed :
      (h : String) (e : Entry rates) (d : Dict (Entry rates))
      → lookup h d ≡ none
      → IsKeyed d
      → IsKeyed (insert_by_rate rates h e d)
  unfolding insert_by_rate
  insert_by_rate-IsKeyed h e [] n k = (refl, tt)
  insert_by_rate-IsKeyed h e ((i, w) ∷ d) n k =
      ground
        (arith, eq_iff h i, eq_iff i h, insert_by_rate-IsKeyed h e d, lookup-insert_by_rate h i e d)

  -- Sorting moves entries and no more.
  pub lookup-by_worst_first :
      (d : Dict (Entry rates))
      → IsKeyed d
      → IsKeyed (by_worst_first rates d)
        × ((j : String) → lookup j (by_worst_first rates d) ≡ lookup j d)
  unfolding by_worst_first
  lookup-by_worst_first [] k = (tt, λ j. refl)
  lookup-by_worst_first ((h, e) ∷ d) k =
      let (k', same) = lookup-by_worst_first d k.1 in
      let fresh = same h ∙ k.0 in
      (
        insert_by_rate-IsKeyed h e (by_worst_first rates d) fresh k',
        λ j.
            lookup-insert_by_rate h j e (by_worst_first rates d) fresh
            ∙ ap (λ o. if str_eq h j then some e else o) (same j),
      )

  -- Every entry of the one stands in the other.
  abbrev pub Within : Dict (Entry rates) → Dict (Entry rates) → Type 0
  Within l d = (j : String) (e : Entry rates) → lookup j l ≡ some e → lookup j d ≡ some e

  -- The loop takes entries from the front, and counts their bytes.
  pub record Scanned (freed : ℕ) (d l : Dict (Entry rates)) (freed' : ℕ) : Type 0 where
    pub keyed : IsKeyed l
    pub within : Within l d
    pub missing : (j : String) → lookup j d ≡ none → lookup j l ≡ none
    pub freed-eq : freed' ≡ freed + sum_sizes l

  scan-none : (freed : ℕ) (d : Dict (Entry rates)) → Scanned freed d [] freed
  scan-none freed d = record {
    keyed = tt;
    within = λ j e h. cc;
    missing = λ j h. refl;
    freed-eq = omega arith;
  }

  scan-cons :
      (h : String) (e : Entry rates) (freed freed' : ℕ) (d l : Dict (Entry rates))
      → lookup h d ≡ none
      → Scanned (freed + e.size) d l freed'
      → Scanned freed ((h, e) ∷ d) ((h, e) ∷ l) freed'
  scan-cons h e freed freed' d l n s = record {
    keyed = (s.missing h n, s.keyed);
    within = λ j x. ground (arith, s.within j x);
    missing = λ j. ground (arith, s.missing j);
    freed-eq = omega (arith, s.freed-eq);
  }

  pub scan-Scanned :
      (overflow : ℤ) (q : Rate) (freed : ℕ) (d : Dict (Entry rates))
      → IsKeyed d
      → Scanned freed d (scan rates overflow q freed d).0 (scan rates overflow q freed d).1
  unfolding scan
  scan-Scanned overflow q freed [] k = scan-none freed []
  scan-Scanned overflow q freed ((h, e) ∷ d) k = elim (Bool-cases (leb_ℤ overflow (pos freed))) [
    | inl y ↦ rw y (scan-none freed ((h, e) ∷ d))
    | inr n ↦ elim (Bool-cases (rates.at_least e.fee_rate q)) [
      | inl y ↦ rw (n, y) (scan-none freed ((h, e) ∷ d))
      | inr m ↦
          rw (n, m) (scan-cons h e freed _ d _ k.0 (scan-Scanned overflow q (freed + e.size) d k.1))
    ]
  ]
