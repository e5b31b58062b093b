-- ===== src/Engine/Rows.antt =====
-- The rows of a trade in the database, found and written by their numbers.
use lapsecoin.Prelude.{
  ℕ, ◌≡◌, ◌≢◌, refl, ◌∙◌, inl, inr, Bool, Option, none, some, List, [], ◌∷◌, arith, Bool-cases,
}
use lapsecoin.Engine.{Increment, find_row, write_row, update_found}
use lapsecoin.Engine.Keeps.{IsSame}

module _ {E : Type 0} where
  pub find_row-n :
      (n : ℕ) (rows : List (Increment E)) {i : Increment E} → find_row n rows ≡ some i → i.n ≡ n
  unfolding find_row
  find_row-n n [] e = cc
  find_row-n n (r ∷ rows) {i = i} e =
      let rest : find_row n rows ≡ some i → i.n ≡ n = find_row-n n rows in ground (arith, rest)

  pub find_row-written :
      (i : Increment E) (rows : List (Increment E)) {j : Increment E}
      → find_row i.n rows ≡ some j
      → find_row i.n (write_row i rows) ≡ some i
  unfolding find_row write_row
  find_row-written i [] e = cc
  find_row-written i (r ∷ rows) {j = j} e =
      let rest : find_row i.n rows ≡ some j → find_row i.n (write_row i rows) ≡ some i =
        find_row-written i rows in
      ground (arith, rest)

  pub find_row-other :
      (n : ℕ) (i : Increment E) (rows : List (Increment E))
      → n ≢ i.n
      → find_row n (write_row i rows) ≡ find_row n rows
  unfolding find_row write_row
  find_row-other n i [] h = refl
  find_row-other n i (r ∷ rows) h = ground (arith, find_row-other n i rows h)

  pub find_row-update_found :
      {m : ℕ} (n : ℕ) (b : Increment E → Bool) (f : Increment E → Increment E)
      (rows : List (Increment E))
      → IsSame f
      → n ≢ m
      → (o : Option (Increment E)) → find_row m rows ≡ o
      → find_row n (update_found b f rows o) ≡ find_row n rows
  unfolding update_found IsSame
  find_row-update_found n b f rows s h none e = refl
  find_row-update_found n b f rows s h (some i) e =
      let other = find_row-other n (f i) rows (λ k. h (k ∙ (s i ∙ find_row-n _ rows e))) in
      elim (Bool-cases (b i)) [ inl y ↦ rw y other | inr n ↦ rw n refl ]
