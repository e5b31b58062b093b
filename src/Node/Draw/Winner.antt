-- ===== src/Node/Draw/Winner.antt =====
-- Which block wins a height in src/node.py `_pick_winner`.
use lapsecoin.Prelude.{
  ℕ, String, ◌≡◌, ◌⊎◌, inl, inr, refl, sym, ap, ◌∙◌, Bool, true, false, List, [], ◌∷◌, arith, All,
  Bool-cases, if◌then◌else◌,
}
use lapsecoin.Prelude.Text.{codes}
use lapsecoin.Prelude.Result.{ok, >>=-eq-ok, ok-injective}
use lapsecoin.Block.{tie_break_key}
use lapsecoin.Chain.Fork.{codes_lt, text_lt}
use lapsecoin.Node.Draw.{Entrant, lesser, least}

codes_lt_trans : (a b c : List ℕ) → codes_lt a b ≡ true → codes_lt b c ≡ true → codes_lt a c ≡ true
unfolding codes_lt
codes_lt_trans a [] [] h k = cc
codes_lt_trans [] [] (z ∷ zs) h k = cc
codes_lt_trans (x ∷ xs) [] (z ∷ zs) h k = cc
codes_lt_trans a (y ∷ ys) [] h k = cc
codes_lt_trans [] (y ∷ ys) (z ∷ zs) h k = refl
codes_lt_trans (x ∷ xs) (y ∷ ys) (z ∷ zs) h k = ground (arith, codes_lt_trans xs ys zs)

codes_lt_irrefl : (a : List ℕ) → codes_lt a a ≡ false
unfolding codes_lt
codes_lt_irrefl [] = refl
codes_lt_irrefl (x ∷ xs) = ground (arith, codes_lt_irrefl xs)

codes_lt_negtrans :
    (a b c : List ℕ) → codes_lt a b ≡ false → codes_lt b c ≡ false → codes_lt a c ≡ false
unfolding codes_lt
codes_lt_negtrans a b [] h k = nothing_below a
  where
    nothing_below : (l : List ℕ) → codes_lt l [] ≡ false
    nothing_below [] = refl
    nothing_below (x ∷ xs) = refl
codes_lt_negtrans a [] (z ∷ zs) h k = cc
codes_lt_negtrans [] (y ∷ ys) (z ∷ zs) h k = cc
codes_lt_negtrans (x ∷ xs) (y ∷ ys) (z ∷ zs) h k = ground (arith, codes_lt_negtrans xs ys zs)

above_less : (k key z : String) → text_lt k key ≡ true → text_lt k z ≡ false → text_lt key z ≡ false
above_less k key z h g = ground (arith, codes_lt_trans (codes k) (codes key) (codes z))

-- The entrant's key is not less than this one.
pub record NotBelow (key : String) (e : Entrant) : Type 0 where
  pub own : String
  pub own-eq : tie_break_key e.0 ≡ ok own
  pub not_less : text_lt own key ≡ false

-- One of the entrants is this one.
abbrev pub OneOf : Entrant → List Entrant → Type 0
OneOf x [] = ⊥
OneOf x (e ∷ l) = (x ≡ e) ⊎ OneOf x l

-- What `least` returns, from the best so far.
pub record Least (x : Entrant) (best : Entrant) (l : List Entrant) : Type 0 where
  pub key : String
  pub key-eq : tie_break_key x.0 ≡ ok key
  pub below_best : NotBelow key best
  pub below_all : All (NotBelow key) l
  pub found : (x ≡ best) ⊎ OneOf x l

-- The step of the loop, when the entrant is less than the best so far and when it is not.
Least-less :
    (x e best : Entrant) (k key : String) (l : List Entrant)
    → tie_break_key e.0 ≡ ok k
    → tie_break_key best.0 ≡ ok key
    → text_lt k key ≡ true
    → Least x e l
    → Least x best (e ∷ l)
Least-less x e best k key l f g lt r = record {
  key = r.key;
  key-eq = r.key-eq;
  below_best = record { own = key; own-eq = g; not_less = still_less };
  below_all = (r.below_best, r.below_all);
  found = inr r.found;
}
  where
    own : text_lt r.below_best.own r.key ≡ false
    own = r.below_best.not_less

    same : r.below_best.own ≡ k
    same = ok-injective (sym r.below_best.own-eq ∙ f)

    still_less : text_lt key r.key ≡ false
    still_less = above_less k key r.key lt (ap (λ o. text_lt o r.key) (sym same) ∙ own)

Least-not_less :
    (x e best : Entrant) (k key : String) (l : List Entrant)
    → tie_break_key e.0 ≡ ok k
    → tie_break_key best.0 ≡ ok key
    → text_lt k key ≡ false
    → Least x best l
    → Least x best (e ∷ l)
Least-not_less x e best k key l f g ge r = record {
  key = r.key;
  key-eq = r.key-eq;
  below_best = r.below_best;
  below_all = (record { own = k; own-eq = f; not_less = not_less }, r.below_all);
  found = later r.found;
}
  where
    same : r.below_best.own ≡ key
    same = ok-injective (sym r.below_best.own-eq ∙ g)

    not_less : text_lt k r.key ≡ false
    not_less =
        codes_lt_negtrans (codes k) (codes key) (codes r.key) ge
          (ap (λ o. text_lt o r.key) (sym same) ∙ r.below_best.not_less)

    later : (x ≡ best) ⊎ OneOf x l → (x ≡ best) ⊎ OneOf x (e ∷ l)
    later (inl h) = inl h
    later (inr h) = inr (inr h)

pub least-Least :
    (x best : Entrant) (key : String) (l : List Entrant)
    → tie_break_key best.0 ≡ ok key
    → least best key l ≡ ok x
    → Least x best l
unfolding least
least-Least x best key [] g e = record {
  key = key;
  key-eq = ap (λ (y : Entrant). tie_break_key y.0) (sym (ok-injective e)) ∙ g;
  below_best = record { own = key; own-eq = g; not_less = codes_lt_irrefl (codes key) };
  below_all = tt;
  found = inl (sym (ok-injective e));
}
least-Least x best key (f ∷ l) g e =
    let (k, e0, r0) = >>=-eq-ok (tie_break_key f.0) _ e in
    by_order k e0 r0 (λ b k' g' e'. least-Least x b k' l g' e') (Bool-cases (text_lt k key))
  where
    taken : Bool → String → Entrant × String
    taken t k = if t then (f, k) else (best, key)

    by_order :
        (k : String)
        → tie_break_key f.0 ≡ ok k
        → least (lesser f k best key).0 (lesser f k best key).1 l ≡ ok x
        → ((b : Entrant) (k' : String)
            → tie_break_key b.0 ≡ ok k'
            → least b k' l ≡ ok x
            → Least x b l)
        → (text_lt k key ≡ true) ⊎ (text_lt k key ≡ false)
        → Least x best (f ∷ l)
    by_order k e0 r0 rec (inl lt) =
        Least-less x f best k key l e0 g lt
          (rec f k e0 (ap (λ t. least (taken t k).0 (taken t k).1 l) (sym lt) ∙ r0))
    by_order k e0 r0 rec (inr ge) =
        Least-not_less x f best k key l e0 g ge
          (rec best key g (ap (λ t. least (taken t k).0 (taken t k).1 l) (sym ge) ∙ r0))
