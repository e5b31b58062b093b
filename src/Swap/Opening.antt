-- ===== src/Swap/Opening.antt =====
-- Who moves first (`opening_mover` and `i_move_first` of src/swap.py): always one of the two.
use text.Mathlib.TextEquality.{Char-path}
use native.Mathlib.Decide.{ℕ_discrete}
use Prim.Native.Char.{code}
use lapsecoin.Prelude.{
  ℕ, String, ◌≡◌, ◌≢◌, refl, sym, ap, ◌∙◌, Bool, true, false, not, List, [], ◌∷◌, arith, Bool-cases,
  inl, inr,
}
use lapsecoin.Prelude.Text.{codes}
use lapsecoin.Prelude.Result.{ok}
use lapsecoin.Chain.Fork.{codes_lt}
use lapsecoin.Swap.{Floats, opening_mover, i_move_first}

-- Two different sequences are in one order or in the other.
codes_lt-not : (xs ys : List ℕ) → xs ≢ ys → codes_lt xs ys ≡ not (codes_lt ys xs)
unfolding codes_lt
codes_lt-not [] [] h = absurd (h refl)
codes_lt-not [] (y ∷ ys) h = refl
codes_lt-not (x ∷ xs) [] h = refl
codes_lt-not (x ∷ xs) (y ∷ ys) h = elim (ℕ_discrete x y) [
  | yes e ↦ let tails = codes_lt-not xs ys (λ k. h (cc (e, k))) in ground (arith, tails)
  | no n ↦ ground arith
]

codes-injective : (a b : String) → codes a ≡ codes b → a ≡ b
codes-injective String.[] String.[] e = refl
codes-injective String.[] (String.◌∷◌ d t) e = cc
codes-injective (String.◌∷◌ c s) String.[] e = cc
codes-injective (String.◌∷◌ c s) (String.◌∷◌ d t) e =
    let head : code c ≡ code d = cc e in
    let tail : codes s ≡ codes t = cc e in cc (Char-path c d head, codes-injective s t tail)

-- What finite floats do: `==` has no sides, and of two that differ one is above the other.
pub record IsOrdered (f : Floats) (a b : f.Score) : Type 0 where
  pub same_comm : f.same a b ≡ f.same b a
  pub above-not : f.same a b ≡ false → f.above a b ≡ not (f.above b a)

opening_mover-not :
    (f : Floats) (mine theirs : f.Score) (me peer : String)
    → IsOrdered f mine theirs
    → me ≢ peer
    → opening_mover f mine theirs me peer ≡ not (opening_mover f theirs mine peer me)
unfolding opening_mover
opening_mover-not f mine theirs me peer o d = elim (Bool-cases (f.same mine theirs)) [
  | inl y ↦
      rw (y, sym o.same_comm ∙ y)
        (codes_lt-not (codes me) (codes peer) (λ e. d (codes-injective me peer e)))
  | inr n ↦ rw (n, sym o.same_comm ∙ n) (o.above-not n)
]

not_comm : (a b : Bool) → a ≡ not b → b ≡ not a
not_comm true true e = cc
not_comm true false e = refl
not_comm false true e = refl
not_comm false false e = cc

first_flips :
    (n : ℕ) (a : Bool) {b : Bool} → i_move_first n a ≡ ok b → i_move_first n (not a) ≡ ok (not b)
unfolding i_move_first
first_flips n true e = ground arith
first_flips n false e = ground arith

-- Where finite scores are compared and the two addresses differ, the two parties, each with its
-- own side's arguments, find opposite answers to who moves first in a step.
pub i_move_first-one :
    (f : Floats) (mine theirs : f.Score) (me peer : String) (n : ℕ) {b : Bool}
    → IsOrdered f mine theirs
    → me ≢ peer
    → i_move_first n (opening_mover f mine theirs me peer) ≡ ok b
    → i_move_first n (opening_mover f theirs mine peer me) ≡ ok (not b)
i_move_first-one f mine theirs me peer n {b = b} o d e =
    let turned = not_comm _ _ (opening_mover-not f mine theirs me peer o d) in
    ap (i_move_first n) turned ∙ first_flips n (opening_mover f mine theirs me peer) e
