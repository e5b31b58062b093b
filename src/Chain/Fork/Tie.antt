-- ===== src/Chain/Fork/Tie.antt =====
-- Fork choice of src/chainstate.py, `is_better_than`: two nodes that hold the two chains agree.
use lapsecoin.Prelude.{
  ℕ, zero, suc, ◌+◌, ◌-◌, String, ◌≡◌, ◌≢◌, refl, ap, sym, ◌∙◌, true, false, Option, none, some,
  List, [], ◌∷◌, arith, length, get_elem?, eq_iff, ltb, ◌==◌,
}
use Prim.Native.Nat.{min}
use native.Mathlib.Decide.{ℕ_discrete}
use mathlib.Core.Path.{fun_ext}
use lapsecoin.Prelude.Text.{codes}
use lapsecoin.Prelude.Result.{Result, ok, refused, raised, >>=-eq-ok, ok-injective}
use lapsecoin.Block.{Block, World}
use lapsecoin.Chain.{ChainState}
use lapsecoin.Chain.Fork.{
  codes_lt, key_at, Tally, vote, tally, fallback_key, decide_tie, or_stuck, wins_tie_break,
  tip_hash, unless_same_tip, is_better_than, fork_point, search_fork, agree, block_agrees,
  same_hash,
}

codes_lt_asymm : (a b : List ℕ) → codes_lt a b ≡ true → codes_lt b a ≡ false
unfolding codes_lt
codes_lt_asymm [] [] h = cc
codes_lt_asymm [] (y ∷ ys) h = refl
codes_lt_asymm (x ∷ xs) [] h = cc
codes_lt_asymm (x ∷ xs) (y ∷ ys) h = ground (arith, codes_lt_asymm xs ys)

-- The roles of the two chains, exchanged.
abbrev swap : Tally → Tally
swap t = record { self_wins = t.other_wins; other_wins = t.self_wins }

vote-swap : (a b : String) (t : Tally) → vote b a (swap t) ≡ swap (vote a b t)
vote-swap a b t =
    ground (arith, codes_lt_asymm (codes a) (codes b), codes_lt_asymm (codes b) (codes a))

tally-suc :
    (n : ℕ) (self other : List Block) (i : ℕ) (a b : String) (rest : Tally)
    → key_at self i ≡ ok a
    → key_at other i ≡ ok b
    → tally n self other (i + 1) ≡ ok rest
    → tally (suc n) self other i ≡ ok (vote a b rest)
unfolding tally
tally-suc n self other i a b rest e f g = rw (e, f, g)

tally-swap :
    (n : ℕ) (self other : List Block) (i : ℕ) {t : Tally}
    → tally n self other i ≡ ok t
    → tally n other self i ≡ ok (swap t)
unfolding tally
tally-swap zero self other i e = ground arith
tally-swap (suc n) self other i e =
    let (a, e0, r0) = >>=-eq-ok (key_at self i) _ e in
    let (b, e1, r1) = >>=-eq-ok (key_at other i) _ r0 in
    let (rest, e2, r2) = >>=-eq-ok (tally n self other (i + 1)) _ r1 in
    tally-suc n other self i b a (swap rest) e1 e0 (tally-swap n self other (i + 1) e2)
    ∙ ap ok (vote-swap a b rest ∙ ap swap (ok-injective r2))

same_hash_comm : (o p : Option String) → same_hash o p ≡ same_hash p o
same_hash_comm (some s) (some t) = ground (arith, eq_iff s t, eq_iff t s)
same_hash_comm (some s) none = refl
same_hash_comm none (some t) = refl
same_hash_comm none none = refl

block_agrees_comm : (o p : Option Block) → block_agrees o p ≡ block_agrees p o
block_agrees_comm (some x) (some y) = same_hash_comm x.hash y.hash
block_agrees_comm (some x) none = refl
block_agrees_comm none (some y) = refl
block_agrees_comm none none = refl

agree_comm : (xs ys : List Block) → agree xs ys ≡ agree ys xs
unfolding agree
agree_comm xs ys = fun_ext λ i. block_agrees_comm (get_elem? xs i) (get_elem? ys i)

min_comm : (a b : ℕ) → min a b ≡ min b a
min_comm a b = omega arith

fork_point_comm : (xs ys : List Block) → fork_point xs ys ≡ fork_point ys xs
unfolding fork_point
fork_point_comm xs ys =
    λ j. let n = min_comm (length xs) (length ys) j in search_fork (agree_comm xs ys j) (n + 1) 0 n

ltb_flip : (a b : ℕ) → ltb a b ≡ true → ltb b a ≡ false
ltb_flip a b h = ground arith

module _ (w : World) where
  decide_tie-swap :
      (t : Tally) (a b : Result String)
      → decide_tie w t a b ≡ ok true
      → decide_tie w (swap t) b a ≡ ok false
  decide_tie-swap t (ok a) (ok b) e = ground (arith, codes_lt_asymm (codes a) (codes b))
  decide_tie-swap t (ok a) (refused x) e = ground arith
  decide_tie-swap t (ok a) (raised x) e = ground arith
  decide_tie-swap t (refused x) (ok b) e = ground arith
  decide_tie-swap t (refused x) (refused y) e = ground arith
  decide_tie-swap t (refused x) (raised y) e = ground arith
  decide_tie-swap t (raised x) b e = ground arith

  wins_tie_break-parts :
      (self other : List Block) (i : ℕ) (t : Tally)
      → fork_point self other ≡ some i
      → let n = min (length self) (length other) - i in
        tally n self other i ≡ ok t
        → wins_tie_break w self other
          ≡ decide_tie w t (fallback_key w self i n) (fallback_key w other i n)
  unfolding wins_tie_break
  wins_tie_break-parts self other i t e f = rw (e, f)

  or_stuck-some : (o : Option ℕ) {i : ℕ} → or_stuck w o ≡ ok i → o ≡ some i
  or_stuck-some none e = cc
  or_stuck-some (some j) e = cc

  wins_tie_break_asymm :
      (self other : List Block)
      → wins_tie_break w self other ≡ ok true
      → wins_tie_break w other self ≡ ok false
  unfolding wins_tie_break
  wins_tie_break_asymm self other e =
      let (i, e0, r0) = >>=-eq-ok (or_stuck w (fork_point self other)) _ e in
      let n = min (length self) (length other) - i in
      let (t, e1, r1) = >>=-eq-ok (tally n self other i) _ r0 in
      let m = min (length other) (length self) - i in
      let same : m ≡ n = omega arith in
      let back = tally-swap n self other i e1 in
      wins_tie_break-parts other self i (swap t)
        (fork_point_comm other self ∙ or_stuck-some (fork_point self other) e0)
        (ap (λ k. tally k other self i) same ∙ back)
      ∙ ap (λ k. decide_tie w (swap t) (fallback_key w other i k) (fallback_key w self i k)) same
      ∙ decide_tie-swap t (fallback_key w self i n) (fallback_key w other i n) r1

  unless_same_tip_asymm :
      (a b : String) (self other : List Block)
      → unless_same_tip w a b self other ≡ ok true
      → unless_same_tip w b a other self ≡ ok false
  unless_same_tip_asymm a b self other e =
      ground (arith, eq_iff a b, eq_iff b a, wins_tie_break_asymm self other)

  better-parts :
      (self other : ChainState) (a b : String)
      → self.cumulative_iterations ≡ other.cumulative_iterations
      → tip_hash w self.chain ≡ ok a
      → tip_hash w other.chain ≡ ok b
      → is_better_than w self other ≡ unless_same_tip w a b self.chain other.chain
  unfolding is_better_than
  better-parts self other a b e f g =
      let t : (self.cumulative_iterations == other.cumulative_iterations) ≡ true = ground arith in
      rw (t, f, g)

  better_work :
      (self other : ChainState)
      → self.cumulative_iterations ≢ other.cumulative_iterations
      → is_better_than w self other
        ≡ ok (ltb other.cumulative_iterations self.cumulative_iterations)
  unfolding is_better_than
  better_work self other h =
      let t : (self.cumulative_iterations == other.cumulative_iterations) ≡ false = ground arith in
      rw t

  better-tips :
      (self other : ChainState)
      → self.cumulative_iterations ≡ other.cumulative_iterations
      → is_better_than w self other ≡ ok true
      → (a : String) × (b : String) × (tip_hash w self.chain ≡ ok a)
        × (tip_hash w other.chain ≡ ok b)
        × (unless_same_tip w a b self.chain other.chain ≡ ok true)
  unfolding is_better_than
  better-tips self other h e =
      let t : (self.cumulative_iterations == other.cumulative_iterations) ≡ true = ground arith in
      let (a, e0, r0) = >>=-eq-ok (tip_hash w self.chain) _ (rw t at e) in
      let (b, e1, r1) = >>=-eq-ok (tip_hash w other.chain) _ r0 in (a, b, e0, e1, r1)

  -- If fork choice finds one chain state better than another, it finds that the other is not
  -- better than the one.
  pub is_better_than_asymm :
      (self other : ChainState)
      → is_better_than w self other ≡ ok true
      → is_better_than w other self ≡ ok false
  is_better_than_asymm self other e =
      elim (ℕ_discrete self.cumulative_iterations other.cumulative_iterations) [
        | yes h ↦
            let (a, b, f, g, r) = better-tips self other h e in
            better-parts other self b a (sym h) g f
            ∙ unless_same_tip_asymm a b self.chain other.chain r
        | no h ↦
            let more = ok-injective (sym (better_work self other h) ∙ e) in
            better_work other self (λ k. h (sym k)) ∙ ap ok (ltb_flip _ _ more)
      ]
