-- ===== src/Node/Draw/Window.antt =====
-- The draw window of src/node.py: how long it is open, and when a build can no longer enter it.
use lapsecoin.Prelude.{
  ℕ, ◌+◌, ◌<◌, ◌≡◌, refl, ap, ◌∙◌, true, false, ◌||◌, some, List, [], ◌∷◌, arith, All, ltb, leb,
  ◌==◌, ==_iff,
}
use lapsecoin.Prelude.Int.{pos, ◌-ℤ◌, -ℤ_parts}
use lapsecoin.Prelude.Result.{ok}
use lapsecoin.Block.{Block}
use lapsecoin.Chain.{ChainState}
use lapsecoin.Node.{height}
use lapsecoin.Node.Draw.{Draw, draw_is_open, open_draw, too_late, should_abandon}

-- More candidates for the same height, each at its time.
abbrev pub open_draws : ℕ → ℕ → List ℕ → Draw → Draw
open_draws window h [] d = d
open_draws window h (t ∷ times) d = open_draws window h times (open_draw window h t d)

same_height_refl : (h : ℕ) → (h == h) ≡ true
same_height_refl h = (==_iff h h).1 refl

running :
    (window h first t : ℕ) (d : Draw)
    → d.contest ≡ some h
    → d.closes ≡ first + window
    → t < first + window
    → open_draw window h t d ≡ d
unfolding open_draw
running window h first t d e f lt = rw (e, same_height_refl h, f) (ground arith)

open_draws-running :
    (window h first : ℕ) (times : List ℕ) (d : Draw)
    → d.contest ≡ some h
    → d.closes ≡ first + window
    → All (λ t. t < first + window) times
    → open_draws window h times d ≡ d
open_draws-running window h first [] d e f a = refl
open_draws-running window h first (t ∷ times) d e f a =
    ap (open_draws window h times) (running window h first t d e f a.0)
    ∙ open_draws-running window h first times d e f a.1

opened :
    (window h first : ℕ) (d : Draw)
    → draw_is_open h first d ≡ false
    → open_draw window h first d
      ≡ record { contest = some h; anchor = first; closes = first + window }
unfolding open_draw draw_is_open
opened window h first d e = rw e refl

open_at :
    (window h first now : ℕ)
    → draw_is_open h now (record { contest = some h; anchor = first; closes = first + window })
      ≡ ltb now (first + window)
unfolding draw_is_open
open_at window h first now = rw (same_height_refl h) refl

-- A draw that opens at a time is open for exactly the window's length from then on, however many
-- candidates for that height come in while it runs.
pub draw_is_open-open_draws :
    (window h first now : ℕ) (times : List ℕ) (d : Draw)
    → draw_is_open h first d ≡ false
    → All (λ t. t < first + window) times
    → draw_is_open h now (open_draws window h times (open_draw window h first d))
      ≡ ltb now (first + window)
draw_is_open-open_draws window h first now times d e a =
    ap (draw_is_open h now) (
      ap (open_draws window h times) (opened window h first d e)
      ∙ open_draws-running window h first times _ refl refl a)
    ∙ open_at window h first now

too_late-eq :
    (m now start closes : ℕ)
    → too_late (pos m -ℤ (pos now -ℤ pos start)) (pos closes -ℤ pos now)
      ≡ (leb closes now || ltb closes (start + m))
too_late-eq m now start closes = ground (
  arith,
  -ℤ_parts (pos m) (pos now -ℤ pos start),
  -ℤ_parts (pos now) (pos start),
  -ℤ_parts (pos closes) (pos now),
)

-- With a competitor in hand and a draw for the height that is being built, the node gives its own
-- build up exactly when the draw has closed or the build, started when it was and taking the
-- node's median time, ends after the draw closes; the time of the question cancels out.
pub should_abandon-eq :
    (m now start h : ℕ) (cs : ChainState) (b : Block) (blocks : List Block) (d : Draw)
    → height cs ≡ ok h
    → d.contest ≡ some (h + 1)
    → should_abandon (some m) now start cs (b ∷ blocks) d
      ≡ ok (leb d.closes now || ltb d.closes (start + m))
unfolding should_abandon
should_abandon-eq m now start h cs b blocks d e f =
    rw (e, f, same_height_refl (h + 1)) (ap ok (too_late-eq m now start d.closes))
