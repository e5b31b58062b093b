-- ===== src/Engine/Silent.antt =====
-- What `reconcile` of src/swap_engine.py hands to the chains.
use lapsecoin.Prelude.{◌≡◌, refl, List, [], ◌∷◌}
use lapsecoin.Engine.{Increment, World, Desk, Sent, save_with, save_next}
use lapsecoin.Engine.Drive.{reconcile, reconcile_steps, unless_unreachable}
use lapsecoin.Engine.Keeps.{Keeps, IsFrame, reconcile_step-Keeps, >>-Keeps, done-Keeps}

abbrev pub HasLog : {w : World} → List (Sent w) → Desk w → Type 0
HasLog l d = d.log ≡ l

module _ {w : World} (l : List (Sent w)) where
  pub frame : IsFrame (HasLog l)
  unfolding save_with save_next
  frame = record {
    asking = λ A f. record { kept = λ d p. p };
    saving = λ f _. record { kept = λ d p. p };
    next = λ b f _. record { kept = λ d p. p };
    trading = λ f. record { kept = λ d p. p };
  }

  reconcile_steps-Keeps :
      (steps : List (Increment w.Envelope)) → Keeps (HasLog l) (reconcile_steps steps)
  unfolding reconcile_steps unless_unreachable save_with
  reconcile_steps-Keeps [] = done-Keeps
  reconcile_steps-Keeps (i ∷ steps) =
      >>-Keeps
        (record {
          kept = λ d p.
              (reconcile_step-Keeps frame (λ f _. record { kept = λ d p. p })).kept
                (record d { inc = i }) p;
        })
        (reconcile_steps-Keeps steps)

-- Reconciling a trade with the chains hands no envelope to any chain.
pub reconcile-silent : {w : World} (d : Desk w) → (reconcile d).1.log ≡ d.log
unfolding reconcile
reconcile-silent d = (reconcile_steps-Keeps d.log d.rows).kept d refl
