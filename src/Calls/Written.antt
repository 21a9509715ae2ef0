-- ===== src/Calls/Written.antt =====
-- What a part of a run writes: `writes` picks the writes out of the calls.
use mathlib.Core.List.{append_assoc}
use miniziti_operator.Prelude.{◌≡◌, ◌∙◌, ap, sym, List, ◌++◌, All, All-append}
use miniziti_operator.Calls.{Calling}

module _ {C W : Type 0} (writes : List C → List W) where
  -- Between two points of a run, only such writes were made.
  abbrev pub Only : (W → Type 0) → List C → List C → Type 0
  Only Q t t' = (new : List W) × All Q new × (writes t' ≡ new ++ writes t)

  pub Only-trans : (Q : W → Type 0) (t s u : List C) → Only Q t s → Only Q s u → Only Q t u
  Only-trans Q t s u (xs, hx, ex) (ys, hy, ey) =
      (ys ++ xs, All-append Q ys xs hy hx, ey ∙ ap (λ l. ys ++ l) ex ∙ sym (append_assoc ys xs _))

  -- A part of a run that writes nothing.
  abbrev pub Silent : {A : Type 0} → Calling C A → Type 0
  Silent m = (t : List C) → writes (m t).1 ≡ writes t
