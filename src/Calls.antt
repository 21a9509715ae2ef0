-- ===== src/Calls.antt =====
-- Computations that make calls. One takes the calls made so far, the latest first, and returns its
-- result with the calls extended; what answers the calls is a function of the calls before.
pub mod Written
use miniziti_operator.Prelude.{List, ◌∷◌}
use miniziti_operator.Errors.{Err, Result, ok, err}

abbrev pub Calling : Type 0 → Type 0 → Type 0
Calling C A = List C → A × List C

abbrev pub pure : {C A : Type 0} → A → Calling C A
pure a t = (a, t)

-- One call, and the answer that the environment gives at this point.
abbrev pub perform : {C A : Type 0} → C → (List C → A) → Calling C A
perform call answer t = (answer t, call ∷ t)

abbrev pub then_do : {C A B : Type 0} → Calling C A → (A → Calling C B) → Calling C B
then_do m f t = f (m t).0 (m t).1

-- `if err != nil { return fail(err) }`
abbrev pub handle : {C A B : Type 0} → Result A → (Err → B) → (A → Calling C B) → Calling C B
handle (ok a) fail f t = f a t
handle (err e) fail f t = (fail e, t)

abbrev pub attempt :
    {C A B : Type 0} → Calling C (Result A) → (Err → B) → (A → Calling C B) → Calling C B
attempt m fail f t = handle (m t).0 fail f (m t).1

-- A step that may fail, and the rest that runs if it does not.
infixl 5 ◌>>=◌
abbrev pub ◌>>=◌ :
    {C A B : Type 0} → Calling C (Result A) → (A → Calling C (Result B)) → Calling C (Result B)
m >>= f = attempt m err f
