-- ===== src/Openziti/Client/Bounded.antt =====
-- How often the management client repeats a call and renews its session.
use miniziti_operator.Prelude.{
  ℕ, ◌+◌, ◌*◌, ◌≤◌, ◌≡◌, Bool, true, false, List, [], ◌∷◌, arith, Bool-cases, inl, inr,
}
use miniziti_operator.Errors.{Result, Result-cases}
use miniziti_operator.Openziti.Client.{
  Api, Call, load_config, authenticate, invalidate, request, Env, Exec, should_reauthenticate,
  usable, authenticate_fresh, client_for, get_or_authenticate, try_again, unless_rejected,
  use_authenticated_client,
}

-- The calls for the configuration and for a new session.
abbrev pub loads : List Call → ℕ
loads [] = 0
loads (load_config ∷ t) = 1 + loads t
loads (_ ∷ t) = loads t

abbrev pub authentications : List Call → ℕ
authentications [] = 0
authentications (authenticate _ ∷ t) = 1 + authentications t
authentications (_ ∷ t) = authentications t

abbrev pub requests : List Call → ℕ
requests [] = 0
requests (request _ _ ∷ t) = 1 + requests t
requests (_ ∷ t) = requests t

module _ (env : Env) where
  get_or_authenticate-bounded :
      (force : Bool) (t : List Call)
      → (requests (get_or_authenticate env force t).1 ≡ requests t)
        × (authentications (get_or_authenticate env force t).1 ≤ 1 + authentications t)
        × (loads (get_or_authenticate env force t).1 ≡ 1 + loads t)
  unfolding get_or_authenticate client_for authenticate_fresh usable
  get_or_authenticate-bounded force t = (ground arith, ground arith, ground arith)

  -- A function that makes at most so many requests, and leaves the session to its caller.
  abbrev pub AtMost : {A : Type 0} → ℕ → (Api → Exec (Result A)) → Type 0
  AtMost n fn =
      (api : Api) (t : List Call)
      → (requests (fn api t).1 ≤ n + requests t)
        × (authentications (fn api t).1 ≡ authentications t)
        × (loads (fn api t).1 ≡ loads t)

  try_again-bounded :
      {A : Type 0} (n : ℕ) (fn : Api → Exec (Result A)) (t : List Call)
      → AtMost n fn
      → (requests (try_again env fn t).1 ≤ n + requests t)
        × (authentications (try_again env fn t).1 ≤ 1 + authentications t)
        × (loads (try_again env fn t).1 ≤ 1 + loads t)
  unfolding try_again
  try_again-bounded n fn t b =
      let s = invalidate ∷ t in
      let got = get_or_authenticate env true s in
      let counts = get_or_authenticate-bounded true s in
      elim (Result-cases got.0) [
        | inr (x, e) ↦
            rw e (omega (counts.0, arith), omega (counts.1, arith), omega (counts.2, arith))
        | inl (api, e) ↦
            let run = b api got.1 in
            rw e (
              omega (counts.0, run.0, arith),
              omega (counts.1, run.1, arith),
              omega (counts.2, run.2, arith),
            )
      ]

  -- A call that makes at most `n` requests with the session it is given makes at most 2 * n of them in
  -- all, loads the credentials at most twice and authenticates at most twice, whatever the backend
  -- answers: a session that is rejected over and over does not make the client loop.
  pub use_authenticated_client-bounded :
      {A : Type 0} (n : ℕ) (fn : Api → Exec (Result A)) (t : List Call)
      → AtMost n fn
      → (requests (use_authenticated_client env fn t).1 ≤ 2 * n + requests t)
        × (authentications (use_authenticated_client env fn t).1 ≤ 2 + authentications t)
        × (loads (use_authenticated_client env fn t).1 ≤ 2 + loads t)
  unfolding use_authenticated_client unless_rejected
  use_authenticated_client-bounded n fn t b =
      let got = get_or_authenticate env false t in
      let counts = get_or_authenticate-bounded false t in
      elim (Result-cases got.0) [
        | inr (x, e) ↦
            rw e (omega (counts.0, arith), omega (counts.1, arith), omega (counts.2, arith))
        | inl (api, e) ↦
            let ran = fn api got.1 in
            let run = b api got.1 in
            elim (Result-cases ran.0) [
              | inl (a, f) ↦
                  rw (e, f, unless_rejected)
                    (
                      omega (counts.0, run.0, arith),
                      omega (counts.1, run.1, arith),
                      omega (counts.2, run.2, arith),
                    )
              | inr (x, f) ↦ elim (Bool-cases (should_reauthenticate x)) [
                | inr n' ↦
                    rw (e, f, unless_rejected, n')
                      (
                        omega (counts.0, run.0, arith),
                        omega (counts.1, run.1, arith),
                        omega (counts.2, run.2, arith),
                      )
                | inl y ↦
                    let again = try_again-bounded n fn ran.1 b in
                    rw (e, f, unless_rejected, y)
                      (
                        omega (counts.0, run.0, again.0, arith),
                        omega (counts.1, run.1, again.1, arith),
                        omega (counts.2, run.2, again.2, arith),
                      )
              ]
            ]
      ]
