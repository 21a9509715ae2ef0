-- ===== src/Controller/Identity/Run/Guarded.antt =====
-- What the reconciler of identities writes to the backend and which secrets it touches.
use miniziti_operator.Prelude.{
  String, ◌≡◌, refl, Bool, true, false, not, none, some, List, [], ◌∷◌, ◌==◌, arith, Bool-cases,
  Option-cases, inl, inr, ◌⊎◌,
}
use miniziti_operator.Strings.{contains}
use miniziti_operator.Errors.{Err, Result, ok, err, is_not_found, Result-cases}
use miniziti_operator.Calls.Written.{Only, Only-trans, Silent}
use miniziti_operator.Openziti.{Identity}
use miniziti_operator.Api.{ZitiIdentity}
use miniziti_operator.Controller.Helpers.{Done, ensure_finalizer}
use miniziti_operator.Controller.Identity.Effects.{
  Secret, Call, get_enrollment_jwt, create_identity, update_identity, create_secret, delete_secret,
  Env, Exec, finalizer, desired_identity, to_client_identity, validate_identity_spec,
}
use miniziti_operator.Controller.Identity.Secrets.{
  secret_key, new_secret, add_secret, secret_or_create, reconcile_enrollment_secret,
}
use miniziti_operator.Controller.Identity.Run.{
  with_backend, with_secret, mark_ready, mark_failed, or_fail, stage, push_found,
  reconcile_identity, report_ready, reconcile_enrollment, reconcile_valid, reconcile_live,
}

pub data Write : Type 0 where
  pushed : Identity → Write
  made : Secret → Write
  dropped : Secret → Write

-- The identities that were created or updated in the backend and the secrets that were created or
-- deleted, the latest first.
abbrev pub writes : List Call → List Write
writes [] = []
writes (create_identity i ∷ calls) = pushed i ∷ writes calls
writes (update_identity i ∷ calls) = pushed i ∷ writes calls
writes (create_secret s ∷ calls) = made s ∷ writes calls
writes (delete_secret s ∷ calls) = dropped s ∷ writes calls
writes (_ ∷ calls) = writes calls

module _ (env : Env) where
  -- A secret that may be created: the specification asks for one, the backend gave its token for the
  -- identity, no secret of its name was there right after, and the identity was set as its owner.
  abbrev pub Wanted : ZitiIdentity → Secret → Type 0
  Wanted identity secret =
      let name = identity.spec.enrollment.jwt_secret_name in
      (backend : Identity) × (jwt : String) × (s : List Call) × (e : Err)
      × (identity.spec.enrollment.create_jwt_secret ≡ true)
      × (env.enrollment_jwt s backend.id ≡ ok jwt)
      × (env.secret_read (get_enrollment_jwt backend.id ∷ s) (secret_key identity name) ≡ err e)
      × (is_not_found e ≡ true)
      × (env.with_controller (with_backend identity backend) (new_secret identity name jwt)
          ≡ ok secret)

  -- A write of a run for an identity that is not deleting.
  abbrev pub Allowed : ZitiIdentity → Write → Type 0
  Allowed identity (pushed i) =
      (id : String) × (i ≡ to_client_identity id (desired_identity identity))
  Allowed identity (made secret) = Wanted identity secret
  Allowed identity (dropped secret) = ⊥

  mark_failed-Silent :
      (identity : ZitiIdentity) (e : Err) (reason : String) (retryable : Bool)
      → Silent writes (mark_failed env identity e reason retryable)
  unfolding mark_failed
  mark_failed-Silent identity e reason retryable t = ground arith

  report_ready-Silent : (identity : ZitiIdentity) → Silent writes (report_ready env identity)
  unfolding report_ready mark_ready
  report_ready-Silent identity t = ground arith

  reconcile_identity-Allowed :
      (identity : ZitiIdentity) (t : List Call)
      → Only writes
          (Allowed identity)
          t
          (reconcile_identity env identity (desired_identity identity) t).1
  unfolding reconcile_identity push_found
  reconcile_identity-Allowed identity t =
      let desired = desired_identity identity in
      let one : String → Write = λ id. pushed (to_client_identity id desired) in
      elim (Bool-cases (not (identity.status.common.id == ""))) [
        | inl e ↦ rw e (one identity.status.common.id ∷ [], ((_, refl), tt), refl)
        | inr n ↦ elim (Result-cases (env.identity_by_name t desired.name)) [
          | inr (x, f) ↦ rw (n, f) ([], tt, refl)
          | inl (none, f) ↦ rw (n, f, push_found) (one "" ∷ [], ((_, refl), tt), refl)
          | inl (some i, f) ↦ rw (n, f, push_found) (one i.id ∷ [], ((_, refl), tt), refl)
        ]
      ]

  add_secret-made :
      (secret : Secret) (t : List Call)
      → writes (add_secret env secret t).1 ≡ made secret ∷ writes t
  unfolding add_secret
  add_secret-made secret t = elim (Option-cases (env.secret_created t secret)) [
    | inl e ↦ rw (e, add_secret) refl
    | inr (x, e) ↦ rw (e, add_secret) refl
  ]

  reconcile_secret-Allowed :
      (identity : ZitiIdentity) (backend : Identity) (jwt : String) (u : List Call)
      → identity.spec.enrollment.create_jwt_secret ≡ true
      → env.enrollment_jwt u backend.id ≡ ok jwt
      → Only writes
          (Allowed identity)
          (get_enrollment_jwt backend.id ∷ u)
          (reconcile_enrollment_secret env
            (with_backend identity backend)
            jwt
            (get_enrollment_jwt backend.id ∷ u)).1
  unfolding reconcile_enrollment_secret secret_or_create
  reconcile_secret-Allowed identity backend jwt u wants given =
      let t = get_enrollment_jwt backend.id ∷ u in
      let name = identity.spec.enrollment.jwt_secret_name in
      let read = env.secret_read t (secret_key identity name) in
      let owned =
        env.with_controller (with_backend identity backend) (new_secret identity name jwt) in
      elim (Bool-cases (name == "")) [
        | inl blank ↦ rw blank ([], tt, refl)
        | inr named ↦ elim (Result-cases read) [
          | inl (secret, e) ↦ rw (named, e) ([], tt, refl)
          | inr (x, e) ↦ elim (Bool-cases (not (is_not_found x))) [
            | inl other ↦ rw (named, e, secret_or_create, other) ([], tt, refl)
            | inr missing ↦ elim (Result-cases owned) [
              | inr (y, f) ↦ rw (named, e, secret_or_create, missing, f) ([], tt, refl)
              | inl (secret, f) ↦
                  rw (named, e, secret_or_create, missing, f)
                    (
                      made secret ∷ [],
                      ((backend, jwt, u, x, wants, given, e, ground (missing, arith), f), tt),
                      add_secret-made secret _,
                    )
            ]
          ]
        ]
      ]

  -- A part of a run that makes only such writes, wherever it starts.
  AllowedIn : {A : Type 0} → ZitiIdentity → Exec A → Type 0
  AllowedIn identity m = (t : List Call) → Only writes (Allowed identity) t (m t).1

  -- A stage, and what follows its answer.
  answered-Allowed :
      {A : Type 0} (identity current : ZitiIdentity) (reason : String) (retryable : Bool)
      (m : Exec (Result A)) (next : A → Exec Done) (t : List Call)
      → Only writes (Allowed identity) t (m t).1
      → ((a : A) → (m t).0 ≡ ok a → Only writes (Allowed identity) (m t).1 (next a (m t).1).1)
      → Only writes (Allowed identity) t (stage env current reason retryable m next t).1
  unfolding stage or_fail
  answered-Allowed identity current reason retryable m next t h k =
      let s = (m t).1 in
      elim (Result-cases (m t).0) [
        | inl (a, e) ↦
            rw (e, or_fail) (Only-trans writes (Allowed identity) t s (next a s).1 h (k a e))
        | inr (x, e) ↦
            rw (e, or_fail)
              (Only-trans writes (Allowed identity) t s
                (mark_failed env current x reason retryable s).1 h
                ([], tt, mark_failed-Silent current x reason retryable s))
      ]

  -- The same, where what follows makes only such writes wherever it starts.
  stage-AllowedIn :
      {A : Type 0} (identity current : ZitiIdentity) (reason : String) (retryable : Bool)
      (m : Exec (Result A)) (next : A → Exec Done)
      → ((t : List Call) → Only writes (Allowed identity) t (m t).1)
      → ((a : A) → AllowedIn identity (next a))
      → AllowedIn identity (stage env current reason retryable m next)
  unfolding AllowedIn
  stage-AllowedIn identity current reason retryable m next h k t =
      answered-Allowed identity current reason retryable m next t (h t) (λ a e. k a (m t).1)

  report_ready-AllowedIn :
      (identity current : ZitiIdentity) → AllowedIn identity (report_ready env current)
  unfolding AllowedIn
  report_ready-AllowedIn identity current t = ([], tt, report_ready-Silent current t)

  reconcile_enrollment-AllowedIn :
      (identity : ZitiIdentity) (backend : Identity) (wants : Bool)
      → identity.spec.enrollment.create_jwt_secret ≡ wants
      → AllowedIn identity
          (reconcile_enrollment env (with_backend identity backend) wants backend.id)
  unfolding reconcile_enrollment AllowedIn
  reconcile_enrollment-AllowedIn identity backend false e t =
      report_ready-AllowedIn identity (with_backend identity backend) t
  reconcile_enrollment-AllowedIn identity backend true e t =
      let current = with_backend identity backend in
      answered-Allowed identity current _ _ _ _ t ([], tt, refl)
        λ jwt given.
          answered-Allowed identity current _ _ _ _ (get_enrollment_jwt backend.id ∷ t)
            (reconcile_secret-Allowed identity backend jwt t e given)
            λ name f. report_ready-AllowedIn identity (with_secret current name) _

  reconcile_valid-AllowedIn :
      (identity : ZitiIdentity) → AllowedIn identity (reconcile_valid env identity)
  unfolding reconcile_valid
  reconcile_valid-AllowedIn identity =
      stage-AllowedIn identity identity _ _ _ _ (reconcile_identity-Allowed identity)
        λ backend. reconcile_enrollment-AllowedIn identity backend _ refl

  -- A run for an identity that is not deleting writes only if the identity has the finalizer and its
  -- specification is valid. What it then writes are the desired identity in the backend, under some id,
  -- and a secret, if the specification asks for one, under the name that it asks for, with the token
  -- that the backend gave just before and the identity as its owner, where no secret of that name was:
  -- no secret is replaced, changed or deleted.
  pub reconcile_live-Allowed :
      (identity : ZitiIdentity) (t : List Call)
      → (writes (reconcile_live env identity t).1 ≡ writes t)
        ⊎ ((contains identity.meta.finalizers finalizer ≡ true)
            × (validate_identity_spec identity ≡ none)
            × Only writes (Allowed identity) t (reconcile_live env identity t).1)
  unfolding reconcile_live ensure_finalizer AllowedIn
  reconcile_live-Allowed identity t =
      elim (Bool-cases (contains identity.meta.finalizers finalizer)) [
        | inr missing ↦ inl (unready missing)
        | inl kept ↦ elim (Option-cases (validate_identity_spec identity)) [
          | inr (e, invalid) ↦
              inl (rw (kept, invalid, reconcile_live) (mark_failed-Silent identity e _ _ t))
          | inl valid ↦
              rw (kept, valid, reconcile_live)
                (inr (refl, refl, reconcile_valid-AllowedIn identity t))
        ]
      ]
    where
      unready :
          contains identity.meta.finalizers finalizer ≡ false
          → writes (reconcile_live env identity t).1 ≡ writes t
      unready missing = ground arith
