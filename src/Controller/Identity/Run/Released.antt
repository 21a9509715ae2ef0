-- ===== src/Controller/Identity/Run/Released.antt =====
-- What a deleting identity has lost before it loses its finalizer.
use miniziti_operator.Prelude.{
  String, ◌≡◌, ◌∙◌, refl, true, false, not, none, some, List, [], ◌∷◌, ◌==◌, arith, Bool-cases,
  Option-cases, inl, inr, ◌⊎◌,
}
use miniziti_operator.Strings.{contains}
use miniziti_operator.Errors.{Err, ok, err, is_not_found, ignore_not_found, Result-cases}
use miniziti_operator.Api.{ZitiIdentity}
use miniziti_operator.Controller.Identity.Effects.{
  Secret, Call, get_secret, update_resource, Env, finalizer,
}
use miniziti_operator.Controller.Identity.Secrets.{
  secret_key, delete_read, delete_enrollment_secret,
}
use miniziti_operator.Controller.Identity.Run.{release, or_stop, delete_backend, reconcile_delete}
use miniziti_operator.Controller.Identity.Run.Guarded.{dropped, writes}

-- The updates of the resource itself, which hold its finalizers.
abbrev pub resource_updates : List Call → List ZitiIdentity
resource_updates [] = []
resource_updates (update_resource i ∷ calls) = i ∷ resource_updates calls
resource_updates (_ ∷ calls) = resource_updates calls

module _ (env : Env) where
  -- At most one secret is deleted, and only one that the identity controls.
  abbrev pub DropsOwned : ZitiIdentity → List Call → List Call → Type 0
  DropsOwned identity t t' =
      (writes t' ≡ writes t)
      ⊎ ((secret : Secret) × (env.secret_read t
              (secret_key identity identity.status.jwt_secret_name)
            ≡ ok secret)
          × (env.is_controlled_by secret identity ≡ true)
          × (writes t' ≡ dropped secret ∷ writes t))

  delete_secret-DropsOwned :
      (identity : ZitiIdentity) (t : List Call)
      → DropsOwned identity t
          (delete_enrollment_secret env identity identity.status.jwt_secret_name t).1
  unfolding delete_enrollment_secret delete_read
  delete_secret-DropsOwned identity t =
      let name = identity.status.jwt_secret_name in
      let read = env.secret_read t (secret_key identity name) in
      elim (Bool-cases (name == "")) [
        | inl blank ↦ rw blank (inl refl)
        | inr named ↦ elim (Result-cases read) [
          | inr (x, e) ↦ rw (named, e) (inl refl)
          | inl (secret, e) ↦ elim (Bool-cases (not (env.is_controlled_by secret identity))) [
            | inl foreign ↦ rw (named, e, delete_read, foreign) (inl refl)
            | inr owned ↦
                rw (named, e, delete_read, owned) (inr (secret, refl, ground (owned, arith), refl))
          ]
        ]
      ]

  DropsOwned-before :
      (identity : ZitiIdentity) (t s u : List Call)
      → writes u ≡ writes s
      → DropsOwned identity t s
      → DropsOwned identity t u
  DropsOwned-before identity t s u e (inl same) = inl (e ∙ same)
  DropsOwned-before identity t s u e (inr (secret, read, owned, dropped_it)) =
      inr (secret, read, owned, e ∙ dropped_it)

  delete_secret-updates :
      (identity : ZitiIdentity) (name : String) (t : List Call)
      → resource_updates (delete_enrollment_secret env identity name t).1 ≡ resource_updates t
  unfolding delete_enrollment_secret delete_read
  delete_secret-updates identity name t = ground arith

  -- The secret of the status: there is none, or it is not the identity's, or the API answered that it is
  -- not there, or deleted it.
  abbrev pub SecretGone : ZitiIdentity → List Call → Type 0
  SecretGone identity t =
      let name = identity.status.jwt_secret_name in
      let key = secret_key identity name in
      ((name == "") ≡ true)
      ⊎ ((x : Err) × (env.secret_read t key ≡ err x) × (is_not_found x ≡ true))
      ⊎ ((secret : Secret) × (env.secret_read t key ≡ ok secret)
          × ((env.is_controlled_by secret identity ≡ false)
              ⊎ (env.secret_deleted (get_secret key ∷ t) secret ≡ none)
              ⊎ ((x : Err) × (env.secret_deleted (get_secret key ∷ t) secret ≡ some x)
                  × (is_not_found x ≡ true))))

  delete_secret-SecretGone :
      (identity : ZitiIdentity) (t : List Call)
      → (delete_enrollment_secret env identity identity.status.jwt_secret_name t).0 ≡ none
      → SecretGone identity t
  unfolding delete_enrollment_secret delete_read ignore_not_found
  delete_secret-SecretGone identity t h =
      let name = identity.status.jwt_secret_name in
      let key = secret_key identity name in
      elim (Bool-cases (name == "")) [
        | inl blank ↦ inl blank
        | inr named ↦ elim (Result-cases (env.secret_read t key)) [
          | inr (x, e) ↦ inr (inl (x, e, ground (named, e, h, arith)))
          | inl (secret, e) ↦ elim (Bool-cases (env.is_controlled_by secret identity)) [
            | inr foreign ↦ inr (inr (secret, e, inl foreign))
            | inl owned ↦ elim (Option-cases (env.secret_deleted (get_secret key ∷ t) secret)) [
              | inl gone ↦ inr (inr (secret, e, inr (inl gone)))
              | inr (x, lost) ↦
                  inr
                    (inr (secret, e, inr (inr (x, lost, ground (named, e, owned, lost, h, arith)))))
            ]
          ]
        ]
      ]

  -- What a run that drops the finalizer has behind it.
  abbrev pub Gone : ZitiIdentity → List Call → Type 0
  Gone identity t =
      let cleaned = delete_enrollment_secret env identity identity.status.jwt_secret_name t in
      SecretGone identity t
      × (((identity.status.common.id == "") ≡ true)
          ⊎ (env.identity_deleted cleaned.1 identity.status.common.id ≡ none))

  delete_backend-writes :
      (identity : ZitiIdentity) (t : List Call)
      → writes (delete_backend env identity t).1 ≡ writes t
  unfolding delete_backend or_stop release
  delete_backend-writes identity t = ground arith

  delete_backend-updates :
      (identity : ZitiIdentity) (t : List Call)
      → (resource_updates (delete_backend env identity t).1 ≡ resource_updates t)
        ⊎ (((identity.status.common.id == "") ≡ true)
            ⊎ (env.identity_deleted t identity.status.common.id ≡ none))
  unfolding delete_backend or_stop
  delete_backend-updates identity t =
      let id = identity.status.common.id in
      elim (Bool-cases (id == "")) [
        | inl blank ↦ inr (inl blank)
        | inr known ↦ elim (Option-cases (env.identity_deleted t id)) [
          | inl e ↦ inr (inr e)
          | inr (x, e) ↦ rw (known, e, or_stop) (inl refl)
        ]
      ]

  -- A run for a deleting identity deletes no secret but the one of its status, and that only if the
  -- identity controls it. It drops the finalizer only if the status names no secret, the secret is not
  -- there or not its own, or the API deleted it, and only after the backend has deleted the identity, or
  -- never had one: a failure keeps the finalizer.
  pub reconcile_delete-Gone :
      (identity : ZitiIdentity) (t : List Call)
      → DropsOwned identity t (reconcile_delete env identity t).1
        × ((resource_updates (reconcile_delete env identity t).1 ≡ resource_updates t)
            ⊎ Gone identity t)
  unfolding reconcile_delete or_stop
  reconcile_delete-Gone identity t =
      let cleaned = delete_enrollment_secret env identity identity.status.jwt_secret_name t in
      let drops = delete_secret-DropsOwned identity t in
      let same = delete_secret-updates identity identity.status.jwt_secret_name t in
      elim (Bool-cases (not (contains identity.meta.finalizers finalizer))) [
        | inl e ↦ rw e (inl refl, inl refl)
        | inr n ↦ elim (Option-cases cleaned.0) [
          | inr (x, e) ↦ rw (n, e, or_stop) (drops, inl same)
          | inl e ↦
              rw (n, e, or_stop)
                (
                  DropsOwned-before identity t cleaned.1 (delete_backend env identity cleaned.1).1
                      (delete_backend-writes identity cleaned.1) drops,
                  elim (delete_backend-updates identity cleaned.1) [
                    | inl kept ↦ inl (kept ∙ same)
                    | inr gone ↦ inr (delete_secret-SecretGone identity t e, gone)
                  ],
                )
        ]
      ]
