-- ===== src/Controller/Identity/Secrets.antt =====
-- internal/credentials/enrollment_secret.go
use Prim.Native.String.{◌++◌}
use miniziti_operator.Prelude.{String, not, Option, none, some, [], ◌∷◌, ◌==◌, if◌then◌else◌}
use miniziti_operator.Errors.{Err, Result, ok, err, text, is_not_found, ignore_not_found}
use miniziti_operator.Calls.{pure, perform, then_do, handle}
use miniziti_operator.Rolesync.Ownership.{ResourceKey}
use miniziti_operator.Api.{ZitiIdentity}
use miniziti_operator.Controller.Identity.Effects.{
  Secret, get_secret, create_secret, delete_secret, Env, Exec,
}

abbrev pub secret_key : ZitiIdentity → String → ResourceKey
secret_key identity name = record { namespace = identity.meta.namespace; name = name }

-- The secret that ReconcileEnrollmentSecret creates, before its owner is set.
abbrev pub new_secret : ZitiIdentity → String → String → Secret
new_secret identity name jwt = record {
  namespace = identity.meta.namespace;
  name = name;
  owner_uids = [];
  jwt = jwt;
}

module _ (env : Env) where
  unfoldable pub add_secret : Secret → Exec (Result String)
  add_secret secret t = elim (env.secret_created t secret) [
    | some e ↦ (err e, create_secret secret ∷ t)
    | none ↦ (ok secret.name, create_secret secret ∷ t)
  ]

  -- ReconcileEnrollmentSecret, with what it read
  unfoldable pub secret_or_create :
      ZitiIdentity → String → String → Result Secret → Exec (Result String)
  unfolding add_secret
  secret_or_create identity name jwt (ok secret) = pure (
      if not (env.is_controlled_by secret identity)
      then err (text ("enrollment secret is not owned by " ++ identity.meta.name))
      else ok secret.name)
  secret_or_create identity name jwt (err e) =
      if not (is_not_found e)
      then pure (err e)
      else handle (env.with_controller identity (new_secret identity name jwt)) err add_secret

  -- ReconcileEnrollmentSecret
  unfoldable pub reconcile_enrollment_secret : ZitiIdentity → String → Exec (Result String)
  unfolding secret_or_create
  reconcile_enrollment_secret identity jwt =
      let name = identity.spec.enrollment.jwt_secret_name in
      let key = secret_key identity name in
      if name == ""
      then pure (err (text "jwt secret name is required when enrollment secret output is enabled"))
      else then_do (perform (get_secret key) (λ t. env.secret_read t key))
          (secret_or_create identity name jwt)

  abbrev or_no_error : Option Err → Option Err
  or_no_error none = none
  or_no_error (some e) = ignore_not_found e

  -- DeleteEnrollmentSecret, with what it read
  unfoldable pub delete_read : ZitiIdentity → Result Secret → Exec (Option Err)
  delete_read identity (err e) = pure (ignore_not_found e)
  delete_read identity (ok secret) =
      if not (env.is_controlled_by secret identity)
      then pure none
      else then_do (perform (delete_secret secret) (λ t. env.secret_deleted t secret))
          (λ e. pure (or_no_error e))

  -- DeleteEnrollmentSecret
  unfoldable pub delete_enrollment_secret : ZitiIdentity → String → Exec (Option Err)
  unfolding delete_read
  delete_enrollment_secret identity name =
      let key = secret_key identity name in
      if name == ""
      then pure none
      else then_do (perform (get_secret key) (λ t. env.secret_read t key)) (delete_read identity)
