-- ===== src/Controller/Identity/Run.antt =====
-- Reconcile of zitiidentity_controller.go, with the calls that it makes. Every function takes the identity
-- as it has it in memory. An event recorder is configured; log lines are left out.
pub mod Guarded
pub mod Released
use miniziti_operator.Prelude.{
  ℕ, String, Bool, true, false, not, Option, none, some, List, [], ◌∷◌, ◌==◌, if◌then◌else◌,
}
use miniziti_operator.Strings.{contains}
use miniziti_operator.Errors.{Err, Result, ok, err, ignore_not_found}
use miniziti_operator.Calls.{pure, perform, then_do, attempt}
use miniziti_operator.Openziti.{Identity}
use miniziti_operator.Rolesync.Ownership.{ResourceKey}
use miniziti_operator.Api.{ZitiIdentity}
use miniziti_operator.Api.Conditions.{has_matching_failure_status}
use miniziti_operator.Controller.Helpers.{
  Done, done, failed, requeued, retried, ensure_finalizer, remove_finalizer, ready_status,
  failed_status,
}
use miniziti_operator.Controller.Identity.Effects.{
  Call, get_cached, update_resource, update_status, find_identity, create_identity, update_identity,
  delete_identity, get_enrollment_jwt, emit_normal, emit_warning, Env, Exec, finalizer,
  with_finalizers, with_common, DesiredIdentity, desired_identity, to_client_identity,
  validate_identity_spec,
}
use miniziti_operator.Controller.Identity.Secrets.{
  reconcile_enrollment_secret, delete_enrollment_secret,
}

-- What Reconcile notes in the status: the id of the identity in the backend, and the secret's name.
abbrev pub with_backend : ZitiIdentity → Identity → ZitiIdentity
with_backend identity backend = record identity {
  status = record {
    common = record (identity.status.common) { id = backend.id };
    jwt_secret_name = "";
  };
}

abbrev pub with_secret : ZitiIdentity → String → ZitiIdentity
with_secret identity name = record identity {
  status = record (identity.status) { jwt_secret_name = name };
}

module _ (env : Env) where
  -- markReady
  pub mark_ready : ZitiIdentity → Exec (Option Err)
  mark_ready identity t =
      let ready = with_common identity (
        ready_status env.api_meta (env.now t) identity.meta.generation identity.status.common
          "ZitiIdentity reconciled successfully") in
      perform (update_status ready) (λ s. env.status_updated s ready) t

  pub failed_identity : ℕ → ZitiIdentity → String → String → ZitiIdentity
  failed_identity now identity reason message = with_common identity (
      failed_status env.api_meta now identity.meta.generation identity.status.common reason message)

  -- markFailed
  pub mark_failed : ZitiIdentity → Err → String → Bool → Exec Done
  mark_failed identity e reason retryable t =
      let message = env.error_message e in
      let marked = failed_identity (env.now t) identity reason message in
      if has_matching_failure_status env.api_meta identity.status.common identity.meta.generation
        reason message
      then (retried retryable e, t)
      else if env.semantic_equal identity.status marked.status
      then (retried retryable e, t)
      else elim (env.status_updated t marked) [
        | some x ↦ (failed x, update_status marked ∷ t)
        | none ↦ (retried retryable e, emit_warning reason message ∷ update_status marked ∷ t)
      ]

  -- `if err != nil { return r.markFailed(ctx, &identity, err, reason, retryable) }`
  pub or_fail : {A : Type 0} → ZitiIdentity → String → Bool → Result A → (A → Exec Done) → Exec Done
  or_fail identity reason retryable (err e) next = mark_failed identity e reason retryable
  or_fail identity reason retryable (ok a) next = next a

  pub stage :
      {A : Type 0} → ZitiIdentity → String → Bool → Exec (Result A) → (A → Exec Done) → Exec Done
  stage identity reason retryable m next t = or_fail identity reason retryable (m t).0 next (m t).1

  abbrev push : Identity → Bool → Exec (Result Identity)
  push identity exists =
      if exists
      then perform (update_identity identity) (λ t. env.identity_updated t identity)
      else perform (create_identity identity) (λ t. env.identity_created t identity)

  pub push_found : DesiredIdentity → Option Identity → Exec (Result Identity)
  push_found desired none = push (to_client_identity "" desired) false
  push_found desired (some existing) = push (to_client_identity existing.id desired) true

  -- reconcileIdentity
  pub reconcile_identity : ZitiIdentity → DesiredIdentity → Exec (Result Identity)
  reconcile_identity identity desired =
      if not (identity.status.common.id == "")
      then push (to_client_identity identity.status.common.id desired) true
      else attempt (perform (find_identity desired.name) (λ t. env.identity_by_name t desired.name))
          err (push_found desired)

  -- The end of Reconcile.
  pub report_ready : ZitiIdentity → Exec Done
  report_ready identity = then_do (mark_ready identity) λ error t. elim error [
    | some e ↦ (failed e, t)
    | none ↦ (done, emit_normal "IdentityReconciled" "ZitiIdentity reconciled successfully" ∷ t)
  ]

  -- Reconcile with the identity of the backend.
  pub reconcile_enrollment : ZitiIdentity → Bool → String → Exec Done
  reconcile_enrollment identity false id = report_ready identity
  reconcile_enrollment identity true id =
      stage identity "EnrollmentJWTFailed" true
        (perform (get_enrollment_jwt id) (λ t. env.enrollment_jwt t id))
        λ jwt.
          stage identity "EnrollmentSecretFailed" false
            (reconcile_enrollment_secret env identity jwt)
            λ name. report_ready (with_secret identity name)

  -- Reconcile for a valid specification.
  pub reconcile_valid : ZitiIdentity → Exec Done
  reconcile_valid identity =
      let desired = desired_identity identity in
      stage identity "IdentitySyncFailed" true (reconcile_identity identity desired) λ backend.
        reconcile_enrollment (with_backend identity backend) desired.create_jwt_secret backend.id

  -- The part of Reconcile for an identity that is not deleting.
  pub reconcile_live : ZitiIdentity → Exec Done
  reconcile_live identity t =
      let ensured = ensure_finalizer identity.meta.finalizers finalizer in
      let kept = with_finalizers identity ensured.0 in
      if ensured.1
      then (elim (env.resource_updated t kept) [
        | some e ↦ (failed e, update_resource kept ∷ t)
        | none ↦ (requeued, update_resource kept ∷ t)
      ])
      else elim (validate_identity_spec identity) [
        | some e ↦ mark_failed identity e "SpecValidationFailed" false t
        | none ↦ reconcile_valid identity t
      ]

  -- The end of reconcileDelete, once the backend has no identity left.
  pub release : ZitiIdentity → Exec Done
  release identity t =
      let released =
        with_finalizers identity (remove_finalizer identity.meta.finalizers finalizer).0 in
      elim (env.resource_updated t released) [
        | some e ↦ (failed e, update_resource released ∷ t)
        | none ↦ (
          done,
          emit_normal "IdentityDeleted" "ZitiIdentity backend state removed"
              ∷ update_resource released
              ∷ t,
        )
      ]

  -- `if err != nil { return ctrl.Result{}, err }` after a deletion
  pub or_stop : Option Err → Exec Done → Exec Done
  or_stop (some e) next = pure (failed e)
  or_stop none next = next

  pub delete_backend : ZitiIdentity → Exec Done
  delete_backend identity t =
      let id = identity.status.common.id in
      if not (id == "")
      then or_stop (env.identity_deleted t id) (release identity) (delete_identity id ∷ t)
      else release identity t

  -- reconcileDelete
  pub reconcile_delete : ZitiIdentity → Exec Done
  reconcile_delete identity t =
      let cleaned = delete_enrollment_secret env identity identity.status.jwt_secret_name t in
      if not (contains identity.meta.finalizers finalizer)
      then (done, t)
      else or_stop cleaned.0 (delete_backend identity) cleaned.1

  pub reconcile_found : Option ℕ → ZitiIdentity → Exec Done
  reconcile_found none identity = reconcile_live identity
  reconcile_found (some _) identity = reconcile_delete identity

  -- Reconcile
  unfoldable pub reconcile : ResourceKey → Exec Done
  reconcile key =
      attempt (perform (get_cached key) (λ t. env.cached t key))
        (λ e. record { requeue = false; error = ignore_not_found e })
        (λ identity. reconcile_found identity.meta.deletion_timestamp identity)
