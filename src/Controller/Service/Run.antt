-- ===== src/Controller/Service/Run.antt =====
-- Reconcile of zitiservice_controller.go, with the calls that it makes. Every function takes the service
-- as it has it in memory. An event recorder is configured; log lines are left out.
pub mod Writes
pub mod Quiet
pub mod Routed
pub mod Released
use miniziti_operator.Prelude.{
  ℕ, String, Bool, true, false, not, Option, none, some, List, [], ◌∷◌, ◌==◌, if◌then◌else◌,
}
use miniziti_operator.Strings.{contains, slices_equal}
use miniziti_operator.Errors.{Err, Result, ok, err, panicked, ignore_not_found}
use miniziti_operator.Calls.{pure, perform, then_do, attempt}
use miniziti_operator.Openziti.{Service, ServiceConfig, AccessPolicy, ServiceEdgeRouterPolicy}
use miniziti_operator.Openziti.ServiceModel.{DesiredService, desired_service, RouterPolicySet}
use miniziti_operator.Rolesync.Ownership.{ResourceKey}
use miniziti_operator.Api.{ServiceRouterSpec, ZitiService}
use miniziti_operator.Api.Conditions.{has_matching_failure_status}
use miniziti_operator.Controller.Helpers.{
  Done, done, failed, requeued, retried, ensure_finalizer, remove_finalizer, ready_status,
  failed_status,
}
use miniziti_operator.Controller.Service.Effects.{
  Call, get_cached, update_resource, update_status, delete_service, delete_config, delete_policy,
  delete_router_policy, emit_normal, emit_warning, Env, Exec, finalizer, with_finalizers,
  with_common, validate_service_spec, deref,
}
use miniziti_operator.Controller.Service.Routers.{desired_router_policies}
use miniziti_operator.Controller.Service.Backend.{
  reconcile_service, update_configs, reconcile_config, reconcile_access_policy,
  reconcile_service_edge_router_policy, delete_known,
}

-- The ids of the objects that the backend has for the service.
abbrev pub with_backend : ZitiService → Service → ServiceConfig → ServiceConfig → ZitiService
with_backend service backend intercept host = record service {
  status = record (service.status) {
    common = record (service.status.common) { id = backend.id };
    config_ids = record { intercept = intercept.id; host = host.id };
  };
}

abbrev pub with_bind_policy_id : ZitiService → String → ZitiService
with_bind_policy_id service id = record service {
  status = record (service.status) { bind_policy_id = id };
}

abbrev pub with_router_policy_id : ZitiService → String → ZitiService
with_router_policy_id service id = record service {
  status = record (service.status) { service_edge_router_policy_id = id };
}

module _ (env : Env) where
  -- markReady
  pub mark_ready : ZitiService → Exec (Option Err)
  mark_ready service t =
      let ready = with_common service (
        ready_status env.api_meta (env.now t) service.meta.generation service.status.common
          "ZitiService reconciled successfully") in
      perform (update_status ready) (λ s. env.status_updated s ready) t

  pub failed_service : ℕ → ZitiService → String → String → ZitiService
  failed_service now service reason message =
      with_common service (
        failed_status env.api_meta now service.meta.generation service.status.common reason message)

  -- markFailed
  pub mark_failed : ZitiService → Err → String → Bool → Exec Done
  mark_failed service e reason retryable t =
      let message = env.error_message e in
      let marked = failed_service (env.now t) service reason message in
      if has_matching_failure_status env.api_meta service.status.common service.meta.generation
        reason message
      then (retried retryable e, t)
      else if env.semantic_equal service.status marked.status
      then (retried retryable e, t)
      else elim (env.status_updated t marked) [
        | some x ↦ (failed x, update_status marked ∷ t)
        | none ↦ (retried retryable e, emit_warning reason message ∷ update_status marked ∷ t)
      ]

  -- `if err != nil { return r.markFailed(ctx, &service, err, reason, true) }`
  pub or_fail : {A : Type 0} → ZitiService → String → Result A → (A → Exec Done) → Exec Done
  or_fail service reason (err e) next = mark_failed service e reason true
  or_fail service reason (ok a) next = next a

  pub stage : {A : Type 0} → ZitiService → String → Exec (Result A) → (A → Exec Done) → Exec Done
  stage service reason m next t = or_fail service reason (m t).0 next (m t).1

  -- A dereference, which ends the run where the pointer is nil.
  pub pointer : {A : Type 0} → Option A → (A → Exec Done) → Exec Done
  pointer none next = pure (failed panicked)
  pointer (some a) next = next a

  -- The end of Reconcile.
  pub report_ready : ZitiService → Exec Done
  report_ready service = then_do (mark_ready service) λ error t. elim error [
    | some e ↦ (failed e, t)
    | none ↦ (done, emit_normal "ServiceReconciled" "ZitiService reconciled successfully" ∷ t)
  ]

  -- The end of deleteRouterPolicies, after the deletion of the service edge router policy.
  pub delete_bind_policy : ZitiService → Option Err → Exec (ZitiService × Option Err)
  delete_bind_policy service (some e) t = ((service, some e), t)
  delete_bind_policy service none t =
      let routed = with_router_policy_id service "" in
      let bind =
        delete_known env delete_policy env.policy_deleted service.status.bind_policy_id t in
      elim bind.0 [
        | some e ↦ ((routed, some e), bind.1)
        | none ↦ ((with_bind_policy_id routed "", none), bind.1)
      ]

  -- deleteRouterPolicies: the service, which loses the id of a policy that is deleted, and the error.
  pub delete_router_policies : ZitiService → Exec (ZitiService × Option Err)
  delete_router_policies service =
      then_do
        (delete_known env delete_router_policy env.router_policy_deleted
          service.status.service_edge_router_policy_id)
        (delete_bind_policy service)

  -- Reconcile for a service without a router.
  pub finish_unrouted : ZitiService × Option Err → Exec Done
  finish_unrouted (service, some e) = mark_failed service e "RouterPolicyCleanupFailed" true
  finish_unrouted (service, none) = report_ready service

  pub reconcile_unrouted : ZitiService → Exec Done
  reconcile_unrouted service = then_do (delete_router_policies service) finish_unrouted

  -- Reconcile with the two policies of the router.
  pub reconcile_policies : ZitiService → RouterPolicySet → Exec Done
  reconcile_policies service policies =
      stage service "BindPolicyFailed"
        (reconcile_access_policy env service.status.bind_policy_id policies.bind_policy)
        λ bind.
          stage service "ServiceEdgeRouterPolicyFailed"
            (reconcile_service_edge_router_policy env service.status.service_edge_router_policy_id
              policies.service_edge_router_policy)
            λ route. pointer bind λ bind_policy. pointer route λ route_policy.
              report_ready
                (with_router_policy_id (with_bind_policy_id service bind_policy.id) route_policy.id)

  -- Reconcile from the policies of the router on, for a service that has the ids of the backend.
  pub reconcile_router : Option ServiceRouterSpec → ZitiService → String → Exec Done
  reconcile_router none service service_id = reconcile_unrouted service
  reconcile_router (some _) service service_id =
      stage service "RouterResolutionFailed" (desired_router_policies env service service_id)
        (reconcile_policies service)

  -- Reconcile once the service in the backend refers to its configs.
  pub reconcile_backed : ZitiService → ServiceConfig → ServiceConfig → Option Service → Exec Done
  reconcile_backed service intercept host backend = pointer backend λ known.
      reconcile_router service.spec.router (with_backend service known intercept host) known.id

  -- Reconcile with both configs.
  pub reconcile_configured :
      ZitiService
      → DesiredService
      → Option Service
      → Option ServiceConfig
      → Option ServiceConfig
      → Exec Done
  reconcile_configured service desired backend intercept host =
      pointer intercept λ intercept_config. pointer host λ host_config.
        let referring : DesiredService = record desired {
          config_ids = intercept_config.id ∷ host_config.id ∷ [];
        } in
        pointer backend λ known.
          if not (slices_equal known.config_ids referring.config_ids)
          then stage service "ServiceSyncFailed" (update_configs env known referring)
              (reconcile_backed service intercept_config host_config)
          else reconcile_backed service intercept_config host_config (some known)

  -- Reconcile for a valid specification.
  pub reconcile_valid : ZitiService → Exec Done
  reconcile_valid service =
      let desired = desired_service service in
      stage service "ServiceSyncFailed" (reconcile_service env service desired) λ backend.
        stage service "InterceptConfigFailed"
          (reconcile_config env service.status.config_ids.intercept desired.intercept)
          λ intercept.
            stage service "HostConfigFailed"
              (reconcile_config env service.status.config_ids.host desired.host)
              λ host. reconcile_configured service desired backend intercept host

  -- The part of Reconcile for a service that is not deleting.
  pub reconcile_live : ZitiService → Exec Done
  reconcile_live service t =
      let ensured = ensure_finalizer service.meta.finalizers finalizer in
      let kept = with_finalizers service ensured.0 in
      if ensured.1
      then (elim (env.resource_updated t kept) [
        | some e ↦ (failed e, update_resource kept ∷ t)
        | none ↦ (requeued, update_resource kept ∷ t)
      ])
      else elim (validate_service_spec service) [
        | some e ↦ mark_failed service e "SpecValidationFailed" false t
        | none ↦ reconcile_valid service t
      ]

  -- The end of reconcileDelete, once the backend has nothing left.
  pub release : ZitiService → Exec Done
  release service t =
      let released =
        with_finalizers service (remove_finalizer service.meta.finalizers finalizer).0 in
      elim (env.resource_updated t released) [
        | some e ↦ (failed e, update_resource released ∷ t)
        | none ↦ (
          done,
          emit_normal "ServiceDeleted" "ZitiService backend state removed"
              ∷ update_resource released
              ∷ t,
        )
      ]

  -- `if err != nil { return ctrl.Result{}, err }` after a deletion
  pub or_stop : Option Err → Exec Done → Exec Done
  or_stop (some e) next = pure (failed e)
  or_stop none next = next

  abbrev pub then_delete : Exec (Option Err) → Exec Done → Exec Done
  then_delete m next t = or_stop (m t).0 next (m t).1

  -- The deletions of reconcileDelete that follow those of the router policies.
  pub delete_backend : ZitiService → Exec Done
  delete_backend service =
      let ids = service.status.config_ids in
      then_delete (delete_known env delete_config env.config_deleted ids.intercept) (
        then_delete (delete_known env delete_config env.config_deleted ids.host) (
          then_delete (delete_known env delete_service env.service_deleted service.status.common.id)
            (release service)))

  -- reconcileDelete
  pub reconcile_delete : ZitiService → Exec Done
  reconcile_delete service t =
      let cleaned = delete_router_policies service t in
      if not (contains service.meta.finalizers finalizer)
      then (done, t)
      else or_stop cleaned.0.1 (delete_backend cleaned.0.0) cleaned.1

  pub reconcile_found : Option ℕ → ZitiService → Exec Done
  reconcile_found none service = reconcile_live service
  reconcile_found (some _) service = reconcile_delete service

  -- Reconcile
  unfoldable pub reconcile : ResourceKey → Exec Done
  reconcile key =
      attempt (perform (get_cached key) (λ t. env.cached t key))
        (λ e. record { requeue = false; error = ignore_not_found e })
        (λ service. reconcile_found service.meta.deletion_timestamp service)
