-- ===== src/Controller/AccessPolicy/Run.antt =====
-- Reconcile of zitiaccesspolicy_controller.go, with the calls that it makes. Every function takes the
-- policy as it has it in memory. An event recorder is configured; log lines are left out.
pub mod Resolution
pub mod Guarded
use Prim.Native.Nat.{◌%◌, ◌^◌}
use miniziti_operator.Prelude.{
  ℕ, ◌+◌, String, Bool, true, false, not, ◌||◌, ◌&&◌, Option, none, some, List, [], ◌∷◌, map, ◌==◌,
  eqb, ltb, if◌then◌else◌,
}
use miniziti_operator.Strings.{contains}
use miniziti_operator.Errors.{
  Err, Result, ok, err, text, panicked, waiting_for_backend_ids, ignore_not_found,
}
use miniziti_operator.Calls.{Calling, pure, perform, then_do, handle, attempt}
use miniziti_operator.Openziti.{Identity, AccessPolicy}
use miniziti_operator.Openziti.Policy.{
  ResolvedSelector, DesiredPolicy, snoc, from_resource, to_access_policy,
}
use miniziti_operator.Rolesync.Ownership.{ResourceKey}
use miniziti_operator.Api.{
  SelectorSpec, ZitiAccessPolicy, ZitiAccessPolicyStatus, ZitiIdentity, ZitiService,
}
use miniziti_operator.Api.Conditions.{
  ApiMeta, Condition, CommonStatus, set_status_condition, has_matching_failure_status,
}
use miniziti_operator.Controller.AccessPolicy.Selectors.{
  Tally, no_matches, tally_items, tally_backend, identity_item, service_item, backend_item,
  validate_access_policy_spec,
}
use miniziti_operator.Controller.Helpers.{
  Done, done, failed, requeued, retried, ensure_finalizer, remove_finalizer, ready_status,
  failed_status,
}
use miniziti_operator.Controller.AccessPolicy.Effects.{
  Call, get_cached, update_resource, update_status, list_identities, list_services,
  list_backend_identities, find_policy, create_policy, update_policy, delete_policy, emit_normal,
  emit_warning, Env, Exec, finalizer, with_finalizers, with_common, SelectorResolution, resolved,
}

module _ (env : Env) where
  -- markReady
  pub mark_ready : ZitiAccessPolicy → Exec (Option Err)
  mark_ready policy t =
      let ready = with_common policy (
        ready_status env.api_meta (env.now t) policy.meta.generation policy.status.common
          "ZitiAccessPolicy reconciled successfully") in
      perform (update_status ready) (λ s. env.status_updated s ready) t

  pub failed_policy : ℕ → ZitiAccessPolicy → String → String → ZitiAccessPolicy
  failed_policy now policy reason message =
      with_common policy
        (failed_status env.api_meta now policy.meta.generation policy.status.common reason message)

  -- markFailed
  pub mark_failed : ZitiAccessPolicy → Err → String → Bool → Exec Done
  mark_failed policy e reason retryable t =
      let message = env.error_message e in
      let marked = failed_policy (env.now t) policy reason message in
      if has_matching_failure_status env.api_meta policy.status.common policy.meta.generation reason
        message
      then (retried retryable e, t)
      else if env.semantic_equal policy.status marked.status
      then (retried retryable e, t)
      else elim (env.status_updated t marked) [
        | some x ↦ (failed x, update_status marked ∷ t)
        | none ↦ (retried retryable e, emit_warning reason message ∷ update_status marked ∷ t)
      ]

  -- resolveBackendIdentitySelector
  pub resolve_backend_identity_selector : SelectorSpec → Tally → Exec (Result Tally)
  resolve_backend_identity_selector selector tally t =
      if not env.identity_service
      then (err (text "identity backend service is not configured"), t)
      else attempt (perform list_backend_identities env.backend_identities) err
          (λ identities. pure (ok (tally_backend selector tally (map backend_item identities)))) t

  -- The identities of resolveSelectors: those of the backend if no resource matches.
  pub resolve_identities : SelectorSpec → List ZitiIdentity → Exec (Result Tally)
  resolve_identities selector identities =
      let tally = tally_items selector no_matches (map identity_item identities) in
      if eqb tally.count 0 && eqb tally.pending 0
      then resolve_backend_identity_selector selector tally
      else pure (ok tally)

  -- resolveSelectors
  pub resolve_selectors : ZitiAccessPolicy → Exec (Result SelectorResolution)
  resolve_selectors policy =
      attempt
        (perform (list_identities policy.meta.namespace)
          (λ t. env.identities t policy.meta.namespace))
        err
        λ identities.
          attempt
            (perform (list_services policy.meta.namespace)
              (λ t. env.services t policy.meta.namespace))
            err
            λ services.
              attempt (resolve_identities policy.spec.identity_selector identities) err λ identity.
                pure (
                  ok (record {
                    identity = identity;
                    service =
                        tally_items policy.spec.service_selector no_matches
                          (map service_item services);
                  }))

  abbrev pub push : AccessPolicy → Bool → Exec (Result (Option AccessPolicy))
  push policy exists =
      if exists
      then perform (update_policy policy) (λ t. env.policy_updated t policy)
      else perform (create_policy policy) (λ t. env.policy_created t policy)

  pub push_found : DesiredPolicy → Option AccessPolicy → Exec (Result (Option AccessPolicy))
  push_found desired none = push (to_access_policy "" desired) false
  push_found desired (some existing) = push (to_access_policy existing.id desired) true

  -- reconcilePolicy
  pub reconcile_policy : ZitiAccessPolicy → DesiredPolicy → Exec (Result (Option AccessPolicy))
  reconcile_policy resource desired =
      if not (resource.status.common.id == "")
      then push (to_access_policy resource.status.common.id desired) true
      else attempt (perform (find_policy desired.name) (λ t. env.policy_by_name t desired.name)) err
          (push_found desired)

  -- The end of reconcileDelete, once the backend has no policy left.
  pub release : ZitiAccessPolicy → Exec Done
  release policy t =
      let released = with_finalizers policy (remove_finalizer policy.meta.finalizers finalizer).0 in
      elim (env.resource_updated t released) [
        | some e ↦ (failed e, update_resource released ∷ t)
        | none ↦ (
          done,
          emit_normal "PolicyDeleted" "ZitiAccessPolicy backend state removed"
              ∷ update_resource released
              ∷ t,
        )
      ]

  -- reconcileDelete
  pub reconcile_delete : ZitiAccessPolicy → Exec Done
  reconcile_delete policy t =
      if not (contains policy.meta.finalizers finalizer)
      then (done, t)
      else if policy.status.common.id == ""
      then release policy t
      else elim (env.policy_deleted t policy.status.common.id) [
        | some e ↦ (failed e, delete_policy policy.status.common.id ∷ t)
        | none ↦ release policy (delete_policy policy.status.common.id ∷ t)
      ]

  -- The end of Reconcile, with the backend's policy.
  pub report_ready : ZitiAccessPolicy → AccessPolicy → Exec Done
  report_ready policy backend =
      then_do (mark_ready (with_common policy (record (policy.status.common) { id = backend.id })))
        λ error t. elim error [
          | some e ↦ (failed e, t)
          | none ↦
              (done, emit_normal "PolicyReconciled" "ZitiAccessPolicy reconciled successfully" ∷ t)
        ]

  -- backendPolicy.ID, which ends the run in a panic where the policy is nil.
  pub report_found : ZitiAccessPolicy → Option AccessPolicy → Exec Done
  report_found policy none = pure (failed panicked)
  report_found policy (some backend) = report_ready policy backend

  -- int32(count), as its bit pattern.
  abbrev int32 : ℕ → ℕ
  int32 n = n % 2 ^ 32

  -- The end of Reconcile, for a complete resolution.
  pub push_resolved : ZitiAccessPolicy → SelectorResolution → Exec Done
  push_resolved policy resolution t =
      let pushed =
        reconcile_policy policy
          (from_resource policy
            (resolved policy.spec.identity_selector.match_role_attributes resolution.identity)
            (resolved policy.spec.service_selector.match_role_attributes resolution.service))
          t in
      elim pushed.0 [
        | err e ↦ mark_failed policy e "PolicySyncFailed" true pushed.1
        | ok backend ↦ report_found policy backend pushed.1
      ]

  -- Reconcile from the resolution on.
  pub reconcile_resolved : ZitiAccessPolicy → SelectorResolution → Exec Done
  reconcile_resolved policy resolution =
      let identity = resolution.identity in
      let service = resolution.service in
      let counted : ZitiAccessPolicy = record policy {
        status = record (policy.status) {
          resolved_identity_count = int32 identity.count;
          resolved_service_count = int32 service.count;
        };
      } in
      if ltb 0 identity.pending || ltb 0 service.pending
      then mark_failed counted (waiting_for_backend_ids identity.pending service.pending)
          "SelectorResolutionPending" true
      else if eqb identity.count 0
      then mark_failed counted (text "identity selector matched zero identities")
          "SelectorResolutionFailed" false
      else if eqb service.count 0
      then mark_failed counted (text "service selector matched zero services")
          "SelectorResolutionFailed" false
      else push_resolved counted resolution

  pub reconcile_valid : ZitiAccessPolicy → Exec Done
  reconcile_valid policy t =
      let found = resolve_selectors policy t in
      elim found.0 [
        | err e ↦ mark_failed policy e "SelectorResolutionFailed" true found.1
        | ok resolution ↦ reconcile_resolved policy resolution found.1
      ]

  -- The part of Reconcile for a policy that is not deleting.
  pub reconcile_live : ZitiAccessPolicy → Exec Done
  reconcile_live policy t =
      let ensured = ensure_finalizer policy.meta.finalizers finalizer in
      let kept = with_finalizers policy ensured.0 in
      if ensured.1
      then (elim (env.resource_updated t kept) [
        | some e ↦ (failed e, update_resource kept ∷ t)
        | none ↦ (requeued, update_resource kept ∷ t)
      ])
      else elim (validate_access_policy_spec policy) [
        | some e ↦ mark_failed policy e "SelectorValidationFailed" false t
        | none ↦ reconcile_valid policy t
      ]

  pub reconcile_found : Option ℕ → ZitiAccessPolicy → Exec Done
  reconcile_found none policy = reconcile_live policy
  reconcile_found (some _) policy = reconcile_delete policy

  -- Reconcile
  unfoldable pub reconcile : ResourceKey → Exec Done
  reconcile key =
      attempt (perform (get_cached key) (λ t. env.cached t key))
        (λ e. record { requeue = false; error = ignore_not_found e })
        (λ policy. reconcile_found policy.meta.deletion_timestamp policy)
