-- ===== src/Controller/RoleSync/Status.antt =====
-- zitientrarolesync_status.go and the Reconcile of zitientrarolesync_controller.go: how the result
-- of a run becomes the status, the events and the next run. An event recorder is configured.
pub mod Persisted
pub mod Reported
pub mod Scheduled
use Prim.Native.String.{◌++◌}
use miniziti_operator.Prelude.{
  ℕ, zero, suc, String, Bool, true, false, not, ◌&&◌, ◌||◌, Option, none, some, List, [], ◌∷◌, ◌==◌,
  ltb, eqb, if◌then◌else◌,
}
use miniziti_operator.Errors.{
  Err, Result, ok, err, text, GraphError, TokenError, as_graph, as_token, is_transient,
  is_directory_content_error, ignore_not_found,
}
use miniziti_operator.Rolesync.Ownership.{ResourceKey}
use miniziti_operator.Rolesync.Plan.{PlanResult, UnmatchedMember}
use miniziti_operator.Rolesync.Retirement.{Completion}
use miniziti_operator.Api.{ZitiEntraRoleSync, ZitiEntraRoleSyncStatus, EntraUnmatchedMember}
use miniziti_operator.Api.Conditions.{
  ApiMeta, Condition, CommonStatus, set_status_condition, has_matching_failure_status,
}
use miniziti_operator.Controller.RoleSync.Effects.{
  Duration, nonneg, Call, get_cached, update_status, emit_warning, Env, Exec, pure, perform,
  then_do, attempt,
}
use miniziti_operator.Controller.RoleSync.Reads.{validate_role_sync_spec, read_role_sync}
use miniziti_operator.Controller.RoleSync.Run.{SyncRunResult, run_sync}
use miniziti_operator.Controller.RoleSync.Retry.{Requeue, after, retry_with, retry_result}

-- strings.Join(values, ", ")
unfoldable pub join : List String → String
join [] = ""
join (v ∷ []) = v
join (v ∷ w ∷ values) = let rest = join (w ∷ values) in v ++ (", " ++ rest)

conflict_message : Option Completion → String
unfolding join
conflict_message none = "Another role sync owns a managed attribute"
conflict_message (some completion) =
    "Attributes owned by another role sync: " ++ join completion.conflict_values

reason_message : SyncRunResult → String
unfolding conflict_message
reason_message result =
    if result.reason == "Synced"
    then "Entra role attributes are synchronized"
    else if result.reason == "CleanupPending"
    then "Retired attributes remain on skipped identities"
    else if result.reason == "WouldRemoveAll"
    then "Refusing to remove every managed attribute from eligible identities"
    else if result.reason == "Conflict"
    then conflict_message result.completion
    else result.reason

pub unmatched_status : UnmatchedMember → EntraUnmatchedMember
unmatched_status member = record {
  id = member.id;
  display_name = member.display_name;
  external_id = member.external_id;
  reason = member.reason;
}

-- The loop over the unmatched members, which leaves at `room` entries.
pub capped : ℕ → List UnmatchedMember → List EntraUnmatchedMember
unfolding unmatched_status
capped zero members = []
capped (suc room) [] = []
capped (suc room) (member ∷ members) = unmatched_status member ∷ capped room members

-- updateRoleSyncCounters
pub update_role_sync_counters :
    ZitiEntraRoleSyncStatus → PlanResult → Completion → ZitiEntraRoleSyncStatus
unfolding capped
update_role_sync_counters status plan completion = record status {
  matched_identities = plan.matched_identities;
  identities_updated = completion.identities_updated;
  members_without_identity = plan.members_without_identity;
  unmatched_members = capped 50 plan.unmatched_members;
}

-- setRoleSyncConditions, at the time `now`.
pub set_role_sync_conditions :
    ApiMeta → ℕ → CommonStatus → ℕ → String → String → Bool → CommonStatus
unfolding set_status_condition
set_role_sync_conditions m now status generation reason message ready =
    let condition : String → String → String → Condition = λ type value why. record {
      type = type;
      status = value;
      reason = why;
      message = message;
      observed_generation = generation;
      last_transition_time = now;
    } in
    set_status_condition m
      (set_status_condition m
        (set_status_condition m status
          (condition "Ready" (if ready then "True" else "False") reason))
        (condition "Reconciling" "False" (if ready then "Reconciled" else reason)))
      (condition "Degraded" (if ready then "False" else "True")
        (if ready then "AsExpected" else reason))

unfoldable pub is_ready : Option Completion → Bool
is_ready none = false
is_ready (some completion) = completion.ready

pub with_completion : ℕ → Option Completion → ZitiEntraRoleSyncStatus → ZitiEntraRoleSyncStatus
with_completion now none status = status
with_completion now (some completion) status = record status {
  managed_attributes = completion.managed_attributes;
  last_sync_time = if completion.advance_last_sync_time then some now else status.last_sync_time;
}

pub with_counters :
    Bool → Option PlanResult → Option Completion → ZitiEntraRoleSyncStatus → ZitiEntraRoleSyncStatus
unfolding update_role_sync_counters
with_counters true (some plan) (some completion) status =
    update_role_sync_counters status plan completion
with_counters _ _ _ status = status

module _ (env : Env) where
  pub role_sync_message : SyncRunResult → Option Err → String
  unfolding reason_message
  role_sync_message result none = reason_message result
  role_sync_message result (some e) = env.error_message e

  -- The status that persistSyncResult makes of the current one.
  unfoldable pub next_status :
      ℕ → ZitiEntraRoleSync → SyncRunResult → ZitiEntraRoleSyncStatus → ZitiEntraRoleSyncStatus
  unfolding role_sync_message is_ready with_completion with_counters set_role_sync_conditions
  next_status now resource result status =
      let ready = is_ready result.completion in
      let message = role_sync_message result result.error in
      let cleared : ZitiEntraRoleSyncStatus = record status {
        common = record (status.common) {
          id = "";
          observed_generation = resource.meta.generation;
          last_error = if ready then "" else message;
        };
      } in
      let counted =
        with_counters result.write_phase_started result.plan result.completion
          (with_completion now result.completion cleared) in
      record counted {
        common =
            set_role_sync_conditions env.api_meta now counted.common resource.meta.generation
              result.reason message ready;
      }

  -- The failure is in the status already.
  pub is_repeated : ZitiEntraRoleSync → SyncRunResult → ZitiEntraRoleSync → Bool
  unfolding is_ready role_sync_message has_matching_failure_status
  is_repeated resource result current =
      not (is_ready result.completion)
      && has_matching_failure_status env.api_meta current.status.common resource.meta.generation
          result.reason (role_sync_message result result.error)

  -- The end of persistSyncResult: the caller's copy, and the event.
  pub announce :
      ZitiEntraRoleSync
      → SyncRunResult
      → Bool
      → ZitiEntraRoleSyncStatus
      → String
      → Exec (Option Err × ZitiEntraRoleSync)
  unfolding is_ready role_sync_message
  announce resource result repeated status version t =
      let kept : ZitiEntraRoleSync = record resource {
        meta = record (resource.meta) { resource_version = version };
        status = status;
      } in
      if not (is_ready result.completion) && not repeated
      then ((none, kept), emit_warning result.reason (role_sync_message result result.error) ∷ t)
      else ((none, kept), t)

  pub persist_in :
      ZitiEntraRoleSync → SyncRunResult → ZitiEntraRoleSync → Exec (Option Err × ZitiEntraRoleSync)
  unfolding next_status is_repeated announce
  persist_in resource result current t =
      let status = next_status (env.now t) resource result current.status in
      let updated : ZitiEntraRoleSync = record current { status = status } in
      let repeated = is_repeated resource result current in
      if env.semantic_equal current.status status
      then announce resource result repeated status current.meta.resource_version t
      else attempt (perform (update_status updated) (λ s. env.status_updated s updated))
          (λ e. (some e, resource)) (announce resource result repeated status) t

  -- persistSyncResult, with the resource as it leaves it.
  unfoldable pub persist_sync_result :
      ZitiEntraRoleSync → SyncRunResult → Exec (Option Err × ZitiEntraRoleSync)
  unfolding read_role_sync
  persist_sync_result resource result =
      attempt (read_role_sync env resource) (λ e. (some e, resource)) (persist_in resource result)

  pub reported : Duration → SyncRunResult → Option Err → Requeue × Option Err
  unfolding retry_result
  reported interval result (some e) = retry_with e
  reported interval result none =
      retry_result interval result.reason result.error result.retry_after

  -- The part of Reconcile for a resource that is there.
  pub reconcile_found : ZitiEntraRoleSync → Exec (Requeue × Option Err)
  unfolding reported run_sync persist_sync_result validate_role_sync_spec
  reconcile_found resource = then_do (run_sync env resource) λ ran.
      then_do (persist_sync_result ran.1 ran.0)
        λ persisted. pure (reported (validate_role_sync_spec env resource).0 ran.0 persisted.0)

  -- The rest of Reconcile, by the deletion timestamp.
  pub reconcile_unless_deleting : Option ℕ → ZitiEntraRoleSync → Exec (Requeue × Option Err)
  unfolding reconcile_found
  reconcile_unless_deleting (some _) resource = pure (record { requeue_after = none }, none)
  reconcile_unless_deleting none resource = reconcile_found resource

  -- Reconcile
  unfoldable pub reconcile : ResourceKey → Exec (Requeue × Option Err)
  unfolding reconcile_unless_deleting ignore_not_found
  reconcile key =
      attempt (perform (get_cached key) (λ t. env.cached t key))
        (λ e. (record { requeue_after = none }, ignore_not_found e))
        (λ resource. reconcile_unless_deleting resource.meta.deletion_timestamp resource)
