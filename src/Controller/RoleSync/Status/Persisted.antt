-- ===== src/Controller/RoleSync/Status/Persisted.antt =====
-- What persistSyncResult writes to the API and reports.
use mathlib.Core.Bool.{true≢false}
use miniziti_operator.Prelude.{
  ℕ, String, ◌≡◌, ◌∙◌, sym, refl, Bool, true, false, Option, none, some, List, [], ◌∷◌, ◌==◌, arith,
  Bool-cases, Option-cases, inl, inr, ◌⊎◌,
}
use miniziti_operator.Errors.{ok, Result-cases}
use miniziti_operator.Rolesync.Plan.{PlanResult}
use miniziti_operator.Rolesync.Retirement.{Completion}
use miniziti_operator.Api.{ZitiEntraRoleSync, ZitiEntraRoleSyncStatus, object_key}
use miniziti_operator.Api.Conditions.{
  ApiMeta, Condition, CommonStatus, set_status_condition, has_matching_failure_status,
}
use miniziti_operator.Api.Conditions.Upsert.{same_text, found_of_three}
use miniziti_operator.Controller.RoleSync.Effects.{
  Call, get_role_sync, update_status, emit_warning, Env,
}
use miniziti_operator.Controller.RoleSync.Reads.{is_replaced, read_role_sync}
use miniziti_operator.Controller.RoleSync.Run.{SyncRunResult}
use miniziti_operator.Controller.RoleSync.Status.{
  set_role_sync_conditions, is_ready, with_completion, with_counters, role_sync_message,
  update_role_sync_counters, next_status, is_repeated, announce, persist_in, persist_sync_result,
}

module _ (m : ApiMeta) (now : ℕ) (status : CommonStatus) (generation : ℕ)
    (reason message : String) where
  -- One of the conditions that are set.
  abbrev condition : String → String → Condition
  condition type value = record {
    type = type;
    status = value;
    reason = reason;
    message = message;
    observed_generation = generation;
    last_transition_time = now;
  }

  -- A failure that is recorded for the generation is found again.
  set_role_sync_conditions-matching :
      status.observed_generation ≡ generation
      → status.last_error ≡ message
      → has_matching_failure_status m
          (set_role_sync_conditions m now status generation reason message false)
          generation
          reason
          message
        ≡ true
  unfolding set_role_sync_conditions has_matching_failure_status set_status_condition
  set_role_sync_conditions-matching g e =
      let (ready, reconciling, degraded) =
        found_of_three m status (condition "Ready" "False") (condition "Reconciling" "False")
          (condition "Degraded" "True") refl refl refl in
      rw (g, e, same_text message, ready, reconciling, degraded) (ground arith)

-- The status updates among the calls, and the warnings, the latest first.
abbrev pub updates : List Call → List ZitiEntraRoleSync
updates [] = []
updates (update_status r ∷ calls) = r ∷ updates calls
updates (_ ∷ calls) = updates calls

abbrev pub warnings : List Call → List (String × String)
warnings [] = []
warnings (emit_warning reason message ∷ calls) = (reason, message) ∷ warnings calls
warnings (_ ∷ calls) = warnings calls

with_counters-common :
    (started : Bool) (plan : Option PlanResult) (completion : Option Completion)
    (status : ZitiEntraRoleSyncStatus)
    → (with_counters started plan completion status).common ≡ status.common
unfolding with_counters update_role_sync_counters
with_counters-common false plan completion status = refl
with_counters-common true none completion status = refl
with_counters-common true (some plan) none status = refl
with_counters-common true (some plan) (some completion) status = refl

with_completion-common :
    (now : ℕ) (completion : Option Completion) (status : ZitiEntraRoleSyncStatus)
    → (with_completion now completion status).common ≡ status.common
unfolding with_completion
with_completion-common now none status = refl
with_completion-common now (some completion) status = refl

module _ (env : Env) (resource : ZitiEntraRoleSync) (result : SyncRunResult) where
  -- A status that holds the failure makes the next report of it a repeated one.
  next_status-is_repeated :
      (now : ℕ) (current : ZitiEntraRoleSync) (status : ZitiEntraRoleSyncStatus)
      → is_ready result.completion ≡ false
      → current.status ≡ next_status env now resource result status
      → is_repeated env resource result current ≡ true
  unfolding next_status is_repeated
  next_status-is_repeated now current status not_ready e =
      rw
        (
          e,
          not_ready,
          with_counters-common result.write_phase_started result.plan result.completion,
          with_completion-common now result.completion,
        )
        (set_role_sync_conditions-matching env.api_meta now
          (record (status.common) {
            id = "";
            observed_generation = resource.meta.generation;
            last_error = role_sync_message env result result.error;
          })
          resource.meta.generation result.reason (role_sync_message env result result.error) refl
          refl)

  announce-calls :
      (repeated : Bool) (status : ZitiEntraRoleSyncStatus) (version : String) (t : List Call)
      → (updates (announce env resource result repeated status version t).1 ≡ updates t)
        × ((warnings (announce env resource result repeated status version t).1 ≡ warnings t)
            ⊎ ((repeated ≡ false) × (is_ready result.completion ≡ false)))
  unfolding announce
  announce-calls repeated status version t = (ground arith, ground arith)

  is_replaced-false :
      (c : ZitiEntraRoleSync)
      → is_replaced c resource ≡ false
      → ((c.meta.uid == resource.meta.uid) ≡ true) × (c.meta.deletion_timestamp ≡ none)
  is_replaced-false c e = elim (Option-cases c.meta.deletion_timestamp) [
    | inl n ↦ (ground (e, arith), n)
    | inr (time, d) ↦ absurd (ground (e, d, arith))
  ]

  read_role_sync-checked :
      (t : List Call) (current : ZitiEntraRoleSync)
      → (read_role_sync env resource t).0 ≡ ok current
      → (env.role_sync t (object_key resource.meta) ≡ ok current)
        × ((current.meta.uid == resource.meta.uid) ≡ true)
        × (current.meta.deletion_timestamp ≡ none)
  unfolding read_role_sync
  read_role_sync-checked t current h =
      elim (Result-cases (env.role_sync t (object_key resource.meta))) [
        | inr (e, lost) ↦ absurd (ground (lost, arith))
        | inl (c, found) ↦ elim (Bool-cases (is_replaced c resource)) [
          | inl e ↦ absurd (ground (found, e, arith))
          | inr e ↦
              let same : c ≡ current = ground (h, found, e, arith) in
              rw (sym same) (found, (is_replaced-false c e).0, (is_replaced-false c e).1)
        ]
      ]

  read_role_sync-calls :
      (t : List Call)
      → (read_role_sync env resource t).1 ≡ get_role_sync (object_key resource.meta) ∷ t
  unfolding read_role_sync
  read_role_sync-calls t = ground arith

  -- The status is written, for the resource as it was read, or it is not.
  persist_in-calls :
      (current : ZitiEntraRoleSync) (t : List Call)
      → let r = persist_in env resource result current t in
        let status = next_status env (env.now t) resource result current.status in
        ((updates r.1 ≡ updates t) ⊎ (updates r.1 ≡ record current { status = status } ∷ updates t))
        × ((warnings r.1 ≡ warnings t)
            ⊎ ((is_repeated env resource result current ≡ false)
                × (is_ready result.completion ≡ false)))
  unfolding persist_in
  persist_in-calls current t =
      let status = next_status env (env.now t) resource result current.status in
      let updated : ZitiEntraRoleSync = record current { status = status } in
      let repeated = is_repeated env resource result current in
      elim (Bool-cases (env.semantic_equal current.status status)) [
        | inl e ↦
            let (same, quiet) = announce-calls repeated status current.meta.resource_version t in
            rw e (inl same, quiet)
        | inr e ↦ elim (Result-cases (env.status_updated t updated)) [
          | inr (x, lost) ↦ rw (e, lost) (inr refl, inl refl)
          | inl (version, known) ↦
              let (same, quiet) =
                announce-calls repeated status version (update_status updated ∷ t) in
              rw (e, known) (inr same, quiet)
        ]
      ]

  -- persistSyncResult updates the status at most once, and only of the resource as the API has it
  -- now: the one of the same name, with the uid of the resource that was synchronized, and not
  -- deleting. The metadata and the specification of the update are those that were read.
  pub persist_sync_result-guarded :
      (t : List Call)
      → (updates (persist_sync_result env resource result t).1 ≡ updates t)
        ⊎ ((current : ZitiEntraRoleSync) × (now : ℕ) × (env.role_sync t (object_key resource.meta)
              ≡ ok current)
            × ((current.meta.uid == resource.meta.uid) ≡ true)
            × (current.meta.deletion_timestamp ≡ none)
            × (updates (persist_sync_result env resource result t).1
                ≡ record current { status = next_status env now resource result current.status }
                  ∷ updates t))
  unfolding persist_sync_result
  persist_sync_result-guarded t =
      let t' = get_role_sync (object_key resource.meta) ∷ t in
      elim (Result-cases (read_role_sync env resource t).0) [
        | inr (e, lost) ↦ inl (rw (lost, read_role_sync-calls t) refl)
        | inl (current, found) ↦
            let (api, uid, alive) = read_role_sync-checked t current found in
            elim (persist_in-calls current t').0 [
              | inl same ↦ inl (rw (found, read_role_sync-calls t) same)
              | inr wrote ↦
                  inr
                    (current, env.now t', api, uid, alive, rw (found, read_role_sync-calls t) wrote)
            ]
      ]

  -- A failure that the status holds already, because it was persisted before, is not announced by
  -- another warning event.
  pub persist_sync_result-quiet :
      (t : List Call) (current : ZitiEntraRoleSync) (now : ℕ) (status : ZitiEntraRoleSyncStatus)
      → is_ready result.completion ≡ false
      → env.role_sync t (object_key resource.meta) ≡ ok current
      → current.status ≡ next_status env now resource result status
      → warnings (persist_sync_result env resource result t).1 ≡ warnings t
  unfolding persist_sync_result
  persist_sync_result-quiet t current now status not_ready api known =
      let t' = get_role_sync (object_key resource.meta) ∷ t in
      elim (Result-cases (read_role_sync env resource t).0) [
        | inr (e, lost) ↦ rw (lost, read_role_sync-calls t) refl
        | inl (c, found) ↦
            let (api', uid, alive) = read_role_sync-checked t c found in
            let same : current ≡ c = ground (api, api', arith) in
            let repeated : is_repeated env resource result c ≡ true =
              rw (sym same) (next_status-is_repeated now current status not_ready known) in
            elim (persist_in-calls c t').1 [
              | inl quiet ↦ rw (found, read_role_sync-calls t) quiet
              | inr (new, n) ↦ absurd (true≢false (sym repeated ∙ new))
            ]
      ]
