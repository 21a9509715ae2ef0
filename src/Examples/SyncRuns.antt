-- ===== src/Examples/SyncRuns.antt =====
-- Runs of the reconciler of role syncs.
use mathlib.Core.List.{map}
use miniziti_operator.Prelude.{
  ℕ, ◌+◌, ◌≤◌, ◌≡◌, ◌⊎◌, refl, true, false, none, some, List, [], ◌∷◌, ◌++◌, ◌==◌, length,
}
use miniziti_operator.Errors.{ok, limited_user_data}
use miniziti_operator.Openziti.{Identity}
use miniziti_operator.Rolesync.Plan.{IdentityPatch, PlanResult, UnmatchedMember}
use miniziti_operator.Rolesync.Retirement.{Completion}
use miniziti_operator.Rolesync.Retirement.Forgetting.{is_patched}
use miniziti_operator.Api.{ZitiEntraRoleSync, ZitiEntraRoleSyncStatus, EntraUnmatchedMember}
use miniziti_operator.Controller.RoleSync.Effects.{get_identity, Env}
use miniziti_operator.Controller.RoleSync.Reads.{Claims, read_ownership}
use miniziti_operator.Controller.RoleSync.Writes.{apply_role_patch, write_role_plan}
use miniziti_operator.Controller.RoleSync.Writes.Guards.{
  writes, next_for, MayWrite, apply_role_patch-guarded,
}
use miniziti_operator.Controller.RoleSync.Writes.Bounded.{Writes, GoesOn, write_role_plan-bounded}
use miniziti_operator.Controller.RoleSync.Run.{SyncRunResult, failed_run, run_sync}
use miniziti_operator.Controller.RoleSync.Run.WriteAhead.{Run, run_sync-Run}
use miniziti_operator.Controller.RoleSync.Status.{
  is_ready, next_status, persist_sync_result, reconcile,
}
use miniziti_operator.Controller.RoleSync.Status.Persisted.{
  updates, warnings, persist_sync_result-guarded, persist_sync_result-quiet,
}
use miniziti_operator.Controller.RoleSync.Status.Reported.{next_status-first_fifty}
use miniziti_operator.Controller.RoleSync.Status.Scheduled.{Scheduled, reconcile-Scheduled}
use miniziti_operator.Examples.{
  caseless, listed, engineer, to_group, ann, laptop, key_of, meta_of, fresh, plan,
}

abbrev sync : ZitiEntraRoleSync
sync = record {
  meta = meta_of "a";
  spec = record {
    tenant_id = "00000000-0000-0000-0000-000000000000";
    app_id = "00000000-0000-0000-0000-000000000001";
    credentials_secret_name = "entra";
    user_property = "mail";
    interval = "";
  };
  status = record {
    common = fresh;
    last_sync_time = none;
    managed_attributes = "ops" ∷ [];
    matched_identities = 0;
    identities_updated = 0;
    members_without_identity = 0;
    unmatched_members = [];
  };
}

-- An environment without failures, in which the API has this role sync.
abbrev env_of : ZitiEntraRoleSync → Env
env_of current = record {
  tables = caseless;
  api_meta = listed;
  parse_duration = λ s. none;
  error_message = λ e. "failed";
  now = length;
  semantic_equal = λ a b. false;
  context_error = λ t. none;
  cached = λ t key. ok sync;
  secret = λ t namespace name. ok (record { client_id = "id"; client_secret = "secret" });
  role_sync = λ t key. ok current;
  role_syncs = λ t. ok (current ∷ []);
  identities = λ t. ok [];
  status_updated = λ t resource. ok "2";
  service_principal = λ t id. ok (some engineer);
  assignments = λ t id. ok to_group;
  group_users = λ t id. ok (ann ∷ []);
  backend_identities = λ t. ok (laptop ∷ []);
  backend_identity = λ t id. ok (some laptop);
  identity_patched = λ t id attributes. ok tt;
}

abbrev patch : IdentityPatch
patch = record {
  identity_id = "i1";
  external_id = "a@x";
  granted_attributes = "eng" ∷ [];
  role_attributes = "mine" ∷ "eng" ∷ [];
}

-- A run that could not read the members.
abbrev broken : SyncRunResult
broken = failed_run "GraphError" limited_user_data

abbrev reported : ZitiEntraRoleSync
reported = record sync { status = next_status (env_of sync) 7 sync broken sync.status }

apply_role_patch-guarded_example :
    ((writes (apply_role_patch (env_of sync) sync plan patch []).1 ≡ [])
      × (is_patched (apply_role_patch (env_of sync) sync plan patch []).0.kind ≡ false))
    ⊎ ((claims : Claims) × (identity : Identity) × ((env_of sync).backend_identity [] "i1"
          ≡ ok (some identity))
        × ((read_ownership (env_of sync) sync (get_identity "i1" ∷ [])).0 ≡ ok claims)
        × MayWrite (env_of sync) plan patch claims identity
        × (writes (apply_role_patch (env_of sync) sync plan patch []).1
            ≡ ("i1", next_for plan patch identity) ∷ []))
apply_role_patch-guarded_example = apply_role_patch-guarded (env_of sync) plan patch sync []

write_role_plan-bounded_example :
    Writes (env_of sync) sync plan plan.patches [] (write_role_plan (env_of sync) sync plan []).1
    × GoesOn (write_role_plan (env_of sync) sync plan []).0
    × (length (write_role_plan (env_of sync) sync plan []).0 ≤ length plan.patches + 1)
write_role_plan-bounded_example = write_role_plan-bounded (env_of sync) sync plan []

run_sync-Run_example : Run (env_of sync) sync [] (run_sync (env_of sync) sync [])
run_sync-Run_example = run_sync-Run (env_of sync) sync []

persist_sync_result-guarded_example :
    (updates (persist_sync_result (env_of sync) sync broken []).1 ≡ [])
    ⊎ ((current : ZitiEntraRoleSync) × (now : ℕ) × (ok sync ≡ ok current)
        × ((current.meta.uid == "uid") ≡ true)
        × (current.meta.deletion_timestamp ≡ none)
        × (updates (persist_sync_result (env_of sync) sync broken []).1
            ≡ record current { status = next_status (env_of sync) now sync broken current.status }
              ∷ []))
persist_sync_result-guarded_example = persist_sync_result-guarded (env_of sync) sync broken []

persist_sync_result-quiet_example :
    warnings (persist_sync_result (env_of reported) sync broken []).1 ≡ []
unfolding is_ready next_status
persist_sync_result-quiet_example =
    persist_sync_result-quiet (env_of reported) sync broken [] reported 7 sync.status refl refl refl

reconcile-Scheduled_example : Scheduled (reconcile (env_of sync) (key_of "a") []).0
reconcile-Scheduled_example = reconcile-Scheduled (env_of sync) (key_of "a") [] sync refl refl

abbrev stranger : UnmatchedMember
stranger = record { id = "u2"; display_name = "Bob"; external_id = "b@x"; reason = "NoIdentity" }

-- A run that wrote, with two members that it could not match.
abbrev unmatched : PlanResult
unmatched = record plan { unmatched_members = stranger ∷ stranger ∷ [] }

abbrev completion : Completion
completion = record {
  managed_attributes = "eng" ∷ [];
  ready = true;
  reason = "Reconciled";
  advance_last_sync_time = true;
  identities_updated = 1;
  error = none;
  conflict_values = [];
}

abbrev written : SyncRunResult
written = record broken {
  plan = some unmatched;
  completion = some completion;
  write_phase_started = true;
}

abbrev after : ZitiEntraRoleSyncStatus
after = next_status (env_of sync) 7 sync written sync.status

next_status-first_fifty_example :
    ((rest : List EntraUnmatchedMember) × (map
          (λ (m : UnmatchedMember). record {
            id = m.id;
            display_name = m.display_name;
            external_id = m.external_id;
            reason = m.reason;
          })
          (stranger ∷ stranger ∷ [])
        ≡ after.unmatched_members ++ rest)
      × (length after.unmatched_members ≤ 50)
      × ((length after.unmatched_members ≡ 50) ⊎ (rest ≡ [])))
    × (after.matched_identities ≡ 1)
    × (after.identities_updated ≡ 1)
    × (after.members_without_identity ≡ 0)
next_status-first_fifty_example =
    next_status-first_fifty (env_of sync) 7 sync written sync.status unmatched completion refl refl
      refl
