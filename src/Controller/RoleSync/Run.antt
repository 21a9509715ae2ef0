-- ===== src/Controller/RoleSync/Run.antt =====
-- zitientrarolesync_controller.go: one run of a role sync, from the reads to the completion.
pub mod Silent
pub mod WriteAhead
use miniziti_operator.Prelude.{
  ℕ, String, Bool, true, false, not, ◌&&◌, ◌||◌, Option, none, some, List, [], ◌∷◌, ◌==◌, ltb,
  length, if◌then◌else◌,
}
use miniziti_operator.Errors.{Err, Result, ok, err, as_graph, as_token, GraphError, TokenError}
use miniziti_operator.Rolesync.Plan.{Input, PlanResult}
use miniziti_operator.Rolesync.Planner.{build_plan}
use miniziti_operator.Rolesync.Retirement.{IdentityOutcome, CompletionInput, Completion, complete}
use miniziti_operator.Api.{ZitiEntraRoleSync}
use miniziti_operator.Openziti.{Identity}
use miniziti_operator.Controller.RoleSync.Effects.{
  Duration, Call, list_backend_identities, Env, Exec, pure, perform, handle, attempt,
}
use miniziti_operator.Controller.RoleSync.Reads.{
  Claims, Graph, validate_role_sync_spec, read_directory, read_graph, read_ownership,
  record_role_claims,
}
use miniziti_operator.Controller.RoleSync.Writes.{write_role_plan}

pub record SyncRunResult : Type 0 where
  pub plan : Option PlanResult
  pub completion : Option Completion
  pub write_phase_started : Bool
  pub reason : String
  pub error : Option Err
  pub retry_after : ℕ

-- syncRunResult{Reason: reason, Err: err}
abbrev pub failed_run : String → Err → SyncRunResult
failed_run reason e = record {
  plan = none;
  completion = none;
  write_phase_started = false;
  reason = reason;
  error = some e;
  retry_after = 0;
}

retry_of_graph : Option GraphError → ℕ → ℕ
retry_of_graph none d = d
retry_of_graph (some g) d = g.retry_after

retry_of_token : Option TokenError → ℕ → ℕ
retry_of_token none d = d
retry_of_token (some k) d = k.retry_after

unfoldable pub graph_run_failure : Err → SyncRunResult
unfolding retry_of_graph retry_of_token as_graph as_token
graph_run_failure e = record (failed_run "GraphError" e) {
  retry_after = retry_of_token (as_token e) (retry_of_graph (as_graph e) 0);
}

-- The BlockReason of the completion's input.
pub block_reason : PlanResult → String
block_reason plan =
    if ltb 0 (length plan.ownership.conflicts)
    then "Conflict"
    else if plan.would_remove_all
    then "WouldRemoveAll"
    else ""

pub completion_input : PlanResult → Claims → List IdentityOutcome → Bool → CompletionInput
unfolding block_reason
completion_input plan claims outcomes recorded = record {
  plan = plan;
  previous_values = claims.self.managed_attributes;
  outcomes = outcomes;
  block_reason = block_reason plan;
  claim_recorded = recorded;
}

abbrev planned_run : PlanResult → Bool → Completion → Option Err → SyncRunResult
planned_run plan started completion error = record {
  plan = some plan;
  completion = some completion;
  write_phase_started = started;
  reason = completion.reason;
  error = error;
  retry_after = 0;
}

pub plan_input : ZitiEntraRoleSync → Graph → List Identity → Claims → Input
plan_input resource graph identities claims = record {
  scope = graph.scope;
  members_by_group = graph.members_by_group;
  identities = identities;
  identity_owners = claims.owners;
  self = claims.self;
  other_claims = claims.others;
  user_property = resource.spec.user_property;
}

module _ (env : Env) where
  -- The end of runSync: the writes under recorded claims, and the completion.
  pub write_recorded :
      PlanResult → Claims → ZitiEntraRoleSync → Exec (SyncRunResult × ZitiEntraRoleSync)
  unfolding completion_input
  write_recorded plan claims resource t =
      let written = write_role_plan env resource plan t in
      let completion = complete (completion_input plan claims written.0 true) in
      ((planned_run plan true completion completion.error, resource), written.1)

  -- runSync from the plan on.
  pub run_plan : PlanResult → Claims → ZitiEntraRoleSync → Exec (SyncRunResult × ZitiEntraRoleSync)
  unfolding write_recorded completion_input
  run_plan plan claims resource t =
      if not (block_reason plan == "")
      then (
        (planned_run plan false (complete (completion_input plan claims [] false)) none, resource),
        t,
      )
      else attempt (record_role_claims env resource claims.self plan.managed_values)
          (λ e. (record (failed_run "ZitiError" e) { plan = some plan }, resource))
          (λ claimed. write_recorded plan claims claimed) t

  -- runSync, with the resource as it leaves it.
  unfoldable pub run_sync : ZitiEntraRoleSync → Exec (SyncRunResult × ZitiEntraRoleSync)
  unfolding run_plan
  run_sync resource = elim (validate_role_sync_spec env resource).1 [
    | some e ↦ pure (failed_run "InvalidSpec" e, resource)
    | none ↦
        attempt (read_directory env resource) (λ e. (failed_run "InvalidSpec" e, resource))
          λ _.
            attempt (read_graph env resource) (λ e. (graph_run_failure e, resource))
              λ graph.
                attempt (perform list_backend_identities env.backend_identities)
                  (λ e. (failed_run "ZitiError" e, resource))
                  λ identities.
                    attempt (read_ownership env resource)
                      (λ e. (failed_run "ZitiError" e, resource))
                      λ claims.
                        handle (build_plan env.tables (plan_input resource graph identities claims))
                          (λ e. (graph_run_failure e, resource))
                          λ plan. run_plan plan claims resource
  ]
