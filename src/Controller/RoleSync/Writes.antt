-- ===== src/Controller/RoleSync/Writes.antt =====
-- zitientrarolesync_writes.go: the patches of a plan are applied one by one, each against a fresh
-- read of its identity and of the claims.
pub mod Guards
pub mod Bounded
use miniziti_operator.Prelude.{
  String, Bool, true, false, not, ◌&&◌, ◌||◌, Option, none, some, List, [], ◌∷◌, ◌++◌, ◌==◌, ltb,
  length, if◌then◌else◌,
}
use miniziti_operator.Strings.{sort, compact, contains, equal_fold}
use miniziti_operator.Errors.{Err, Result, ok, err}
use miniziti_operator.Openziti.{Identity}
use miniziti_operator.Rolesync.Ownership.{resolve_ownership}
use miniziti_operator.Rolesync.Plan.{PlanResult, IdentityPatch}
use miniziti_operator.Rolesync.Matching.{identity_owned}
use miniziti_operator.Rolesync.Planner.{merge_attributes, without}
use miniziti_operator.Rolesync.Retirement.{
  OutcomeKind, observed, patched, deleted, skipped, failed, conflicted, IdentityOutcome,
  stops_writes,
}
use miniziti_operator.Api.{ZitiEntraRoleSync}
use miniziti_operator.Controller.RoleSync.Effects.{
  Call, get_identity, patch_identity, emit_updated, Env, Exec, pure, perform, then_do, attempt,
}
use miniziti_operator.Controller.RoleSync.Reads.{Claims, read_ownership, same_role_set}

-- roleChanges: what is added and what is removed.
unfoldable pub role_changes : List String → List String → List String × List String
unfolding without sort compact
role_changes before after =
    (compact (sort (without after before)), compact (sort (without before after)))

abbrev outcome_of : IdentityPatch → OutcomeKind → List String → IdentityOutcome
outcome_of patch kind attributes = record {
  identity_id = patch.identity_id;
  kind = kind;
  role_attributes = attributes;
  error = none;
  conflict_values = [];
}

abbrev failed_with : IdentityPatch → List String → Err → IdentityOutcome
failed_with patch attributes e = record (outcome_of patch failed attributes) { error = some e }

abbrev attributes_of : Option Identity → List String
attributes_of none = []
attributes_of (some fresh) = fresh.role_attributes

module _ (env : Env) where
  -- The identity may be written: nobody owns it, and it still has the patch's external id.
  pub may_write : IdentityPatch → Claims → Identity → Bool
  may_write patch claims fresh = not (
      identity_owned fresh claims.owners
      || (fresh.external_id == ""
          || not (equal_fold env.tables fresh.external_id patch.external_id)))

  -- The end of applyRolePatch: the write itself.
  pub write_next : IdentityPatch → Identity → List String → Exec IdentityOutcome
  write_next patch fresh next t = elim (env.context_error t) [
    | some e ↦ (failed_with patch fresh.role_attributes e, t)
    | none ↦ elim (env.identity_patched t patch.identity_id next) [
      | err e ↦
          (failed_with patch fresh.role_attributes e, patch_identity patch.identity_id next ∷ t)
      | ok _ ↦ (
        outcome_of patch patched next,
        emit_updated patch.identity_id fresh.external_id (role_changes fresh.role_attributes next).0
              (role_changes fresh.role_attributes next).1
            ∷ patch_identity patch.identity_id next
            ∷ t,
      )
    ]
  ]

  pub write_fresh : PlanResult → IdentityPatch → Claims → Identity → Exec IdentityOutcome
  write_fresh plan patch claims fresh t =
      let next =
        merge_attributes fresh.role_attributes plan.managed_values patch.granted_attributes in
      if not (may_write patch claims fresh)
      then (outcome_of patch skipped fresh.role_attributes, t)
      else if same_role_set fresh.role_attributes next
      then (outcome_of patch observed fresh.role_attributes, t)
      else write_next patch fresh next t

  pub with_claims : PlanResult → IdentityPatch → Option Identity → Claims → Exec IdentityOutcome
  with_claims plan patch fresh claims t =
      let conflicts =
        (resolve_ownership (record {
          self = claims.self;
          candidates = plan.managed_values;
          others = claims.others;
        })).conflicts in
      if ltb 0 (length conflicts)
      then (
        record (outcome_of patch conflicted (attributes_of fresh)) { conflict_values = conflicts },
        t,
      )
      else elim fresh [
        | none ↦ (outcome_of patch deleted [], t)
        | some identity ↦ write_fresh plan patch claims identity t
      ]

  pub apply_role_patch : ZitiEntraRoleSync → PlanResult → IdentityPatch → Exec IdentityOutcome
  apply_role_patch resource plan patch =
      attempt
        (perform (get_identity patch.identity_id) (λ t. env.backend_identity t patch.identity_id))
        (failed_with patch [])
        (λ fresh.
          attempt (read_ownership env resource) (failed_with patch (attributes_of fresh))
            (with_claims plan patch fresh))

  pub write_patches :
      ZitiEntraRoleSync → PlanResult → List IdentityPatch → Exec (List IdentityOutcome)
  write_patches resource plan [] t = elim (env.context_error t) [
    | none ↦ ([], t)
    | some e ↦ (
      record {
        identity_id = "";
        kind = failed;
        role_attributes = [];
        error = some e;
        conflict_values = [];
      }
          ∷ [],
      t,
    )
  ]
  write_patches resource plan (patch ∷ patches) t =
      let applied = apply_role_patch resource plan patch t in
      let rest = write_patches resource plan patches applied.1 in
      elim (env.context_error t) [
        | some e ↦ (failed_with patch [] e ∷ [], t)
        | none ↦
            if stops_writes applied.0
            then (applied.0 ∷ [], applied.1)
            else (applied.0 ∷ rest.0, rest.1)
      ]

  -- writeRolePlan
  unfoldable pub write_role_plan : ZitiEntraRoleSync → PlanResult → Exec (List IdentityOutcome)
  write_role_plan resource plan = write_patches resource plan plan.patches
