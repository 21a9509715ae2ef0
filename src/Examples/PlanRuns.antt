-- ===== src/Examples/PlanRuns.antt =====
-- Runs of internal/rolesync.
use mathlib.Core.List.{Memᴰ}
use miniziti_operator.Prelude.{
  String, ◌≡◌, ◌≢◌, ◌↔◌, ◌⊎◌, refl, true, false, not, ◌&&◌, ◌||◌, none, some, [], ◌∷◌, All, arith,
  if◌then◌else◌,
}
use miniziti_operator.Strings.{contains}
use miniziti_operator.Strings.Sets.{Ascending}
use miniziti_operator.Maps.{get_or}
use miniziti_operator.Errors.{ok, err, no_user_roles}
use miniziti_operator.Rolesync.Ownership.{
  SyncClaim, same_key, owner_of, sorted_set, claim_before, resolve_ownership,
}
use miniziti_operator.Rolesync.Ownership.Exclusion.{
  resolve_ownership-exclusive, conflicts-resolve_ownership,
}
use miniziti_operator.Rolesync.Ownership.Winner.{IsWinner, claims_value, owner_of-IsFirst}
use miniziti_operator.Rolesync.Scope.{resolve_role_scope}
use miniziti_operator.Rolesync.Scope.Grants.{
  resolve_role_scope-exact, resolve_role_scope-error, user_value, assigned,
}
use miniziti_operator.Rolesync.Plan.{PlanResult, IdentityPatch}
use miniziti_operator.Rolesync.Planner.{build_plan, merge_attributes}
use miniziti_operator.Rolesync.Planner.Merge.{merge_attributes_idem, contains-merge_attributes}
use miniziti_operator.Rolesync.Planner.Patches.{Plans, build_plan-exact}
use miniziti_operator.Rolesync.Ownership.SortedSet.{in_any, sorted_set-canonical}
use miniziti_operator.Rolesync.Matching.{member_grants}
use miniziti_operator.Rolesync.Matching.Members.{groups_granted, member_grants-exact}
use miniziti_operator.Rolesync.Scope.{group_ids}
use miniziti_operator.Rolesync.Retirement.{patched, CompletionInput, complete, retirement_pending}
use miniziti_operator.Rolesync.Retirement.Pending.{may_hold, retirement_pending-exact}
use miniziti_operator.Rolesync.Retirement.Forgetting.{complete-exact, complete_forgets}
use miniziti_operator.Rolesync.Planner.Safety.{SafePatch, build_plan-safe}
use miniziti_operator.Examples.{caseless, engineer, to_group, scope, input, claim_of, key_of, plan}

resolved : resolve_role_scope engineer to_group ≡ ok scope
unfolding resolve_role_scope
resolved = refl

planned : IdentityPatch
planned = record {
  identity_id = "i1";
  external_id = "a@x";
  granted_attributes = "eng" ∷ [];
  role_attributes = "mine" ∷ "eng" ∷ [];
}

build_plan-safe_example : All (SafePatch caseless input) (planned ∷ [])
unfolding build_plan planned owner_of
build_plan-safe_example = build_plan-safe caseless input engineer to_group resolved refl

resolve_ownership-exclusive_example :
    contains
      (resolve_ownership (record {
        self = claim_of "b" 2 ("eng" ∷ []);
        candidates = "eng" ∷ [];
        others = claim_of "a" 1 ("eng" ∷ []) ∷ [];
      })).conflicts
      "eng"
    ≡ true
unfolding contains resolve_ownership sorted_set owner_of claim_before
resolve_ownership-exclusive_example =
    resolve_ownership-exclusive (claim_of "a" 1 ("eng" ∷ [])) (claim_of "b" 2 ("eng" ∷ []))
      (claim_of "b" 2 ("eng" ∷ []) ∷ []) (claim_of "a" 1 ("eng" ∷ []) ∷ []) ("eng" ∷ [])
      ("eng" ∷ []) "eng" refl (Memᴰ.head refl) (Memᴰ.head refl) (refl, tt) (refl, tt) refl refl refl
      refl refl

merge_attributes_idem_example :
    merge_attributes
      (merge_attributes ("ops" ∷ "mine" ∷ []) ("eng" ∷ "ops" ∷ []) ("eng" ∷ []))
      ("eng" ∷ "ops" ∷ [])
      ("eng" ∷ [])
    ≡ merge_attributes ("ops" ∷ "mine" ∷ []) ("eng" ∷ "ops" ∷ []) ("eng" ∷ [])
unfolding contains
merge_attributes_idem_example =
    merge_attributes_idem ("ops" ∷ "mine" ∷ []) ("eng" ∷ "ops" ∷ []) ("eng" ∷ [])
      (λ v h. ground arith)

build_plan-exact_example :
    ((input.scope.current_values ≡ []) × (build_plan caseless input ≡ err no_user_roles))
    ⊎ ((input.scope.current_values ≢ [])
        × ((r : PlanResult) × (build_plan caseless input ≡ ok r) × Plans caseless input r))
build_plan-exact_example = build_plan-exact caseless input

contains-merge_attributes_example :
    contains (merge_attributes ("ops" ∷ "mine" ∷ []) ("eng" ∷ "ops" ∷ []) ("eng" ∷ [])) "ops" ≡ (
      (contains ("ops" ∷ "mine" ∷ []) "ops" && not (contains ("eng" ∷ "ops" ∷ []) "ops"))
      || contains ("eng" ∷ []) "ops")
contains-merge_attributes_example =
    contains-merge_attributes ("ops" ∷ "mine" ∷ []) ("eng" ∷ "ops" ∷ []) ("eng" ∷ []) "ops"

resolve_role_scope-exact_example :
    (contains ("eng" ∷ []) "eng" ≡ user_value engineer.app_roles "eng")
    × (contains (get_or [] "g1" scope.grants_by_group) "eng"
        ≡ assigned engineer.app_roles to_group "g1" "eng")
    × ((contains (get_or [] "g1" scope.grants_by_group) "eng" && not (contains ("eng" ∷ []) "eng"))
        ≡ false)
resolve_role_scope-exact_example = resolve_role_scope-exact engineer to_group resolved "g1" "eng"

resolve_role_scope-error_example :
    (resolve_role_scope engineer to_group ≡ err no_user_roles)
    ↔ ((no_user_roles ≡ no_user_roles) × ((v : String) → user_value engineer.app_roles v ≡ false))
resolve_role_scope-error_example = resolve_role_scope-error engineer to_group no_user_roles

member_grants-exact_example :
    contains (get_or [] "a@x" (member_grants caseless input plan).grants) "eng"
    ≡ groups_granted caseless input "a@x" "eng" (group_ids scope)
member_grants-exact_example = member_grants-exact caseless input plan "a@x" "eng"

conflicts-resolve_ownership_example :
    contains
      (resolve_ownership (record {
        self = claim_of "b" 2 [];
        candidates = "eng" ∷ [];
        others = claim_of "a" 1 ("eng" ∷ []) ∷ [];
      })).conflicts
      "eng"
    ≡ (contains ("eng" ∷ []) "eng"
        && not (
            same_key
              (owner_of (claim_of "b" 2 []) (claim_of "a" 1 ("eng" ∷ []) ∷ []) "eng")
              (key_of "b")))
conflicts-resolve_ownership_example =
    conflicts-resolve_ownership
      (record {
        self = claim_of "b" 2 [];
        candidates = "eng" ∷ [];
        others = claim_of "a" 1 ("eng" ∷ []) ∷ [];
      })
      "eng"

owner_of-IsFirst_example :
    (All
        (λ c. claims_value "eng" c ≡ false)
        (claim_of "b" 2 ("eng" ∷ []) ∷ claim_of "a" 1 ("eng" ∷ []) ∷ [])
      × (owner_of (claim_of "b" 2 ("eng" ∷ [])) (claim_of "a" 1 ("eng" ∷ []) ∷ []) "eng"
          ≡ key_of "b"))
    ⊎ ((w : SyncClaim) × IsWinner "eng"
          (claim_of "b" 2 ("eng" ∷ []) ∷ claim_of "a" 1 ("eng" ∷ []) ∷ [])
          (some w)
        × (owner_of (claim_of "b" 2 ("eng" ∷ [])) (claim_of "a" 1 ("eng" ∷ []) ∷ []) "eng"
            ≡ w.resource))
owner_of-IsFirst_example =
    owner_of-IsFirst (claim_of "b" 2 ("eng" ∷ [])) (claim_of "a" 1 ("eng" ∷ []) ∷ []) "eng"

sorted_set-canonical_example :
    ("a" ∷ "b" ∷ [] ≡ sorted_set (("b" ∷ []) ∷ ("a" ∷ "b" ∷ []) ∷ [])) ↔ (
      Ascending ("a" ∷ "b" ∷ [])
      × ((v : String)
          → contains ("a" ∷ "b" ∷ []) v ≡ in_any (("b" ∷ []) ∷ ("a" ∷ "b" ∷ []) ∷ []) v))
sorted_set-canonical_example =
    sorted_set-canonical (("b" ∷ []) ∷ ("a" ∷ "b" ∷ []) ∷ []) ("a" ∷ "b" ∷ [])

-- The run that patches the laptop, under recorded claims.
abbrev run : CompletionInput
run = record {
  plan = plan;
  previous_values = "ops" ∷ [];
  outcomes =
      (record {
        identity_id = "i1";
        kind = patched;
        role_attributes = "mine" ∷ "eng" ∷ [];
        error = none;
        conflict_values = [];
      })
      ∷ [];
  block_reason = "";
  claim_recorded = true;
}

retirement_pending-exact_example :
    (retirement_pending run ≡ false) ↔ ((id : String) → may_hold run id ≡ false)
retirement_pending-exact_example = retirement_pending-exact run

complete-exact_example : (complete run).managed_attributes ≡ (
    if (complete run).ready
    then sorted_set (("eng" ∷ []) ∷ [])
    else if true
    then sorted_set (("eng" ∷ "ops" ∷ []) ∷ [])
    else sorted_set (("ops" ∷ []) ∷ []))
complete-exact_example = (complete-exact run).1

complete_forgets_example : (contains ("eng" ∷ []) "ops" ≡ false) × (may_hold run "i1" ≡ false)
unfolding complete contains
complete_forgets_example = complete_forgets run "ops" "i1" refl refl refl
