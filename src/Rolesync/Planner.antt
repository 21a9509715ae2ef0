-- ===== src/Rolesync/Planner.antt =====
-- internal/rolesync/planner.go: what a role sync would change, from complete snapshots.
pub mod Merge
pub mod Expected
pub mod Step
pub mod Pass
pub mod Patches
pub mod Safety
use miniziti_operator.Prelude.{
  ℕ, ◌+◌, String, Bool, true, false, not, ◌&&◌, ◌||◌, List, [], ◌∷◌, ◌++◌, ◌==◌, ltb, eqb, length,
  if◌then◌else◌,
}
use miniziti_operator.Strings.{CaseTables, contains, to_lower, slices_equal}
use miniziti_operator.Maps.{lookup, get_or, keys}
use miniziti_operator.Errors.{Result, ok, err, no_user_roles}
use miniziti_operator.Openziti.{Identity}
use miniziti_operator.Rolesync.Ownership.{IdentityOwner, sorted_set, resolve_ownership}
use miniziti_operator.Rolesync.Plan.{Input, PlanResult, report}
use miniziti_operator.Rolesync.Matching.{identity_owned, member_grants, identity_index}

-- The values of the first list that the second does not hold, in order.
unfoldable pub without : List String → List String → List String
unfolding contains
without [] managed = []
without (value ∷ values) managed =
    let rest = without values managed in if contains managed value then rest else value ∷ rest

-- The values of the first list that the second holds, in order.
unfoldable pub within : List String → List String → List String
unfolding contains
within [] held = []
within (value ∷ values) held =
    let rest = within values held in if contains held value then value ∷ rest else rest

unfoldable pub merge_attributes : List String → List String → List String → List String
unfolding without sorted_set
merge_attributes current managed granted = without current managed ++ sorted_set (granted ∷ [])

unfoldable pub overlaps : List String → List String → Bool
unfolding contains
overlaps [] managed = false
overlaps (value ∷ values) managed = contains managed value || overlaps values managed

pub observe_retirement : PlanResult → Identity → List String → PlanResult
unfolding within sorted_set
observe_retirement p identity retired =
    let values = within retired identity.role_attributes in
    if eqb (length values) 0 then p else record p {
      retirement_holders =
          p.retirement_holders
          ++ (record { identity_id = identity.id; values = sorted_set (values ∷ []) }) ∷ [];
    }

-- The map that identityIndex returns, as it is read: the identities of an external id.
abbrev pub Index : Type 0
Index = List (String × List Identity)

module _ (u : CaseTables) where
  pub unmatched_reason : Identity → List IdentityOwner → Index → String
  unfolding identity_owned to_lower lookup
  unmatched_reason identity owners index =
      if identity_owned identity owners
      then "ManagedByZitiIdentity"
      else if ltb 1 (length (get_or [] (to_lower u identity.external_id) index))
      then "DuplicateIdentity"
      else ""

  pub eligible_identity : Identity → List IdentityOwner → Index → PlanResult → PlanResult × Bool
  unfolding unmatched_reason report
  eligible_identity identity owners index result =
      let reason = unmatched_reason identity owners index in
      if identity.external_id == ""
      then (result, false)
      else if not (reason == "")
      then (
        report result (record {
          id = identity.id;
          display_name = identity.name;
          external_id = identity.external_id;
          reason = reason;
        }),
        false,
      )
      else (result, true)

  pub count_missing : Index → List String → ℕ
  unfolding lookup
  count_missing index [] = 0
  count_missing index (key ∷ rest) =
      let others = count_missing index rest in
      if eqb (length (get_or [] key index)) 0 then others + 1 else others

-- The variables of the loop over the identities.
pub record Scan : Type 0 where
  pub result : PlanResult
  pub had_managed : Bool
  pub will_have_managed : Bool

module _ (u : CaseTables) where
  abbrev pub granted_to : List (String × List String) → Identity → List String
  granted_to grants identity = get_or [] (to_lower u identity.external_id) grants

  -- The rest of the loop's body, for an identity that is eligible.
  pub plan_identity : List (String × List String) → Scan → Identity → Scan
  unfolding merge_attributes overlaps slices_equal sorted_set
  plan_identity grants s identity =
      let granted = granted_to grants identity in
      let managed = s.result.managed_values in
      let next = merge_attributes identity.role_attributes managed granted in
      let counted =
        if ltb 0 (length granted)
        then record s.result { matched_identities = s.result.matched_identities + 1 }
        else s.result in
      record {
        had_managed = s.had_managed || overlaps identity.role_attributes managed;
        will_have_managed = s.will_have_managed || overlaps next managed;
        result =
            if not
              (slices_equal (sorted_set (identity.role_attributes ∷ [])) (sorted_set (next ∷ [])))
            then record counted {
              patches =
                  counted.patches
                  ++ (record {
                    identity_id = identity.id;
                    external_id = identity.external_id;
                    granted_attributes = granted;
                    role_attributes = next;
                  })
                    ∷ [];
            }
            else counted;
      }

  pub scan_identity :
      List IdentityOwner
      → Index
      → List (String × List String)
      → List String
      → Scan
      → Identity
      → Scan
  unfolding observe_retirement eligible_identity plan_identity
  scan_identity owners index grants retired s identity =
      let observed = observe_retirement s.result identity retired in
      let (result, eligible) = eligible_identity u identity owners index observed in
      if eligible
      then plan_identity grants (record s { result = result }) identity
      else record s { result = result }

  pub scan_identities :
      List IdentityOwner
      → Index
      → List (String × List String)
      → List String
      → Scan
      → List Identity
      → Scan
  unfolding scan_identity
  scan_identities owners index grants retired s [] = s
  scan_identities owners index grants retired s (identity ∷ identities) =
      scan_identities owners index grants retired
        (scan_identity owners index grants retired s identity) identities

  -- BuildPlan up to the loop over the identities.
  pub start_plan : Input → PlanResult
  unfolding sorted_set resolve_ownership
  start_plan input =
      let managed = sorted_set (input.scope.current_values ∷ input.self.managed_attributes ∷ []) in
      record {
        current_values = input.scope.current_values;
        managed_values = managed;
        ownership =
            resolve_ownership
              (record { self = input.self; candidates = managed; others = input.other_claims });
        patches = [];
        retirement_holders = [];
        unmatched_members = [];
        matched_identities = 0;
        members_without_identity = 0;
        would_remove_all = false;
      }

  pub scan_input : Input → Scan
  unfolding start_plan member_grants identity_index count_missing scan_identities without keys
  scan_input input =
      let matched = member_grants u input (start_plan input) in
      let index = identity_index u input.identities in
      let result = record (matched.result) {
        members_without_identity = count_missing u index (keys matched.grants);
      } in
      scan_identities input.identity_owners index matched.grants
        (without input.self.managed_attributes input.scope.current_values)
        (record { result = result; had_managed = false; will_have_managed = false })
        input.identities

  pub finish_plan : Scan → PlanResult
  finish_plan s =
      let result = record (s.result) {
        would_remove_all = s.had_managed && not s.will_have_managed;
      } in
      if ltb 0 (length result.ownership.conflicts) then record result { patches = [] } else result

  unfoldable pub build_plan : Input → Result PlanResult
  unfolding scan_input finish_plan
  build_plan input = elim input.scope.current_values [
    | [] ↦ err no_user_roles
    | _ ∷ _ ↦ ok (finish_plan (scan_input input))
  ]
