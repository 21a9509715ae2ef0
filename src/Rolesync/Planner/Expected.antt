-- ===== src/Rolesync/Planner/Expected.antt =====
-- What BuildPlan is to find for each identity: who is eligible, what it should hold, which patches
-- follow.
use miniziti_operator.Prelude.{
  ℕ, ◌+◌, String, Bool, false, not, ◌&&◌, ◌||◌, List, [], ◌∷◌, ◌==◌, ltb, length, if◌then◌else◌,
}
use miniziti_operator.Strings.{CaseTables, to_lower, slices_equal}
use miniziti_operator.Maps.{get_or}
use miniziti_operator.Openziti.{Identity}
use miniziti_operator.Rolesync.Ownership.{IdentityOwner, sorted_set}
use miniziti_operator.Rolesync.Plan.{IdentityPatch, RetirementHolder}
use miniziti_operator.Rolesync.Matching.{identity_owned}
use miniziti_operator.Rolesync.Planner.{Index, merge_attributes, overlaps, within, granted_to}

-- The identity has an external id, no ZitiIdentity owns it, and no other identity has that id.
abbrev pub eligible : CaseTables → List IdentityOwner → Index → Identity → Bool
eligible u owners index identity =
    not (identity.external_id == "")
    && (not (identity_owned identity owners)
        && not (ltb 1 (length (get_or [] (to_lower u identity.external_id) index))))

-- What the identity should hold.
abbrev pub target : CaseTables → List (String × List String) → List String → Identity → List String
target u grants managed identity =
    merge_attributes identity.role_attributes managed (granted_to u grants identity)

-- It does not hold that set of attributes yet.
abbrev pub differs : CaseTables → List (String × List String) → List String → Identity → Bool
differs u grants managed identity = not (
    slices_equal (sorted_set (identity.role_attributes ∷ []))
      (sorted_set (target u grants managed identity ∷ [])))

abbrev pub patch_for :
    CaseTables → List (String × List String) → List String → Identity → IdentityPatch
patch_for u grants managed identity = record {
  identity_id = identity.id;
  external_id = identity.external_id;
  granted_attributes = granted_to u grants identity;
  role_attributes = target u grants managed identity;
}

abbrev pub holders_for : List String → List Identity → List RetirementHolder
holders_for retired [] = []
holders_for retired (identity ∷ identities) =
    let values = within retired identity.role_attributes in
    let rest = holders_for retired identities in
    if ltb 0 (length values)
    then (record { identity_id = identity.id; values = sorted_set (values ∷ []) }) ∷ rest
    else rest

module _ (u : CaseTables) (owners : List IdentityOwner) (index : Index)
    (grants : List (String × List String)) (managed : List String) where
  -- One patch for each eligible identity that does not hold what it should, in their order.
  abbrev pub patches_for : List Identity → List IdentityPatch
  patches_for [] = []
  patches_for (identity ∷ identities) =
      let rest = patches_for identities in
      if eligible u owners index identity && differs u grants managed identity
      then patch_for u grants managed identity ∷ rest
      else rest

  -- Some eligible identity holds a managed attribute.
  abbrev pub held_now : List Identity → Bool
  held_now [] = false
  held_now (identity ∷ identities) =
      (eligible u owners index identity && overlaps identity.role_attributes managed)
      || held_now identities

  -- Some eligible identity should hold a managed attribute.
  abbrev pub held_then : List Identity → Bool
  held_then [] = false
  held_then (identity ∷ identities) =
      (eligible u owners index identity && overlaps (target u grants managed identity) managed)
      || held_then identities

  -- The number of eligible identities that are granted something.
  abbrev pub matched_in : List Identity → ℕ
  matched_in [] = 0
  matched_in (identity ∷ identities) =
      let rest = matched_in identities in
      if eligible u owners index identity && ltb 0 (length (granted_to u grants identity))
      then rest + 1
      else rest
