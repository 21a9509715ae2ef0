-- ===== src/Rolesync/Planner/Safety.antt =====
-- The patches of a plan touch nothing but managed attributes of eligible identities.
use mathlib.Core.List.{Memᴰ}
use miniziti_operator.Prelude.{
  String, ◌≤◌, ◌==◌, ◌≡◌, ◌∙◌, ap, Bool, true, false, not, ◌&&◌, List, [], ◌∷◌, arith, refl,
  Bool-cases, inl, inr, ltb, length, All, All-map, if◌then◌else◌,
}
use miniziti_operator.Strings.{CaseTables, contains, to_lower}
use miniziti_operator.Maps.{get_or}
use miniziti_operator.Errors.{ok}
use miniziti_operator.Entra.{User, ServicePrincipal, AppRoleAssignment}
use miniziti_operator.Openziti.{Identity}
use miniziti_operator.Rolesync.Ownership.{IdentityOwner}
use miniziti_operator.Rolesync.Ownership.SortedSet.{contains-sorted_set_two}
use miniziti_operator.Rolesync.Scope.{group_ids, resolve_role_scope}
use miniziti_operator.Rolesync.Scope.Grants.{resolve_role_scope-exact}
use miniziti_operator.Rolesync.Plan.{Input, PlanResult, IdentityPatch}
use miniziti_operator.Rolesync.Matching.{identity_owned}
use miniziti_operator.Rolesync.Matching.Shared.{sharing, length-identity_index}
use miniziti_operator.Rolesync.Matching.Members.{users_granted, groups_granted, member_grants-exact}
use miniziti_operator.Rolesync.Planner.{Index, start_plan, build_plan, granted_to}
use miniziti_operator.Rolesync.Planner.Merge.{contains-merge_attributes}
use miniziti_operator.Rolesync.Planner.Expected.{eligible, differs, patch_for, patches_for}
use miniziti_operator.Rolesync.Planner.Patches.{managed_of, grants_of, index_of, build_plan-Plans}

-- Every patch of the list is the patch of an eligible identity of the list that needs it.
abbrev pub PatchOf :
    CaseTables
    → List IdentityOwner
    → Index
    → List (String × List String)
    → List String
    → List Identity
    → IdentityPatch
    → Type 0
PatchOf u owners index grants managed identities patch =
    (identity : Identity) × Memᴰ identity identities
    × (patch ≡ patch_for u grants managed identity)
    × ((eligible u owners index identity && differs u grants managed identity) ≡ true)

module _ (u : CaseTables) (owners : List IdentityOwner) (index : Index)
    (grants : List (String × List String)) (managed : List String) where
  patches_for-PatchOf :
      (identities : List Identity)
      → All
          (PatchOf u owners index grants managed identities)
          (patches_for u owners index grants managed identities)
  patches_for-PatchOf [] = tt
  patches_for-PatchOf (identity ∷ identities) =
      let later =
        All-map _ (PatchOf u owners index grants managed (identity ∷ identities))
          (patches_for u owners index grants managed identities)
          (λ p h. (h.0, Memᴰ.tail h.1, h.2, h.3)) (patches_for-PatchOf identities) in
      elim (Bool-cases (eligible u owners index identity && differs u grants managed identity)) [
        | inl e ↦ rw e ((identity, Memᴰ.head refl, refl, e), later)
        | inr n ↦ rw n later
      ]

module _ (u : CaseTables) (input : Input) where
  users_granted_within :
      (user_property : String) (values : List String) (key v : String) (users : List User)
      → users_granted u user_property values key v users ≡ true
      → contains values v ≡ true
  users_granted_within user_property values key v [] h = cc
  users_granted_within user_property values key v (user ∷ users) h =
      ground (arith, users_granted_within user_property values key v users)

  module _
      (within : (g v : String)
        → contains (get_or [] g input.scope.grants_by_group) v ≡ true
        → contains input.scope.current_values v ≡ true) where
    groups_granted_within :
        (key v : String) (groups : List String)
        → groups_granted u input key v groups ≡ true
        → contains input.scope.current_values v ≡ true
    groups_granted_within key v [] h = cc
    groups_granted_within key v (group ∷ groups) h = ground (
      arith,
      groups_granted_within key v groups,
      within group v,
      users_granted_within input.user_property (get_or [] group input.scope.grants_by_group) key v
          (get_or [] group input.members_by_group),
    )

    -- What an identity is granted is managed.
    granted-managed :
        (identity : Identity) (v : String)
        → contains (granted_to u (grants_of u input) identity) v ≡ true
        → contains (managed_of u input) v ≡ true
    granted-managed identity v h =
        let key = to_lower u identity.external_id in
        ground (
          arith,
          member_grants-exact u input (start_plan u input) key v,
          groups_granted_within key v (group_ids input.scope),
          contains-sorted_set_two input.scope.current_values input.self.managed_attributes v,
        )

-- The patch is for an identity of the snapshot that has an external id, that no ZitiIdentity owns and
-- that is the only one of the snapshot with this external id, up to case. What it makes the identity hold is, of the managed attributes,
-- exactly those that some group grants to a member of that external id, and of the others exactly
-- those that the identity holds already.
abbrev pub SafePatch : CaseTables → Input → IdentityPatch → Type 0
SafePatch u input patch =
    (identity : Identity) × Memᴰ identity input.identities
    × (patch.identity_id ≡ identity.id)
    × ((identity.external_id == "") ≡ false)
    × (identity_owned identity input.identity_owners ≡ false)
    × (sharing u (to_lower u identity.external_id) input.identities ≤ 1)
    × ((v : String)
        → contains patch.role_attributes v ≡ (
            if contains (managed_of u input) v
            then groups_granted u input (to_lower u identity.external_id) v (group_ids input.scope)
            else contains identity.role_attributes v))

module _ (u : CaseTables) (input : Input) where
  safe_of_PatchOf :
      (patch : IdentityPatch)
      → ((identity : Identity) (v : String)
          → contains (granted_to u (grants_of u input) identity) v ≡ true
          → contains (managed_of u input) v ≡ true)
      → PatchOf u input.identity_owners
          (index_of u input)
          (grants_of u input)
          (managed_of u input)
          input.identities
          patch
      → SafePatch u input patch
  safe_of_PatchOf patch managed (identity, member, same, needs) = (
    identity,
    member,
    ground arith,
    ground (needs, arith),
    ground (needs, arith),
    ground
        (needs, length-identity_index u (to_lower u identity.external_id) input.identities, arith),
    λ v.
        let granted = granted_to u (grants_of u input) identity in
        rw same (
          ground (
            arith,
            contains-merge_attributes identity.role_attributes (managed_of u input) granted v,
            member_grants-exact u input (start_plan u input) (to_lower u identity.external_id) v,
            managed identity v,
          )),
  )

  -- Let the scope be resolved from a principal and its assignments, and BuildPlan succeed. Then every
  -- patch of the plan is for an identity of the snapshot that has an external id, no owner, and an
  -- external id that no other identity of the snapshot has, up to case. Of the managed attributes the patch makes it hold exactly those
  -- that some group of the scope grants to a member with its external id, and of the others exactly
  -- those that it holds already.
  pub build_plan-safe :
      (principal : ServicePrincipal) (assignments : List AppRoleAssignment) {r : PlanResult}
      → resolve_role_scope principal assignments ≡ ok input.scope
      → build_plan u input ≡ ok r
      → All (SafePatch u input) r.patches
  build_plan-safe principal assignments {r} resolved built =
      let within =
        λ (g v : String) (h : contains (get_or [] g input.scope.grants_by_group) v ≡ true).
          within_scope g v h (resolve_role_scope-exact principal assignments resolved g v).2 in
      let safe =
        All-map _ (SafePatch u input) expected
          (λ p h. safe_of_PatchOf p (granted-managed u input within) h)
          (patches_for-PatchOf u input.identity_owners (index_of u input) (grants_of u input)
            (managed_of u input) input.identities) in
      elim (Bool-cases (ltb 0 (length r.ownership.conflicts))) [
        | inl e ↦ rw ((build_plan-Plans u input built).patches ∙ ap pick e) tt
        | inr n ↦ rw ((build_plan-Plans u input built).patches ∙ ap pick n) safe
      ]
    where
      expected : List IdentityPatch
      expected =
          patches_for u input.identity_owners (index_of u input) (grants_of u input)
            (managed_of u input) input.identities

      pick : Bool → List IdentityPatch
      pick b = if b then [] else expected

      within_scope :
          (g v : String)
          → contains (get_or [] g input.scope.grants_by_group) v ≡ true
          → (contains (get_or [] g input.scope.grants_by_group) v
              && not (contains input.scope.current_values v))
            ≡ false
          → contains input.scope.current_values v ≡ true
      within_scope g v h k = ground arith
