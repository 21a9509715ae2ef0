-- ===== src/Rolesync/Scope/Grants.antt =====
-- What ResolveRoleScope returns: the values of the roles that allow users, and for each group the
-- values of the enabled ones that are assigned to it.
use miniziti_operator.Prelude.{
  String, ◌≡◌, ◌≢◌, ◌∙◌, Bool, true, false, not, ◌&&◌, ◌||◌, Option, none, some, List, [], ◌∷◌,
  arith, refl, eq_iff, ◌==◌, inl, inr, ◌⊎◌, ◌↔◌, if◌then◌else◌,
}
use miniziti_operator.Strings.{contains}
use miniziti_operator.Strings.Sets.{contains-append}
use miniziti_operator.Maps.{lookup, get_or, lookup-insert}
use miniziti_operator.Errors.{Err, ok, err, no_user_roles}
use miniziti_operator.Entra.{AppRole, ServicePrincipal, AppRoleAssignment}
use miniziti_operator.Rolesync.Ownership.{sorted_set}
use miniziti_operator.Rolesync.Ownership.SortedSet.{
  contains-sorted_set_one, contains-sorted_set_two,
}
use miniziti_operator.Rolesync.Scope.Enabled.{enabled_value, lookup-roles_of}
use miniziti_operator.Rolesync.Scope.{
  RoleScope, Roles, default_access_role_id, role_step, roles_from, roles_of, skips, add_grant,
  groups_from, resolve_with, resolve_role_scope,
}

-- Some role that allows users has the value.
abbrev pub user_value : List AppRole → String → Bool
user_value [] v = false
user_value (role ∷ roles) v =
    (contains role.allowed_member_types "User" && role.value == v) || user_value roles v

-- The assignment grants the value to the group, where the option is the value of the enabled role that
-- it names.
abbrev pub grants_one : Option String → AppRoleAssignment → String → String → Bool
grants_one none a group v = false
grants_one (some value) a group v =
    a.principal_type == "Group"
    && (not (a.app_role_id == default_access_role_id) && (a.principal_id == group && value == v))

-- Some assignment grants the value to the group.
abbrev pub assigned : List AppRole → List AppRoleAssignment → String → String → Bool
assigned roles [] group v = false
assigned roles (a ∷ rest) group v =
    grants_one (enabled_value roles a.app_role_id) a group v || assigned roles rest group v

-- The same by the map of the enabled roles.
abbrev assigned_by : List (String × String) → List AppRoleAssignment → String → String → Bool
assigned_by enabled [] group v = false
assigned_by enabled (a ∷ rest) group v =
    grants_one (lookup a.app_role_id enabled) a group v || assigned_by enabled rest group v

assigned_by-roles_of :
    (principal : ServicePrincipal) (assignments : List AppRoleAssignment) (g v : String)
    → assigned_by (roles_of principal).enabled assignments g v
      ≡ assigned principal.app_roles assignments g v
assigned_by-roles_of principal [] g v = refl
assigned_by-roles_of principal (a ∷ rest) g v =
    rw (lookup-roles_of principal a.app_role_id, assigned_by-roles_of principal rest g v) refl

current-role_step :
    (r : Roles) (role : AppRole) (v : String)
    → contains (role_step r role).current v
      ≡ (contains r.current v || (contains role.allowed_member_types "User" && role.value == v))
unfolding role_step contains
current-role_step r role v = ground (arith, contains-append r.current (role.value ∷ []) v)

current-roles_from :
    (r : Roles) (roles : List AppRole) (v : String)
    → contains (roles_from r roles).current v ≡ (contains r.current v || user_value roles v)
unfolding roles_from
current-roles_from r [] v = ground arith
current-roles_from r (role ∷ roles) v =
    ground (arith, current-roles_from (role_step r role) roles v, current-role_step r role v)

-- An enabled role's value is a current value.
abbrev EnabledAreCurrent : Roles → Type 0
EnabledAreCurrent r = (id v : String) → lookup id r.enabled ≡ some v → contains r.current v ≡ true

role_step-EnabledAreCurrent :
    (r : Roles) (role : AppRole) → EnabledAreCurrent r → EnabledAreCurrent (role_step r role)
unfolding role_step contains
role_step-EnabledAreCurrent r role h id v e = ground (
  arith,
  h id v,
  contains-append r.current (role.value ∷ []) v,
  lookup-insert role.id id role.value r.enabled,
  eq_iff role.value v,
)

roles_from-EnabledAreCurrent :
    (r : Roles) (roles : List AppRole)
    → EnabledAreCurrent r
    → EnabledAreCurrent (roles_from r roles)
unfolding roles_from
roles_from-EnabledAreCurrent r [] h = h
roles_from-EnabledAreCurrent r (role ∷ roles) h =
    roles_from-EnabledAreCurrent (role_step r role) roles (role_step-EnabledAreCurrent r role h)

-- Only the values of enabled roles that allow users can be granted.
pub roles_of-EnabledAreCurrent :
    (principal : ServicePrincipal) → EnabledAreCurrent (roles_of principal)
unfolding roles_of lookup
roles_of-EnabledAreCurrent principal =
    roles_from-EnabledAreCurrent (record { current = []; enabled = [] }) principal.app_roles
      (λ id v e. cc)

add_grant_lem :
    (groups : List (String × List String)) (value : String) (a : AppRoleAssignment) (g v : String)
    → contains (get_or [] g (add_grant groups (some value) a)) v
      ≡ (contains (get_or [] g groups) v || (a.principal_id == g && value == v))
unfolding add_grant contains
add_grant_lem groups value a g v = ground (
  arith,
  lookup-insert a.principal_id g (sorted_set (get_or [] a.principal_id groups ∷ (value ∷ []) ∷ []))
      groups,
  contains-sorted_set_two (get_or [] a.principal_id groups) (value ∷ []) v,
  eq_iff a.principal_id g,
)

group_step :
    (groups : List (String × List String)) (value : Option String) (a : AppRoleAssignment)
    → (g v : String)
    → contains (get_or [] g (if skips value a then groups else add_grant groups value a)) v
      ≡ (contains (get_or [] g groups) v || grants_one value a g v)
unfolding skips
group_step groups none a g v = ground arith
group_step groups (some value) a g v = ground (arith, add_grant_lem groups value a g v)

contains-groups_from :
    (enabled : List (String × String)) (groups : List (String × List String))
    → (assignments : List AppRoleAssignment) (g v : String)
    → contains (get_or [] g (groups_from enabled groups assignments)) v
      ≡ (contains (get_or [] g groups) v || assigned_by enabled assignments g v)
unfolding groups_from
contains-groups_from enabled groups [] g v = ground arith
contains-groups_from enabled groups (a ∷ rest) g v =
    let value = lookup a.app_role_id enabled in
    ground (
      arith,
      contains-groups_from enabled (if skips value a then groups else add_grant groups value a) rest
          g v,
      group_step groups value a g v,
    )

assigned-current :
    (r : Roles) (assignments : List AppRoleAssignment) (g v : String)
    → EnabledAreCurrent r
    → assigned_by r.enabled assignments g v ≡ true
    → contains r.current v ≡ true
assigned-current r [] g v h k = cc
assigned-current r (a ∷ rest) g v h k =
    ground (
      arith,
      assigned-current r rest g v h,
      one (lookup a.app_role_id r.enabled) (h a.app_role_id v),
    )
  where
    one :
        (o : Option String)
        → (o ≡ some v → contains r.current v ≡ true)
        → grants_one o a g v ≡ true
        → contains r.current v ≡ true
    one none f e = cc
    one (some value) f e = f (ground (arith, eq_iff value v))

empty_of_contains : (l : List String) → ((v : String) → contains l v ≡ false) → l ≡ []
unfolding contains
empty_of_contains [] h = refl
empty_of_contains (x ∷ l) h = cc (h x, (eq_iff x x).1 refl)

abbrev resolved : Roles → List AppRoleAssignment → RoleScope
resolved r assignments = record {
  current_values = sorted_set (r.current ∷ []);
  grants_by_group = groups_from r.enabled [] assignments;
}

-- Either no role allows users, or the scope is resolved.
resolve_with_cases :
    (r : Roles) (assignments : List AppRoleAssignment)
    → ((r.current ≡ []) × (resolve_with r assignments ≡ err no_user_roles))
      ⊎ ((r.current ≢ []) × (resolve_with r assignments ≡ ok (resolved r assignments)))
unfolding resolve_with
resolve_with_cases r assignments = ground arith

resolved_exact :
    (r : Roles) (assignments : List AppRoleAssignment) (g v : String)
    → EnabledAreCurrent r
    → (contains (resolved r assignments).current_values v ≡ contains r.current v)
      × (contains (get_or [] g (resolved r assignments).grants_by_group) v
          ≡ assigned_by r.enabled assignments g v)
      × ((contains (get_or [] g (resolved r assignments).grants_by_group) v
            && not (contains (resolved r assignments).current_values v))
          ≡ false)
unfolding contains lookup
resolved_exact r assignments g v h =
    let current = contains-sorted_set_one r.current v in
    let granted = contains-groups_from r.enabled [] assignments g v in
    (current, granted, ground (arith, current, granted, assigned-current r assignments g v h))

module _ (principal : ServicePrincipal) (assignments : List AppRoleAssignment) where
  -- The values of the scope are those of the roles that allow users; a group is granted exactly
  -- the values of the enabled roles that allow users and that some assignment of type Group, of another
  -- role than the default one, gives it (where two such roles share an id, the later one counts); and
  -- every granted value is a value of the scope.
  pub resolve_role_scope-exact :
      {scope : RoleScope}
      → resolve_role_scope principal assignments ≡ ok scope
      → (g v : String)
      → (contains scope.current_values v ≡ user_value principal.app_roles v)
        × (contains (get_or [] g scope.grants_by_group) v
            ≡ assigned principal.app_roles assignments g v)
        × ((contains (get_or [] g scope.grants_by_group) v && not (contains scope.current_values v))
            ≡ false)
  unfolding resolve_role_scope roles_of contains
  resolve_role_scope-exact {scope} e g v =
      elim (resolve_with_cases (roles_of principal) assignments) [
        | inl (_, failed) ↦ cc
        | inr (_, solved) ↦
            let same : scope ≡ resolved (roles_of principal) assignments = cc in
            let exact =
              resolved_exact (roles_of principal) assignments g v
                (roles_of-EnabledAreCurrent principal) in
            let (current, granted, within) = exact in
            rw same (
              current
                  ∙ current-roles_from (record { current = []; enabled = [] }) principal.app_roles
                      v,
              granted ∙ assigned_by-roles_of principal assignments g v,
              within,
            )
      ]

  -- Resolution fails, with ErrNoUserRoles, exactly when no role allows users.
  pub resolve_role_scope-error :
      (x : Err)
      → (resolve_role_scope principal assignments ≡ err x)
        ↔ ((x ≡ no_user_roles) × ((v : String) → user_value principal.app_roles v ≡ false))
  unfolding resolve_role_scope roles_of contains
  resolve_role_scope-error x =
      let from_roles =
        current-roles_from (record { current = []; enabled = [] }) principal.app_roles in
      elim (resolve_with_cases (roles_of principal) assignments) [
        | inl (none_left, failed) ↦
            (λ e. (cc, λ v. ground (arith, from_roles v, none_left)), λ h. rw h.0 failed)
        | inr (some_left, solved) ↦ (
          λ e. cc,
          λ h. absurd (
              some_left
                (empty_of_contains (roles_of principal).current (λ v. from_roles v ∙ h.1 v))),
        )
      ]
