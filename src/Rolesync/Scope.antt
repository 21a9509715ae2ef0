-- ===== src/Rolesync/Scope.antt =====
-- internal/rolesync/scope.go: the roles of an application and the groups that are granted them.
pub mod Enabled
pub mod Grants
use miniziti_operator.Prelude.{
  String, Bool, true, false, not, ◌&&◌, ◌||◌, Option, none, some, List, [], ◌∷◌, ◌++◌, ◌==◌,
  if◌then◌else◌,
}
use miniziti_operator.Strings.{contains, sort}
use miniziti_operator.Maps.{lookup, insert, keys, get_or}
use miniziti_operator.Errors.{Result, ok, err, no_user_roles}
use miniziti_operator.Entra.{AppRole, ServicePrincipal, AppRoleAssignment}
use miniziti_operator.Rolesync.Ownership.{sorted_set}

abbrev pub default_access_role_id : String
default_access_role_id = "00000000-0000-0000-0000-000000000000"

pub record RoleScope : Type 0 where
  pub current_values : List String
  pub grants_by_group : List (String × List String)

unfoldable pub group_ids : RoleScope → List String
unfolding keys sort
group_ids s = sort (keys s.grants_by_group)

-- The variables of the first loop of ResolveRoleScope.
pub record Roles : Type 0 where
  pub current : List String
  pub enabled : List (String × String)

role_step : Roles → AppRole → Roles
unfolding contains insert
role_step r role = if not (contains role.allowed_member_types "User") then r else record {
  current = r.current ++ role.value ∷ [];
  enabled = if role.is_enabled then insert role.id role.value r.enabled else r.enabled;
}

roles_from : Roles → List AppRole → Roles
unfolding role_step
roles_from r [] = r
roles_from r (role ∷ roles) = roles_from (role_step r role) roles

unfoldable pub roles_of : ServicePrincipal → Roles
unfolding roles_from
roles_of principal = roles_from (record { current = []; enabled = [] }) principal.app_roles

-- The guard of the second loop.
skips : Option String → AppRoleAssignment → Bool
skips none assignment = true
skips (some value) assignment =
    not (assignment.principal_type == "Group") || assignment.app_role_id == default_access_role_id

add_grant :
    List (String × List String) → Option String → AppRoleAssignment → List (String × List String)
unfolding lookup insert sorted_set
add_grant groups none assignment = groups
add_grant groups (some value) assignment =
    insert assignment.principal_id
      (sorted_set (get_or [] assignment.principal_id groups ∷ (value ∷ []) ∷ [])) groups

-- The second loop of ResolveRoleScope.
groups_from :
    List (String × String)
    → List (String × List String)
    → List AppRoleAssignment
    → List (String × List String)
unfolding skips add_grant lookup
groups_from enabled groups [] = groups
groups_from enabled groups (assignment ∷ assignments) =
    let value = lookup assignment.app_role_id enabled in
    groups_from enabled
      (if skips value assignment then groups else add_grant groups value assignment) assignments

resolve_with : Roles → List AppRoleAssignment → Result RoleScope
unfolding groups_from sorted_set
resolve_with (r) assignments = elim r.current [
  | [] ↦ err no_user_roles
  | _ ∷ _ ↦ ok (record {
    current_values = sorted_set (r.current ∷ []);
    grants_by_group = groups_from r.enabled [] assignments;
  })
]

unfoldable pub resolve_role_scope : ServicePrincipal → List AppRoleAssignment → Result RoleScope
unfolding roles_of resolve_with
resolve_role_scope principal assignments = resolve_with (roles_of principal) assignments
