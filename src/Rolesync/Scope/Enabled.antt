-- ===== src/Rolesync/Scope/Enabled.antt =====
-- Which role an assignment names: the map of the enabled roles of ResolveRoleScope.
use miniziti_operator.Prelude.{
  String, ◌≡◌, refl, ◌&&◌, Option, none, some, List, [], ◌∷◌, ◌==◌, inl, inr, Bool-cases,
  Option-cases, if◌then◌else◌,
}
use miniziti_operator.Strings.{contains}
use miniziti_operator.Maps.{lookup, lookup-insert}
use miniziti_operator.Entra.{AppRole, ServicePrincipal}
use miniziti_operator.Rolesync.Scope.{Roles, role_step, roles_from, roles_of}

-- The value of the last enabled role of this id that allows users; it is `none` if there is no such role.
abbrev pub enabled_value : List AppRole → String → Option String
enabled_value [] id = none
enabled_value (role ∷ roles) id =
    let later = enabled_value roles id in
    elim later [
      | some v ↦ some v
      | none ↦
          if contains role.allowed_member_types "User" && (role.is_enabled && role.id == id)
          then some role.value
          else none
    ]

lookup-role_step :
    (r : Roles) (role : AppRole) (id : String)
    → lookup id (role_step r role).enabled ≡ (
        if contains role.allowed_member_types "User" && (role.is_enabled && role.id == id)
        then some role.value
        else lookup id r.enabled)
unfolding role_step
lookup-role_step r role id = elim (Bool-cases (contains role.allowed_member_types "User")) [
  | inr n ↦ rw n refl
  | inl e ↦ elim (Bool-cases role.is_enabled) [
    | inr n ↦ rw (e, n) refl
    | inl f ↦ rw (e, f) (lookup-insert role.id id role.value r.enabled)
  ]
]

lookup-roles_from :
    (r : Roles) (roles : List AppRole) (id : String)
    → lookup id (roles_from r roles).enabled
      ≡ elim (enabled_value roles id) [ some v ↦ some v | none ↦ lookup id r.enabled ]
unfolding roles_from
lookup-roles_from r [] id = refl
lookup-roles_from r (role ∷ roles) id =
    let first = lookup-role_step r role id in
    let rest = lookup-roles_from (role_step r role) roles id in
    elim (Option-cases (enabled_value roles id)) [
      | inr (v, e) ↦ rw (rest, e) refl
      | inl e ↦
          elim (Bool-cases
            (contains role.allowed_member_types "User" && (role.is_enabled && role.id == id))) [
              | inl f ↦ rw (rest, e, first, f) refl
              | inr n ↦ rw (rest, e, first, n) refl
            ]
    ]

-- The map of the enabled roles, as it is read.
pub lookup-roles_of :
    (principal : ServicePrincipal) (id : String)
    → lookup id (roles_of principal).enabled ≡ enabled_value principal.app_roles id
unfolding roles_of lookup
lookup-roles_of principal id =
    let found = lookup-roles_from (record { current = []; enabled = [] }) principal.app_roles id in
    elim (Option-cases (enabled_value principal.app_roles id)) [
      | inl e ↦ rw (found, e) refl
      | inr (v, e) ↦ rw (found, e) refl
    ]
