-- ===== src/Entra/Wire.antt =====
-- internal/entra/validation.go: what the directory accepts of the answers of Microsoft Graph.
pub mod Accepted
use miniziti_operator.Prelude.{
  String, Bool, true, false, not, ◌||◌, Option, none, some, List, [], ◌∷◌, ◌==◌, if◌then◌else◌,
}
use miniziti_operator.Errors.{Err, Result, ok, err, text, limited_user_data}
use miniziti_operator.Entra.{AppRole, ServicePrincipal, AppRoleAssignment, User}

-- `none` is a field that the answer omits.
pub record GraphRole : Type 0 where
  pub role : AppRole
  pub is_enabled : Option Bool

pub record GraphServicePrincipal : Type 0 where
  pub id : String
  pub app_roles : Option (List GraphRole)

-- The raw field mail, by what decoding it into a text gives: it is omitted, is no text, is null (which
-- leaves the text as it is), or is a text.
pub data RawMail : Type 0 where
  omitted : RawMail
  no_text : RawMail
  null : RawMail
  mail : String → RawMail

pub record GraphMember : Type 0 where
  pub user : User
  pub type : String
  pub raw_mail : RawMail

unknown_kind : List String → Bool
unknown_kind [] = false
unknown_kind (kind ∷ kinds) = not (kind == "User" || kind == "Application") || unknown_kind kinds

is_none : List String → Bool
is_none [] = true
is_none (_ ∷ _) = false

-- The body of the loop of snapshot.
pub accept_role : GraphRole → Result AppRole
unfolding unknown_kind is_none
accept_role wire = elim wire.is_enabled [
  | none ↦ err (text "incomplete Graph app role")
  | some enabled ↦
      if wire.role.id == "" || (wire.role.value == "" || is_none wire.role.allowed_member_types)
      then err (text "incomplete Graph app role")
      else if unknown_kind wire.role.allowed_member_types
      then err (text "unknown Graph app role member type")
      else ok (record (wire.role) { is_enabled = enabled })
]

unfoldable pub and_then : {A : Type 0} → Result A → Result (List A) → Result (List A)
and_then (err e) rest = err e
and_then (ok a) (err e) = err e
and_then (ok a) (ok others) = ok (a ∷ others)

pub accept_roles : List GraphRole → Result (List AppRole)
accept_roles [] = ok []
accept_roles (wire ∷ roles) = and_then (accept_role wire) (accept_roles roles)

with_roles : String → Result (List AppRole) → Result ServicePrincipal
with_roles id (err e) = err e
with_roles id (ok roles) = ok (record { id = id; app_roles = roles })

-- graphServicePrincipal.snapshot
unfoldable pub snapshot : GraphServicePrincipal → Result ServicePrincipal
unfolding accept_roles and_then accept_role with_roles
snapshot p = elim p.app_roles [
  | none ↦ err (text "incomplete Graph service principal")
  | some roles ↦
      if p.id == ""
      then err (text "incomplete Graph service principal")
      else with_roles p.id (accept_roles roles)
]

known_principal : String → Bool
known_principal type = type == "Group" || (type == "User" || type == "ServicePrincipal")

-- validateAssignments
unfoldable pub validate_assignments : List AppRoleAssignment → Option Err
unfolding known_principal
validate_assignments [] = none
validate_assignments (assignment ∷ assignments) =
    if assignment.principal_id == "" || assignment.app_role_id == ""
    then some (text "incomplete Graph app role assignment")
    else if known_principal assignment.principal_type
    then validate_assignments assignments
    else some (text "missing or unknown Graph assignment principal type")

-- The member types that groupUsers passes over.
unfoldable pub passed_over : String → Bool
passed_over type =
    type == "#microsoft.graph.group"
    || (type == "#microsoft.graph.device"
        || (type == "#microsoft.graph.servicePrincipal" || type == "#microsoft.graph.orgContact"))

unfoldable pub user_with : User → RawMail → Result User
user_with user omitted = err (text "missing or invalid Graph user mail")
user_with user no_text = err (text "missing or invalid Graph user mail")
user_with user null = ok user
user_with user (mail m) = ok (record user { mail = m })

-- A member that is no user adds nothing.
unfoldable pub accept_user : GraphMember → Result User
accept_user member =
    if not (member.type == "#microsoft.graph.user")
    then err (text "missing or unknown Graph group member type")
    else if member.user.user_principal_name == ""
    then err limited_user_data
    else user_with member.user member.raw_mail

-- groupUsers
unfoldable pub group_users : List GraphMember → Result (List User)
group_users [] = ok []
group_users (member ∷ members) =
    let rest = group_users members in
    if member.user.id == ""
    then err (text "incomplete Graph group member")
    else if passed_over member.type
    then rest
    else and_then (accept_user member) rest
