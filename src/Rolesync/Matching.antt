-- ===== src/Rolesync/Matching.antt =====
-- internal/rolesync/matching.go: which identity a group member is, and what it is granted.
pub mod Members
pub mod Shared
use miniziti_operator.Prelude.{
  String, Bool, true, false, not, ◌&&◌, ◌||◌, List, [], ◌∷◌, ◌++◌, ◌==◌, if◌then◌else◌,
}
use miniziti_operator.Strings.{CaseTables, contains, to_lower}
use miniziti_operator.Maps.{lookup, insert, get_or}
use miniziti_operator.Entra.{User}
use miniziti_operator.Openziti.{Identity}
use miniziti_operator.Rolesync.Ownership.{IdentityOwner, sorted_set}
use miniziti_operator.Rolesync.Scope.{group_ids}
use miniziti_operator.Rolesync.Plan.{Input, PlanResult, report}

unfoldable pub identity_owned : Identity → List IdentityOwner → Bool
identity_owned identity [] = false
identity_owned identity (owner ∷ owners) =
    (not (owner.identity_id == "") && identity.id == owner.identity_id)
    || ((not (owner.identity_name == "") && identity.name == owner.identity_name)
        || identity_owned identity owners)

unfoldable pub selected_property : User → String → String
selected_property user property =
    if property == "id"
    then user.id
    else if property == "userPrincipalName"
    then user.user_principal_name
    else user.mail

-- The variables of memberGrants: the map it returns, the users it has reported, and the plan.
pub record Grants : Type 0 where
  pub grants : List (String × List String)
  pub missing : List String
  pub result : PlanResult

pub report_missing : Grants → User → Grants
unfolding report contains
report_missing g user = if contains g.missing user.id then g else record g {
  result = report g.result (record {
    id = user.id;
    display_name = user.display_name;
    external_id = "";
    reason = "MissingProperty";
  });
  missing = user.id ∷ g.missing;
}

module _ (u : CaseTables) where
  -- The body of the inner loop of memberGrants, for a user of a group with these grants.
  pub grant_user : String → List String → Grants → User → Grants
  unfolding report_missing selected_property sorted_set to_lower insert lookup
  grant_user user_property values g user =
      let property = selected_property user user_property in
      let key = to_lower u property in
      if property == "" then report_missing g user else record g {
        grants = insert key (sorted_set (get_or [] key g.grants ∷ values ∷ [])) g.grants;
      }

  pub grant_users : String → List String → Grants → List User → Grants
  unfolding grant_user
  grant_users user_property values g [] = g
  grant_users user_property values g (user ∷ users) =
      grant_users user_property values (grant_user user_property values g user) users

  pub grant_groups : Input → Grants → List String → Grants
  unfolding grant_users lookup
  grant_groups input g [] = g
  grant_groups input g (group ∷ groups) =
      grant_groups input
        (grant_users input.user_property (get_or [] group input.scope.grants_by_group) g
          (get_or [] group input.members_by_group))
        groups

  unfoldable pub member_grants : Input → PlanResult → Grants
  unfolding grant_groups group_ids
  member_grants input result =
      grant_groups input (record { grants = []; missing = []; result = result })
        (group_ids input.scope)

  pub index_from : List (String × List Identity) → List Identity → List (String × List Identity)
  unfolding to_lower insert lookup
  index_from index [] = index
  index_from index (identity ∷ identities) =
      let key = to_lower u identity.external_id in
      index_from
        (if identity.external_id == ""
          then index
          else insert key (get_or [] key index ++ identity ∷ []) index)
        identities

  unfoldable pub identity_index : List Identity → List (String × List Identity)
  unfolding index_from
  identity_index identities = index_from [] identities
