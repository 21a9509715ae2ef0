-- ===== src/Rolesync/Matching/Members.antt =====
-- What memberGrants grants to each key, and what it does to the plan.
use miniziti_operator.Prelude.{
  ◌≤◌, String, ◌≡◌, Bool, false, not, ◌&&◌, ◌||◌, List, [], ◌∷◌, arith, eq_iff, ◌==◌, length,
}
use miniziti_operator.Strings.{CaseTables, contains, to_lower}
use miniziti_operator.Maps.{lookup, get_or, lookup-insert}
use miniziti_operator.Entra.{User}
use miniziti_operator.Rolesync.Ownership.{sorted_set}
use miniziti_operator.Rolesync.Ownership.SortedSet.{contains-sorted_set_two}
use miniziti_operator.Rolesync.Scope.{group_ids}
use miniziti_operator.Rolesync.Plan.{Input, PlanResult}
use miniziti_operator.Rolesync.Plan.Reports.{
  OnlyReports, report-OnlyReports, OnlyReports-refl, OnlyReports-trans,
}
use miniziti_operator.Rolesync.Matching.{
  Grants, selected_property, report_missing, grant_user, grant_users, grant_groups, member_grants,
}

module _ (u : CaseTables) where
  -- The user has the key, and the group's values hold `v`.
  abbrev pub user_granted : String → List String → String → String → User → Bool
  user_granted user_property values key v user =
      not (selected_property user user_property == "")
      && (to_lower u (selected_property user user_property) == key && contains values v)

  abbrev pub users_granted : String → List String → String → String → List User → Bool
  users_granted user_property values key v [] = false
  users_granted user_property values key v (user ∷ users) =
      user_granted user_property values key v user || users_granted user_property values key v users

  -- In one of the groups, a member has the key and the group is granted `v`.
  abbrev pub groups_granted : Input → String → String → List String → Bool
  groups_granted input key v [] = false
  groups_granted input key v (group ∷ groups) =
      users_granted input.user_property (get_or [] group input.scope.grants_by_group) key v
        (get_or [] group input.members_by_group)
      || groups_granted input key v groups

  grant_user_lem :
      (user_property : String) (values : List String) (g : Grants) (user : User) (key v : String)
      → contains (get_or [] key (grant_user u user_property values g user).grants) v
        ≡ (contains (get_or [] key g.grants) v || user_granted user_property values key v user)
  unfolding grant_user report_missing
  grant_user_lem user_property values g user key v =
      let own = to_lower u (selected_property user user_property) in
      let held = get_or [] own g.grants in
      ground (
        arith,
        lookup-insert own key (sorted_set (held ∷ values ∷ [])) g.grants,
        contains-sorted_set_two held values v,
        eq_iff own key,
      )

  grant_users_lem :
      (user_property : String) (values : List String) (g : Grants) (users : List User)
      → (key v : String)
      → contains (get_or [] key (grant_users u user_property values g users).grants) v
        ≡ (contains (get_or [] key g.grants) v || users_granted user_property values key v users)
  unfolding grant_users
  grant_users_lem user_property values g [] key v = ground arith
  grant_users_lem user_property values g (user ∷ users) key v = ground (
    arith,
    grant_users_lem user_property values (grant_user u user_property values g user) users key v,
    grant_user_lem user_property values g user key v,
  )

  grant_groups_lem :
      (input : Input) (g : Grants) (groups : List String) (key v : String)
      → contains (get_or [] key (grant_groups u input g groups).grants) v
        ≡ (contains (get_or [] key g.grants) v || groups_granted input key v groups)
  unfolding grant_groups
  grant_groups_lem input g [] key v = ground arith
  grant_groups_lem input g (group ∷ groups) key v =
      let values = get_or [] group input.scope.grants_by_group in
      let users = get_or [] group input.members_by_group in
      ground (
        arith,
        grant_groups_lem input (grant_users u input.user_property values g users) groups key v,
        grant_users_lem input.user_property values g users key v,
      )

  -- A key is granted a value exactly if, in some group of the scope that is granted the value, some
  -- member has a selected property that is not empty and whose lower case is the key.
  pub member_grants-exact :
      (input : Input) (result : PlanResult) (key v : String)
      → contains (get_or [] key (member_grants u input result).grants) v
        ≡ groups_granted input key v (group_ids input.scope)
  unfolding member_grants contains lookup
  member_grants-exact input result key v =
      grant_groups_lem input (record { grants = []; missing = []; result = result })
        (group_ids input.scope) key v

  grant_user-OnlyReports :
      (user_property : String) (values : List String) (g : Grants) (user : User)
      → length g.result.unmatched_members ≤ 50
      → OnlyReports g.result (grant_user u user_property values g user).result
  unfolding grant_user report_missing
  grant_user-OnlyReports user_property values g user b = ground (
    arith,
    report-OnlyReports g.result
        (record {
          id = user.id;
          display_name = user.display_name;
          external_id = "";
          reason = "MissingProperty";
        })
        b,
    OnlyReports-refl g.result b,
  )

  grant_users-OnlyReports :
      (user_property : String) (values : List String) (g : Grants) (users : List User)
      → length g.result.unmatched_members ≤ 50
      → OnlyReports g.result (grant_users u user_property values g users).result
  unfolding grant_users
  grant_users-OnlyReports user_property values g [] b = OnlyReports-refl g.result b
  grant_users-OnlyReports user_property values g (user ∷ users) b =
      let first = grant_user-OnlyReports user_property values g user b in
      OnlyReports-trans first (
        grant_users-OnlyReports user_property values (grant_user u user_property values g user)
          users first.2)

  grant_groups-OnlyReports :
      (input : Input) (g : Grants) (groups : List String)
      → length g.result.unmatched_members ≤ 50
      → OnlyReports g.result (grant_groups u input g groups).result
  unfolding grant_groups
  grant_groups-OnlyReports input g [] b = OnlyReports-refl g.result b
  grant_groups-OnlyReports input g (group ∷ groups) b =
      let values = get_or [] group input.scope.grants_by_group in
      let users = get_or [] group input.members_by_group in
      let first = grant_users-OnlyReports input.user_property values g users b in
      OnlyReports-trans first (
        grant_groups-OnlyReports input (grant_users u input.user_property values g users) groups
          first.2)

  -- memberGrants only adds reports to the plan, and 50 at most are kept.
  pub member_grants-OnlyReports :
      (input : Input) (result : PlanResult)
      → length result.unmatched_members ≤ 50
      → OnlyReports result (member_grants u input result).result
  unfolding member_grants
  member_grants-OnlyReports input result b =
      grant_groups-OnlyReports input (record { grants = []; missing = []; result = result })
        (group_ids input.scope) b
