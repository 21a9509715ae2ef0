-- ===== src/Rolesync/Planner/Patches.antt =====
-- What BuildPlan returns, as a whole.
use miniziti_operator.Prelude.{
  ◌≤◌, String, ◌≡◌, ◌≢◌, false, not, ◌&&◌, List, [], ◌∷◌, arith, ◌⊎◌, inl, inr, ltb, length,
  if◌then◌else◌,
}
use miniziti_operator.Strings.{CaseTables}
use miniziti_operator.Maps.{keys}
use miniziti_operator.Errors.{ok, err, no_user_roles}
use miniziti_operator.Rolesync.Ownership.{sorted_set, resolve_ownership}
use miniziti_operator.Rolesync.Plan.{Input, PlanResult}
use miniziti_operator.Rolesync.Matching.{member_grants, identity_index}
use miniziti_operator.Rolesync.Matching.Members.{member_grants-OnlyReports}
use miniziti_operator.Rolesync.Planner.{
  Index, Scan, without, count_missing, start_plan, scan_input, finish_plan, build_plan,
}
use miniziti_operator.Rolesync.Planner.Expected.{
  holders_for, patches_for, held_now, held_then, matched_in,
}
use miniziti_operator.Rolesync.Planner.Pass.{Scanned, scan_identities_lem}

module _ (u : CaseTables) (input : Input) where
  abbrev pub managed_of : List String
  managed_of = sorted_set (input.scope.current_values ∷ input.self.managed_attributes ∷ [])

  abbrev pub grants_of : List (String × List String)
  grants_of = (member_grants u input (start_plan u input)).grants

  abbrev pub index_of : Index
  index_of = identity_index u input.identities

  -- The plan, field by field, from the input alone.
  pub record Plans (r : PlanResult) : Type 0 where
    pub current : r.current_values ≡ input.scope.current_values
    pub managed : r.managed_values ≡ managed_of
    pub ownership :
        r.ownership
        ≡ resolve_ownership
            (record { self = input.self; candidates = managed_of; others = input.other_claims })
    pub missing : r.members_without_identity ≡ count_missing u index_of (keys grants_of)
    pub patches : r.patches ≡ (
        if ltb 0 (length r.ownership.conflicts)
        then []
        else patches_for u input.identity_owners index_of grants_of managed_of input.identities)
    pub holders :
        r.retirement_holders
        ≡ holders_for
            (without input.self.managed_attributes input.scope.current_values)
            input.identities
    pub matched :
        r.matched_identities
        ≡ matched_in u input.identity_owners index_of grants_of managed_of input.identities
    pub removes_all : r.would_remove_all ≡ (
        held_now u input.identity_owners index_of grants_of managed_of input.identities
        && not (held_then u input.identity_owners index_of grants_of managed_of input.identities))
    pub bounded : length r.unmatched_members ≤ 50

  abbrev scan_start : Scan
  scan_start =
      let matched = member_grants u input (start_plan u input) in
      record {
        result = record (matched.result) {
          members_without_identity = count_missing u index_of (keys grants_of);
        };
        had_managed = false;
        will_have_managed = false;
      }

  scan_input_lem :
      Scanned u input.identity_owners index_of grants_of managed_of
        (without input.self.managed_attributes input.scope.current_values)
        scan_start
        (scan_input u input)
        input.identities
  unfolding scan_input start_plan
  scan_input_lem =
      let (same, holders, bound) =
        member_grants-OnlyReports u input (start_plan u input) (omega arith) in
      scan_identities_lem u input.identity_owners index_of grants_of managed_of
        (without input.self.managed_attributes input.scope.current_values) scan_start
        input.identities same.managed_same bound

  finish_plan-Plans : Plans (finish_plan u (scan_input u input))
  unfolding finish_plan start_plan
  finish_plan-Plans =
      let (same, holders, _) =
        member_grants-OnlyReports u input (start_plan u input) (omega arith) in
      ground (arith, scan_input_lem, same, holders)

  build_plan_cases :
      ((input.scope.current_values ≡ []) × (build_plan u input ≡ err no_user_roles))
      ⊎ ((input.scope.current_values ≢ [])
          × (build_plan u input ≡ ok (finish_plan u (scan_input u input))))
  unfolding build_plan
  build_plan_cases = ground arith

  -- BuildPlan fails, with ErrNoUserRoles, exactly when the scope has no values; else its plan is the
  -- one that the input determines: a patch for each eligible identity that does not hold what it
  -- should, unless an attribute is in conflict; the holders of retired attributes; whether the last
  -- managed attribute would go; at most 50 reports.
  pub build_plan-exact :
      ((input.scope.current_values ≡ []) × (build_plan u input ≡ err no_user_roles))
      ⊎ ((input.scope.current_values ≢ [])
          × ((r : PlanResult) × (build_plan u input ≡ ok r) × Plans r))
  build_plan-exact = elim build_plan_cases [
    | inl fails ↦ inl fails
    | inr (some_left, plans) ↦
        inr (some_left, (finish_plan u (scan_input u input), plans, finish_plan-Plans))
  ]

  -- A plan that BuildPlan returned is the one that the input determines.
  pub build_plan-Plans : {r : PlanResult} → build_plan u input ≡ ok r → Plans r
  build_plan-Plans {r} e = elim build_plan-exact [
    | inl (_, failed) ↦ cc
    | inr (_, (p, built, plans)) ↦ let same : r ≡ p = cc in rw same plans
  ]
