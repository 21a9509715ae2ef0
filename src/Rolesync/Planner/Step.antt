-- ===== src/Rolesync/Planner/Step.antt =====
-- The parts of the loop's body in BuildPlan, one by one.
use mathlib.Core.List.{append-nil}
use miniziti_operator.Prelude.{
  String, ◌≡◌, Bool, true, false, not, ◌&&◌, List, [], ◌∷◌, ◌++◌, arith, refl, ◌==◌, Bool-cases,
  ◌⊎◌, inl, inr, ltb, length, if◌then◌else◌,
}
use miniziti_operator.Strings.{CaseTables, to_lower}
use miniziti_operator.Maps.{get_or}
use miniziti_operator.Openziti.{Identity}
use miniziti_operator.Rolesync.Ownership.{IdentityOwner}
use miniziti_operator.Rolesync.Plan.{PlanResult, UnmatchedMember, report}
use miniziti_operator.Rolesync.Matching.{identity_owned}
use miniziti_operator.Rolesync.Planner.{
  Index, observe_retirement, unmatched_reason, eligible_identity,
}
use miniziti_operator.Rolesync.Plan.Reports.{SamePlan}
use miniziti_operator.Rolesync.Planner.Expected.{eligible, holders_for}

pub observe_retirement-SamePlan :
    (p : PlanResult) (identity : Identity) (retired : List String)
    → SamePlan p (observe_retirement p identity retired)
unfolding observe_retirement
observe_retirement-SamePlan p identity retired = ground arith

pub observe_retirement-holders :
    (p : PlanResult) (identity : Identity) (retired : List String)
    → ((observe_retirement p identity retired).retirement_holders
        ≡ p.retirement_holders ++ holders_for retired (identity ∷ []))
      × ((observe_retirement p identity retired).unmatched_members ≡ p.unmatched_members)
unfolding observe_retirement
observe_retirement-holders p identity retired = ground (arith, append-nil p.retirement_holders)

module _ (u : CaseTables) (owners : List IdentityOwner) (index : Index) (identity : Identity) where
  reason-blank : (unmatched_reason u identity owners index == "") ≡ (
      not (identity_owned identity owners)
      && not (ltb 1 (length (get_or [] (to_lower u identity.external_id) index))))
  unfolding unmatched_reason
  reason-blank = elim (Bool-cases (identity_owned identity owners)) [
    | inl e ↦ rw e refl
    | inr n ↦ rw n (duplicate (ltb 1 (length (get_or [] (to_lower u identity.external_id) index))))
  ]
    where
      duplicate : (b : Bool) → ((if b then "DuplicateIdentity" else "") == "") ≡ not b
      duplicate true = refl
      duplicate false = refl

  pub eligible_identity-eligible :
      (p : PlanResult)
      → (eligible_identity u identity owners index p).1 ≡ eligible u owners index identity
  unfolding eligible_identity
  eligible_identity-eligible p = ground (arith, reason-blank)

  pub eligible_identity-report :
      (p : PlanResult)
      → ((eligible_identity u identity owners index p).0 ≡ p)
        ⊎ ((m : UnmatchedMember) × ((eligible_identity u identity owners index p).0 ≡ report p m))
  unfolding eligible_identity
  eligible_identity-report p = elim (Bool-cases (identity.external_id == "")) [
    | inl e ↦ inl (rw e)
    | inr n ↦ elim (Bool-cases (unmatched_reason u identity owners index == "")) [
      | inl f ↦ inl (rw (n, f))
      | inr o ↦ inr (
        record {
          id = identity.id;
          display_name = identity.name;
          external_id = identity.external_id;
          reason = unmatched_reason u identity owners index;
        },
        rw (n, o),
      )
    ]
  ]
