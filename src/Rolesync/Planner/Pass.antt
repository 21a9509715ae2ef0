-- ===== src/Rolesync/Planner/Pass.antt =====
-- The loop of BuildPlan over the identities, against what it is to find for each of them.
use mathlib.Core.List.{append-nil, append_assoc}
use miniziti_operator.Prelude.{
  ◌+◌, ◌≤◌, String, ◌≡◌, ◌∙◌, ap, Bool, true, false, ◌||◌, List, [], ◌∷◌, ◌++◌, arith, Bool-cases,
  inl, inr, length,
}
use miniziti_operator.Strings.{CaseTables}
use miniziti_operator.Openziti.{Identity}
use miniziti_operator.Rolesync.Ownership.{IdentityOwner}
use miniziti_operator.Rolesync.Plan.{PlanResult}
use miniziti_operator.Rolesync.Planner.{
  Index, Scan, observe_retirement, eligible_identity, plan_identity, scan_identity, scan_identities,
}
use miniziti_operator.Rolesync.Plan.Reports.{SamePlan, report-SamePlan, report_bounded}
use miniziti_operator.Rolesync.Planner.Expected.{
  eligible, holders_for, patches_for, held_now, held_then, matched_in,
}
use miniziti_operator.Rolesync.Planner.Step.{
  observe_retirement-SamePlan, observe_retirement-holders, eligible_identity-eligible,
  eligible_identity-report,
}

module _ (u : CaseTables) (owners : List IdentityOwner) (index : Index)
    (grants : List (String × List String)) (managed retired : List String) where
  -- What the loop has done to the plan, from `s` to `t`, over these identities.
  pub record Scanned (s t : Scan) (identities : List Identity) : Type 0 where
    pub managed_kept : t.result.managed_values ≡ managed
    pub current_kept : t.result.current_values ≡ s.result.current_values
    pub ownership_kept : t.result.ownership ≡ s.result.ownership
    pub missing_kept : t.result.members_without_identity ≡ s.result.members_without_identity
    pub patches_added :
        t.result.patches ≡ s.result.patches ++ patches_for u owners index grants managed identities
    pub holders_added :
        t.result.retirement_holders ≡ s.result.retirement_holders ++ holders_for retired identities
    pub matched_added :
        t.result.matched_identities
        ≡ s.result.matched_identities + matched_in u owners index grants managed identities
    pub had_added :
        t.had_managed ≡ (s.had_managed || held_now u owners index grants managed identities)
    pub will_added :
        t.will_have_managed
        ≡ (s.will_have_managed || held_then u owners index grants managed identities)
    pub reports_bounded : length t.result.unmatched_members ≤ 50

  -- What comes before the eligible identity is planned.
  admitted : PlanResult → Identity → PlanResult × Bool
  admitted p identity =
      eligible_identity u identity owners index (observe_retirement p identity retired)

  admitted-SamePlan :
      (p : PlanResult) (identity : Identity)
      → SamePlan p (admitted p identity).0
        × ((admitted p identity).0.retirement_holders
            ≡ p.retirement_holders ++ holders_for retired (identity ∷ []))
  unfolding admitted
  admitted-SamePlan p identity =
      let o = observe_retirement p identity retired in
      let same = observe_retirement-SamePlan p identity retired in
      let holders = observe_retirement-holders p identity retired in
      elim (eligible_identity-report u owners index identity o) [
        | inl e ↦ rw e (same, holders.0)
        | inr (m, e) ↦ rw e (ground (arith, report-SamePlan o m))
      ]

  admitted_bounded :
      (p : PlanResult) (identity : Identity)
      → length p.unmatched_members ≤ 50
      → length (admitted p identity).0.unmatched_members ≤ 50
  unfolding admitted
  admitted_bounded p identity b =
      let o = observe_retirement p identity retired in
      let same : length o.unmatched_members ≤ 50 =
        rw ((observe_retirement-holders p identity retired).1) b in
      elim (eligible_identity-report u owners index identity o) [
        | inl e ↦ rw e same
        | inr (m, e) ↦ rw e (report_bounded o m same)
      ]

  skipped :
      (s : Scan) (p : PlanResult) (identity : Identity)
      → s.result.managed_values ≡ managed
      → SamePlan s.result p
      → p.retirement_holders ≡ s.result.retirement_holders ++ holders_for retired (identity ∷ [])
      → length p.unmatched_members ≤ 50
      → eligible u owners index identity ≡ false
      → Scanned s (record s { result = p }) (identity ∷ [])
  skipped s p identity m same holders b e = ground (arith, append-nil s.result.patches)

  planned :
      (s : Scan) (p : PlanResult) (identity : Identity)
      → s.result.managed_values ≡ managed
      → SamePlan s.result p
      → p.retirement_holders ≡ s.result.retirement_holders ++ holders_for retired (identity ∷ [])
      → length p.unmatched_members ≤ 50
      → eligible u owners index identity ≡ true
      → Scanned s (plan_identity u grants (record s { result = p }) identity) (identity ∷ [])
  unfolding plan_identity
  planned s p identity m same holders b e = ground (arith, append-nil s.result.patches)

  -- One round of the loop.
  scan_identity_lem :
      (s : Scan) (identity : Identity)
      → s.result.managed_values ≡ managed
      → length s.result.unmatched_members ≤ 50
      → Scanned s (scan_identity u owners index grants retired s identity) (identity ∷ [])
  unfolding scan_identity admitted
  scan_identity_lem s identity m b =
      let o = observe_retirement s.result identity retired in
      let (same, holders) = admitted-SamePlan s.result identity in
      let bound = admitted_bounded s.result identity b in
      let p = (admitted s.result identity).0 in
      let test = eligible_identity-eligible u owners index identity o in
      elim (Bool-cases (eligible u owners index identity)) [
        | inl e ↦ rw (test ∙ e) (planned s p identity m same holders bound e)
        | inr n ↦ rw (test ∙ n) (skipped s p identity m same holders bound n)
      ]

  Scanned-cons :
      {s r t : Scan} {identity : Identity} {identities : List Identity}
      → Scanned s r (identity ∷ [])
      → Scanned r t identities
      → Scanned s t (identity ∷ identities)
  Scanned-cons {s} {r} {t} {identity} {identities} h k = record {
    managed_kept = k.managed_kept;
    current_kept = k.current_kept ∙ h.current_kept;
    ownership_kept = k.ownership_kept ∙ h.ownership_kept;
    missing_kept = k.missing_kept ∙ h.missing_kept;
    patches_added =
        k.patches_added
        ∙ ap (λ l. l ++ patches_for u owners index grants managed identities) h.patches_added
        ∙ ground (
          arith,
          append_assoc s.result.patches (patches_for u owners index grants managed (identity ∷ []))
              (patches_for u owners index grants managed identities),
        );
    holders_added =
        k.holders_added
        ∙ ap (λ l. l ++ holders_for retired identities) h.holders_added
        ∙ ground (
          arith,
          append_assoc s.result.retirement_holders (holders_for retired (identity ∷ []))
              (holders_for retired identities),
        );
    matched_added = ground (arith, h.matched_added, k.matched_added);
    had_added = ground (arith, h.had_added, k.had_added);
    will_added = ground (arith, h.will_added, k.will_added);
    reports_bounded = k.reports_bounded;
  }

  -- The whole loop.
  pub scan_identities_lem :
      (s : Scan) (identities : List Identity)
      → s.result.managed_values ≡ managed
      → length s.result.unmatched_members ≤ 50
      → Scanned s (scan_identities u owners index grants retired s identities) identities
  unfolding scan_identities
  scan_identities_lem s [] m b =
      ground (arith, append-nil s.result.patches, append-nil s.result.retirement_holders)
  scan_identities_lem s (identity ∷ identities) m b =
      let first = scan_identity_lem s identity m b in
      Scanned-cons first (
        scan_identities_lem (scan_identity u owners index grants retired s identity) identities
          first.managed_kept first.reports_bounded)
