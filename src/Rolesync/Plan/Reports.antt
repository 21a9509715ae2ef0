-- ===== src/Rolesync/Plan/Reports.antt =====
-- A report adds an unmatched member, up to 50, and changes nothing else.
use miniziti_operator.Prelude.{
  ◌≤◌, ◌≡◌, ◌∙◌, ◌∷◌, [], arith, Bool-cases, ltb→lt, inl, inr, ltb, length, length-append,
}
use miniziti_operator.Rolesync.Plan.{PlanResult, UnmatchedMember, report}

-- What only the loop's last part changes is the same in both plans.
pub record SamePlan (p q : PlanResult) : Type 0 where
  pub managed_same : q.managed_values ≡ p.managed_values
  pub current_same : q.current_values ≡ p.current_values
  pub ownership_same : q.ownership ≡ p.ownership
  pub missing_same : q.members_without_identity ≡ p.members_without_identity
  pub patches_same : q.patches ≡ p.patches
  pub matched_same : q.matched_identities ≡ p.matched_identities

pub report-SamePlan :
    (p : PlanResult) (m : UnmatchedMember)
    → SamePlan p (report p m) × ((report p m).retirement_holders ≡ p.retirement_holders)
unfolding report
report-SamePlan p m = (ground arith, ground arith)

pub report_bounded :
    (p : PlanResult) (m : UnmatchedMember)
    → length p.unmatched_members ≤ 50
    → length (report p m).unmatched_members ≤ 50
unfolding report
report_bounded p m h = elim (Bool-cases (ltb (length p.unmatched_members) 50)) [
  | inl e ↦ rw e (omega (arith, length-append p.unmatched_members (m ∷ []), ltb→lt _ _ e))
  | inr n ↦ rw n h
]

-- Only reports are added, and 50 at most are kept.
abbrev pub OnlyReports : PlanResult → PlanResult → Type 0
OnlyReports p q =
    SamePlan p q × (q.retirement_holders ≡ p.retirement_holders) × (length q.unmatched_members ≤ 50)

pub report-OnlyReports :
    (p : PlanResult) (m : UnmatchedMember)
    → length p.unmatched_members ≤ 50
    → OnlyReports p (report p m)
report-OnlyReports p m b =
    let (same, holders) = report-SamePlan p m in (same, holders, report_bounded p m b)

pub OnlyReports-refl : (p : PlanResult) → length p.unmatched_members ≤ 50 → OnlyReports p p
OnlyReports-refl p b = ground arith

pub OnlyReports-trans : {p q r : PlanResult} → OnlyReports p q → OnlyReports q r → OnlyReports p r
OnlyReports-trans (s, h, b) (t, k, c) = (
  record {
    managed_same = t.managed_same ∙ s.managed_same;
    current_same = t.current_same ∙ s.current_same;
    ownership_same = t.ownership_same ∙ s.ownership_same;
    missing_same = t.missing_same ∙ s.missing_same;
    patches_same = t.patches_same ∙ s.patches_same;
    matched_same = t.matched_same ∙ s.matched_same;
  },
  k ∙ h,
  c,
)
