-- ===== src/Rolesync/Retirement/Forgetting.antt =====
-- When a run is ready, which reason it reports, and when it forgets a claim.
use miniziti_operator.Prelude.{
  ℕ, ◌+◌, String, ◌≡◌, ◌∙◌, ap, Bool, true, false, not, ◌&&◌, ◌||◌, none, List, [], ◌∷◌, arith,
  refl, ◌==◌, Bool-cases, inl, inr, if◌then◌else◌,
}
use miniziti_operator.Strings.{contains}
use miniziti_operator.Rolesync.Ownership.{sorted_set}
use miniziti_operator.Rolesync.Ownership.SortedSet.{contains-sorted_set_one}
use miniziti_operator.Rolesync.Retirement.{
  OutcomeKind, patched, failed, conflicted, IdentityOutcome, CompletionInput, Completion,
  count_outcome, count_outcomes, retirement_pending, complete_recorded, complete,
}
use miniziti_operator.Rolesync.Retirement.Pending.{may_hold, retirement_pending-exact}

abbrev pub is_patched : OutcomeKind → Bool
is_patched patched = true
is_patched _ = false

abbrev pub is_failed : OutcomeKind → Bool
is_failed failed = true
is_failed _ = false

abbrev pub is_conflict : OutcomeKind → Bool
is_conflict conflicted = true
is_conflict _ = false

abbrev pub any_outcome : (OutcomeKind → Bool) → List IdentityOutcome → Bool
any_outcome test [] = false
any_outcome test (o ∷ outcomes) = test o.kind || any_outcome test outcomes

abbrev pub count_kind : (OutcomeKind → Bool) → List IdentityOutcome → ℕ
count_kind test [] = 0
count_kind test (o ∷ outcomes) =
    let rest = count_kind test outcomes in if test o.kind then rest + 1 else rest

-- What the loop over the outcomes has done to the completion and the flag.
record Counted (s t : Completion × Bool) (outcomes : List IdentityOutcome) : Type 0 where
  managed_same : t.0.managed_attributes ≡ s.0.managed_attributes
  ready_same : t.0.ready ≡ s.0.ready
  advance_same : t.0.advance_last_sync_time ≡ s.0.advance_last_sync_time
  updated : t.0.identities_updated ≡ s.0.identities_updated + count_kind is_patched outcomes
  reason_set : t.0.reason ≡ (if any_outcome is_conflict outcomes then "Conflict" else s.0.reason)
  failed_set : t.1 ≡ (s.1 || any_outcome is_failed outcomes)

count_outcome-Counted :
    (s : Completion × Bool) (kind : OutcomeKind) (o : IdentityOutcome)
    → o.kind ≡ kind
    → Counted s (count_outcome s kind o) (o ∷ [])
unfolding count_outcome
count_outcome-Counted (c, f) patched o e = ground arith
count_outcome-Counted (c, f) failed o e = ground arith
count_outcome-Counted (c, f) conflicted o e = ground arith
count_outcome-Counted (c, f) _ o e = ground arith

count_outcomes-Counted :
    (s : Completion × Bool) (outcomes : List IdentityOutcome)
    → Counted s (count_outcomes s outcomes) outcomes
unfolding count_outcomes
count_outcomes-Counted s [] = ground arith
count_outcomes-Counted s (o ∷ outcomes) = ground (
  arith,
  count_outcome-Counted s o.kind o refl,
  count_outcomes-Counted (count_outcome s o.kind o) outcomes,
)

abbrev pub blocked : CompletionInput → Bool
blocked input =
    any_outcome is_failed input.outcomes
    || (any_outcome is_conflict input.outcomes || not (input.block_reason == ""))

reason_blank :
    (f c : Bool) (s : String)
    → ((if f then "ZitiError" else if c then "Conflict" else s) == "")
      ≡ not (f || (c || not (s == "")))
reason_blank true c s = refl
reason_blank false true s = refl
reason_blank false false s = ground arith

module _ (input : CompletionInput) where
  abbrev counted_from : Completion → Completion × Bool
  counted_from result =
      count_outcomes
        (record result { managed_attributes = sorted_set (input.plan.managed_values ∷ []) }, false)
        input.outcomes

  abbrev judged_from : Completion → Completion
  judged_from result =
      if (counted_from result).1
      then record ((counted_from result).0) { reason = "ZitiError" }
      else (counted_from result).0

  -- The completion after the loop, from the one before it.
  record Judged (result judged : Completion) : Type 0 where
    managed_judged : judged.managed_attributes ≡ sorted_set (input.plan.managed_values ∷ [])
    ready_judged : judged.ready ≡ result.ready
    advance_judged : judged.advance_last_sync_time ≡ result.advance_last_sync_time
    updated_judged :
        judged.identities_updated ≡ result.identities_updated + count_kind is_patched input.outcomes
    reason_judged : judged.reason ≡ (
        if any_outcome is_failed input.outcomes
        then "ZitiError"
        else if any_outcome is_conflict input.outcomes
        then "Conflict"
        else result.reason)

  judged_from-Judged : (result : Completion) → Judged result (judged_from result)
  judged_from-Judged result = ground (
    arith,
    count_outcomes-Counted
        (record result { managed_attributes = sorted_set (input.plan.managed_values ∷ []) }, false)
        input.outcomes,
  )

  complete_recorded_cases :
      (result : Completion)
      → let j = judged_from result in
        complete_recorded input result ≡ (
          if not (j.reason == "")
          then j
          else if retirement_pending input
          then record j { reason = "CleanupPending" }
          else record j {
            managed_attributes = sorted_set (input.plan.current_values ∷ []);
            ready = true;
            reason = "Synced";
            advance_last_sync_time = true;
          })
  unfolding complete_recorded
  complete_recorded_cases result = refl

  -- The status that a run reports, on every branch: a run whose claims are not recorded keeps the
  -- previous claims; it is ready exactly when nothing failed, conflicted or blocked it and no
  -- retirement is pending; only then it narrows the claims to the current values and advances the
  -- time of the last sync; and the reason names the gravest cause.
  pub complete-exact :
      ((complete input).ready
        ≡ (input.claim_recorded && (not (blocked input) && not (retirement_pending input))))
      × ((complete input).managed_attributes ≡ (
          if (complete input).ready
          then sorted_set (input.plan.current_values ∷ [])
          else if input.claim_recorded
          then sorted_set (input.plan.managed_values ∷ [])
          else sorted_set (input.previous_values ∷ [])))
      × ((complete input).advance_last_sync_time ≡ (complete input).ready)
      × ((complete input).identities_updated
          ≡ (if input.claim_recorded then count_kind is_patched input.outcomes else 0))
      × ((complete input).reason ≡ (
          if not input.claim_recorded
          then input.block_reason
          else if any_outcome is_failed input.outcomes
          then "ZitiError"
          else if any_outcome is_conflict input.outcomes
          then "Conflict"
          else if not (input.block_reason == "")
          then input.block_reason
          else if retirement_pending input
          then "CleanupPending"
          else "Synced"))
  unfolding complete
  complete-exact = elim (Bool-cases input.claim_recorded) [
    | inl e ↦ rw e (ground (arith, complete_recorded_cases start, judged_from-Judged start, blank))
    | inr n ↦ rw n (ground arith)
  ]
    where
      start : Completion
      start = record {
        managed_attributes = sorted_set (input.previous_values ∷ []);
        ready = false;
        reason = input.block_reason;
        advance_last_sync_time = false;
        identities_updated = 0;
        error = none;
        conflict_values = sorted_set (input.plan.ownership.conflicts ∷ []);
      }

      blank : ((judged_from start).reason == "") ≡ not (blocked input)
      blank =
          ap (λ r. r == "") (judged_from-Judged start).reason_judged
          ∙ reason_blank (any_outcome is_failed input.outcomes)
              (any_outcome is_conflict input.outcomes) input.block_reason

-- A claim is forgotten only when it is safe: let the claims be recorded and an attribute be among
-- the previous claims and the managed values. If the run's claims no longer hold it, it is no current
-- value, and no identity may still hold a retired attribute.
pub complete_forgets :
    (input : CompletionInput) (v id : String)
    → input.claim_recorded ≡ true
    → contains input.plan.managed_values v ≡ true
    → contains (complete input).managed_attributes v ≡ false
    → (contains input.plan.current_values v ≡ false) × (may_hold input id ≡ false)
complete_forgets input v id recorded managed gone =
    let (ready, claims, _, _, _) = complete-exact input in
    elim (Bool-cases (complete input).ready) [
      | inl e ↦
          let here = ap (λ (l : List String). contains l v) claims in
          let settled : retirement_pending input ≡ false = ground (arith, ready) in
          (
            ground (arith, here, contains-sorted_set_one input.plan.current_values v),
            (retirement_pending-exact input).0 settled id,
          )
      | inr n ↦ let here = ap (λ (l : List String). contains l v) claims in absurd (keeps n here)
    ]
  where
    keeps :
        (complete input).ready ≡ false
        → contains (complete input).managed_attributes v
          ≡ contains
              (if (complete input).ready
                then sorted_set (input.plan.current_values ∷ [])
                else if input.claim_recorded
                then sorted_set (input.plan.managed_values ∷ [])
                else sorted_set (input.previous_values ∷ []))
              v
        → ⊥
    keeps n here = ground (arith, here, contains-sorted_set_one input.plan.managed_values v)
