-- ===== src/Rolesync/Retirement.antt =====
-- internal/rolesync/retirement.go: what a run of a role sync has achieved, and whether the claims
-- on retired attributes may be forgotten.
pub mod Pending
pub mod Forgetting
use miniziti_operator.Prelude.{
  ℕ, ◌+◌, String, Bool, true, false, not, ◌&&◌, ◌||◌, Option, none, some, List, [], ◌∷◌, ◌==◌, ltb,
  eqb, length, if◌then◌else◌,
}
use miniziti_operator.Strings.{contains}
use miniziti_operator.Maps.{lookup, insert, delete, get_or}
use miniziti_operator.Errors.{Err, is_context_error}
use miniziti_operator.Rolesync.Ownership.{sorted_set}
use miniziti_operator.Rolesync.Plan.{PlanResult, RetirementHolder}
use miniziti_operator.Rolesync.Planner.{without, within}

pub data OutcomeKind : Type 0 where
  observed patched deleted skipped failed conflicted : OutcomeKind

pub record IdentityOutcome : Type 0 where
  pub identity_id : String
  pub kind : OutcomeKind
  pub role_attributes : List String
  pub error : Option Err
  pub conflict_values : List String

abbrev is_conflicted : OutcomeKind → Bool
is_conflicted conflicted = true
is_conflicted _ = false

-- IdentityOutcome.StopsWrites; errors.Is(nil, …) is false.
unfoldable pub stops_writes : IdentityOutcome → Bool
unfolding is_context_error
stops_writes o = is_conflicted o.kind || elim o.error [ none ↦ false | some e ↦ is_context_error e ]

pub record CompletionInput : Type 0 where
  pub plan : PlanResult
  pub previous_values : List String
  pub outcomes : List IdentityOutcome
  pub block_reason : String
  pub claim_recorded : Bool

pub record Completion : Type 0 where
  pub managed_attributes : List String
  pub ready : Bool
  pub reason : String
  pub advance_last_sync_time : Bool
  pub identities_updated : ℕ
  pub error : Option Err
  pub conflict_values : List String

-- The loop over the outcomes: the completion, and whether one of them failed.
count_outcome : Completion × Bool → OutcomeKind → IdentityOutcome → Completion × Bool
unfolding sorted_set
count_outcome (c, any_failed) patched o =
    (record c { identities_updated = c.identities_updated + 1 }, any_failed)
count_outcome (c, any_failed) failed o =
    (elim c.error [ none ↦ record c { error = o.error } | some _ ↦ c ], true)
count_outcome (c, any_failed) conflicted o = (
  record c {
    reason = "Conflict";
    conflict_values = sorted_set (c.conflict_values ∷ o.conflict_values ∷ []);
  },
  any_failed,
)
count_outcome s _ o = s

pub count_outcomes : Completion × Bool → List IdentityOutcome → Completion × Bool
unfolding count_outcome
count_outcomes s [] = s
count_outcomes s (o ∷ outcomes) = count_outcomes (count_outcome s o.kind o) outcomes

seed_holders : List (String × List String) → List RetirementHolder → List (String × List String)
unfolding insert lookup sorted_set
seed_holders holders [] = holders
seed_holders holders (h ∷ rest) =
    seed_holders
      (insert h.identity_id (sorted_set (get_or [] h.identity_id holders ∷ h.values ∷ [])) holders)
      rest

see_attributes :
    List String → IdentityOutcome → List (String × List String) → List (String × List String)
unfolding within insert delete sorted_set
see_attributes retired o holders =
    let values = within retired o.role_attributes in
    if eqb (length values) 0
    then delete o.identity_id holders
    else insert o.identity_id (sorted_set (values ∷ [])) holders

see_outcome :
    List String
    → OutcomeKind
    → IdentityOutcome
    → List (String × List String)
    → List (String × List String)
unfolding see_attributes
see_outcome retired deleted o holders = delete o.identity_id holders
see_outcome retired observed o holders = see_attributes retired o holders
see_outcome retired patched o holders = see_attributes retired o holders
see_outcome retired skipped o holders = see_attributes retired o holders
see_outcome retired _ o holders = holders

see_outcomes :
    List String → List (String × List String) → List IdentityOutcome → List (String × List String)
unfolding see_outcome
see_outcomes retired holders [] = holders
see_outcomes retired holders (o ∷ outcomes) =
    see_outcomes retired (see_outcome retired o.kind o holders) outcomes

unfoldable pub retirement_pending : CompletionInput → Bool
unfolding see_outcomes seed_holders without
retirement_pending input = ltb 0 (
    length (
      see_outcomes (without input.previous_values input.plan.current_values)
        (seed_holders [] input.plan.retirement_holders) input.outcomes))

-- Complete, after the early return for a claim that is not recorded.
complete_recorded : CompletionInput → Completion → Completion
unfolding sorted_set count_outcomes retirement_pending
complete_recorded input result =
    let (counted, any_failed) =
      count_outcomes
        (record result { managed_attributes = sorted_set (input.plan.managed_values ∷ []) }, false)
        input.outcomes in
    let judged = if any_failed then record counted { reason = "ZitiError" } else counted in
    if not (judged.reason == "")
    then judged
    else if retirement_pending input
    then record judged { reason = "CleanupPending" }
    else record judged {
      managed_attributes = sorted_set (input.plan.current_values ∷ []);
      ready = true;
      reason = "Synced";
      advance_last_sync_time = true;
    }

unfoldable pub complete : CompletionInput → Completion
unfolding complete_recorded
complete input =
    let result : Completion = record {
      managed_attributes = sorted_set (input.previous_values ∷ []);
      ready = false;
      reason = input.block_reason;
      advance_last_sync_time = false;
      identities_updated = 0;
      error = none;
      conflict_values = sorted_set (input.plan.ownership.conflicts ∷ []);
    } in
    if not input.claim_recorded then result else complete_recorded input result
