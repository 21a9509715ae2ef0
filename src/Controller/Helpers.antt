-- ===== src/Controller/Helpers.antt =====
-- internal/controller/reconcile_helpers.go: finalizers, and what the reconcilers of identities, services
-- and access policies share: the outcome of a run and the conditions that it sets.
use miniziti_operator.Prelude.{
  ℕ, String, Bool, true, false, not, Option, none, some, List, [], ◌∷◌, ◌==◌, if◌then◌else◌,
}
use miniziti_operator.Strings.{contains}
use miniziti_operator.Errors.{Err}
use miniziti_operator.Openziti.Policy.{snoc}
use miniziti_operator.Api.Conditions.{ApiMeta, Condition, CommonStatus, set_status_condition}

-- ctrl.Result and the error.
pub record Done : Type 0 where
  pub requeue : Bool
  pub error : Option Err

abbrev pub done : Done
done = record { requeue = false; error = none }

abbrev pub failed : Err → Done
failed e = record { requeue = false; error = some e }

abbrev pub requeued : Done
requeued = record { requeue = true; error = none }

-- The end of a markFailed: RequeueWithError, or no error.
abbrev pub retried : Bool → Err → Done
retried retryable e = if retryable then failed e else done

pub others : List String → String → List String
others [] v = []
others (x ∷ xs) v = let rest = others xs v in if not (x == v) then x ∷ rest else rest

-- EnsureFinalizer: the finalizers, and whether they changed.
unfoldable pub ensure_finalizer : List String → String → List String × Bool
unfolding contains snoc
ensure_finalizer finalizers v =
    if contains finalizers v then (finalizers, false) else (snoc finalizers v, true)

-- RemoveFinalizer
unfoldable pub remove_finalizer : List String → String → List String × Bool
unfolding contains others
remove_finalizer finalizers v =
    if not (contains finalizers v) then (finalizers, false) else (others finalizers v, true)

-- The three conditions of markReady and markFailed, at the time `now`.
unfoldable pub set_conditions :
    ApiMeta
    → ℕ
    → ℕ
    → CommonStatus
    → String × String × String
    → String × String × String
    → String × String × String
    → CommonStatus
unfolding set_status_condition
set_conditions m now generation status ready reconciling degraded =
    let condition : String → String × String × String → Condition = λ type c. record {
      type = type;
      status = c.0;
      reason = c.1;
      message = c.2;
      observed_generation = generation;
      last_transition_time = now;
    } in
    set_status_condition m
      (set_status_condition m (set_status_condition m status (condition "Ready" ready))
        (condition "Reconciling" reconciling))
      (condition "Degraded" degraded)

-- The status after markReady and after markFailed, at the time `now`; `success` is the message.
abbrev pub ready_status : ApiMeta → ℕ → ℕ → CommonStatus → String → CommonStatus
ready_status m now generation status success =
    set_conditions m now generation
      (record status { observed_generation = generation; last_error = "" })
      ("True", "Reconciled", success) ("False", "Idle", "No reconciliation in progress")
      ("False", "AsExpected", "No actionable reconciliation errors")

abbrev pub failed_status : ApiMeta → ℕ → ℕ → CommonStatus → String → String → CommonStatus
failed_status m now generation status reason message =
    set_conditions m now generation
      (record status { observed_generation = generation; last_error = message })
      ("False", reason, message) ("False", reason, message) ("True", reason, message)
