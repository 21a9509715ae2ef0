-- ===== src/Api/Conditions.antt =====
-- Status conditions: api/v1alpha1/common_types.go and the helpers of
-- internal/controller/reconcile_helpers.go. `FindStatusCondition` and `SetStatusCondition` of
-- apimachinery are a parameter, with what they document.
pub mod Upsert
use miniziti_operator.Prelude.{
  ℕ, String, ◌≡◌, Bool, true, false, not, ◌&&◌, Option, none, some, List, [], ◌∷◌, ◌==◌, eqb,
  if◌then◌else◌,
}

-- metav1.Condition
pub record Condition : Type 0 where
  pub type : String
  pub status : String
  pub reason : String
  pub message : String
  pub observed_generation : ℕ
  pub last_transition_time : ℕ

pub record CommonStatus : Type 0 where
  pub id : String
  pub conditions : List Condition
  pub observed_generation : ℕ
  pub last_error : String

-- What the conditions say, the time of the last change left out.
abbrev pub same_content : Condition → Condition → Bool
same_content a b =
    a.status == b.status
    && (a.reason == b.reason
        && (a.message == b.message && eqb a.observed_generation b.observed_generation))

-- The condition that is found after an upsert says what was written, under the same type; other
-- types are left alone.
abbrev pub FoundAfter : Option Condition → Condition → Type 0
FoundAfter found c =
    (d : Condition) × (found ≡ some d)
    × (d.type ≡ c.type)
    × (d.status ≡ c.status)
    × (d.reason ≡ c.reason)
    × (d.message ≡ c.message)
    × (d.observed_generation ≡ c.observed_generation)

pub record ApiMeta : Type 0 where
  pub find_status_condition : List Condition → String → Option Condition
  pub set_status_condition : List Condition → Condition → List Condition
  pub find-set_self :
      (cs : List Condition) (c : Condition)
      → FoundAfter (find_status_condition (set_status_condition cs c) c.type) c
  pub find-set_ne :
      (cs : List Condition) (c : Condition) (type : String)
      → (c.type == type) ≡ false
      → find_status_condition (set_status_condition cs c) type ≡ find_status_condition cs type

pub kept_time : Condition → Option Condition → Condition
kept_time c none = c
kept_time c (some existing) =
    if same_content existing c
    then record c { last_transition_time = existing.last_transition_time }
    else c

abbrev pub is_condition : Option Condition → String → String → String → Bool
is_condition none status reason message = false
is_condition (some c) status reason message =
    c.status == status && (c.reason == reason && c.message == message)

module _ (m : ApiMeta) where
  -- SetStatusCondition of reconcile_helpers.go
  unfoldable pub set_status_condition : CommonStatus → Condition → CommonStatus
  unfolding kept_time
  set_status_condition status c = record status {
    conditions =
        m.set_status_condition status.conditions
          (kept_time c (m.find_status_condition status.conditions c.type));
  }

  unfoldable pub has_matching_failure_status : CommonStatus → ℕ → String → String → Bool
  has_matching_failure_status status generation reason message =
      eqb status.observed_generation generation
      && (status.last_error == message
          && (is_condition (m.find_status_condition status.conditions "Ready") "False" reason
                message
              && (is_condition (m.find_status_condition status.conditions "Reconciling") "False"
                    reason message
                  && is_condition (m.find_status_condition status.conditions "Degraded") "True"
                      reason message)))

-- RemoveStatusCondition
unfoldable pub remove_status_condition : CommonStatus → String → CommonStatus
remove_status_condition status type = record status { conditions = others status.conditions }
  where
    others : List Condition → List Condition
    others [] = []
    others (c ∷ cs) = let rest = others cs in if not (c.type == type) then c ∷ rest else rest
