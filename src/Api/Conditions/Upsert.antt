-- ===== src/Api/Conditions/Upsert.antt =====
-- What a status condition says after it was set.
use miniziti_operator.Prelude.{
  ℕ, String, ◌≡◌, refl, true, false, Option, none, some, ◌==◌, eq_iff, Bool-cases, inl, inr,
}
use miniziti_operator.Api.Conditions.{
  Condition, CommonStatus, same_content, FoundAfter, ApiMeta, kept_time, set_status_condition,
  is_condition,
}

pub same_text : (s : String) → (s == s) ≡ true
same_text s = (eq_iff s s).1 refl

is_condition-FoundAfter :
    (found : Option Condition) (c : Condition)
    → FoundAfter found c
    → is_condition found c.status c.reason c.message ≡ true
is_condition-FoundAfter found c (d, e, _, s, r, m, _) =
    rw (e, s, r, m, same_text c.status, same_text c.reason, same_text c.message) refl

-- Only the time of a condition may be replaced.
kept_time_cases :
    (c : Condition) (existing : Option Condition)
    → (time : ℕ) × (kept_time c existing ≡ record c { last_transition_time = time })
unfolding kept_time
kept_time_cases c none = (c.last_transition_time, refl)
kept_time_cases c (some existing) = elim (Bool-cases (same_content existing c)) [
  | inl e ↦ (existing.last_transition_time, rw e refl)
  | inr e ↦ (c.last_transition_time, rw e refl)
]

pub find-set_status_condition :
    (m : ApiMeta) (status : CommonStatus) (c : Condition)
    → is_condition
        (m.find_status_condition (set_status_condition m status c).conditions c.type)
        c.status
        c.reason
        c.message
      ≡ true
unfolding set_status_condition
find-set_status_condition m status c =
    let (time, e) = kept_time_cases c (m.find_status_condition status.conditions c.type) in
    rw e (
      is_condition-FoundAfter _ (record c { last_transition_time = time })
        (m.find-set_self status.conditions (record c { last_transition_time = time })))

pub find-set_status_condition_ne :
    (m : ApiMeta) (status : CommonStatus) (c : Condition) (type : String)
    → (c.type == type) ≡ false
    → m.find_status_condition (set_status_condition m status c).conditions type
      ≡ m.find_status_condition status.conditions type
unfolding set_status_condition
find-set_status_condition_ne m status c type ne =
    let (time, e) = kept_time_cases c (m.find_status_condition status.conditions c.type) in
    rw e (m.find-set_ne status.conditions (record c { last_transition_time = time }) type ne)

-- After three conditions of different types were set, each says what was written.
pub found_of_three :
    (m : ApiMeta) (status : CommonStatus) (a b c : Condition)
    → (b.type == a.type) ≡ false
    → (c.type == a.type) ≡ false
    → (c.type == b.type) ≡ false
    → let found : String → Option Condition =
        m.find_status_condition
          (set_status_condition m
            (set_status_condition m (set_status_condition m status a) b)
            c).conditions in
      (is_condition (found a.type) a.status a.reason a.message ≡ true)
      × (is_condition (found b.type) b.status b.reason b.message ≡ true)
      × (is_condition (found c.type) c.status c.reason c.message ≡ true)
found_of_three m status a b c ba ca cb =
    let s = set_status_condition m status a in
    let s' = set_status_condition m s b in
    let keeps : (x y : Condition) (t : CommonStatus)
        → (y.type == x.type) ≡ false
        → is_condition (m.find_status_condition t.conditions x.type) x.status x.reason x.message
          ≡ true
        → is_condition (m.find_status_condition (set_status_condition m t y).conditions x.type)
            x.status x.reason x.message
          ≡ true =
      λ x y t ne h. rw (find-set_status_condition_ne m t y x.type ne) h in
    (
      keeps a c s' ca (keeps a b s ba (find-set_status_condition m status a)),
      keeps b c s' cb (find-set_status_condition m s b),
      find-set_status_condition m s' c,
    )
