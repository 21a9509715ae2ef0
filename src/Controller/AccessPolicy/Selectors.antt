-- ===== src/Controller/AccessPolicy/Selectors.antt =====
-- The selectors of zitiaccesspolicy_controller.go: what they match, and how the matches are counted.
pub mod Matches
use miniziti_operator.Prelude.{
  ℕ, ◌+◌, String, Bool, true, false, not, ◌||◌, ◌&&◌, Option, none, some, List, [], ◌∷◌, ◌==◌,
  if◌then◌else◌,
}
use miniziti_operator.Strings.{contains}
use miniziti_operator.Errors.{Err, text}
use miniziti_operator.Openziti.{Identity}
use miniziti_operator.Openziti.Policy.{snoc}
use miniziti_operator.Api.{SelectorSpec, ZitiAccessPolicy, ZitiIdentity, ZitiService}

unfoldable pub matches_names : List String → String → Bool
matches_names [] name = false
matches_names (candidate ∷ candidates) name =
    if candidate == name then true else matches_names candidates name

matches_attributes : List String → List String → Bool
unfolding contains
matches_attributes [] attributes = false
matches_attributes (candidate ∷ candidates) attributes =
    if contains attributes candidate then true else matches_attributes candidates attributes

unfoldable pub matches_selector : SelectorSpec → String → List String → Bool
unfolding matches_names matches_attributes
matches_selector selector name attributes =
    if matches_names selector.match_names name
    then true
    else matches_attributes selector.match_role_attributes attributes

is_empty : List String → Bool
is_empty [] = true
is_empty (x ∷ xs) = false

unfoldable pub selector_defined : SelectorSpec → Bool
unfolding is_empty
selector_defined selector =
    not (is_empty selector.match_names) || not (is_empty selector.match_role_attributes)

unfoldable pub append_unique : List String → String → List String
unfolding contains snoc
append_unique values value =
    if value == "" || contains values value then values else snoc values value

-- validateAccessPolicySpec
unfoldable pub validate_access_policy_spec : ZitiAccessPolicy → Option Err
unfolding selector_defined
validate_access_policy_spec policy =
    if not (policy.spec.type == "Dial" || policy.spec.type == "Bind")
    then some (text "spec.type must be Dial or Bind")
    else if not (selector_defined policy.spec.identity_selector)
    then some (text "spec.identitySelector must define at least one match field")
    else if not (selector_defined policy.spec.service_selector)
    then some (text "spec.serviceSelector must define at least one match field")
    else none

-- What the selector loops read of a ZitiIdentity and of a ZitiService.
pub record Selectable : Type 0 where
  pub name : String
  pub role_attributes : List String
  pub id : String

abbrev pub identity_item : ZitiIdentity → Selectable
identity_item item = record {
  name = item.spec.name;
  role_attributes = item.spec.role_attributes;
  id = item.status.common.id;
}

abbrev pub service_item : ZitiService → Selectable
service_item item = record {
  name = item.spec.name;
  role_attributes = item.spec.role_attributes;
  id = item.status.common.id;
}

abbrev pub backend_item : Identity → Selectable
backend_item identity = record {
  name = identity.name;
  role_attributes = identity.role_attributes;
  id = identity.id;
}

-- The ids, the count and the pending count of one selector of a selectorResolution.
pub record Tally : Type 0 where
  pub ids : List String
  pub count : ℕ
  pub pending : ℕ

abbrev pub no_matches : Tally
no_matches = record { ids = []; count = 0; pending = 0 }

-- The body of the loops of resolveSelectors.
pub tally_item : SelectorSpec → Tally → Selectable → Tally
unfolding matches_selector
tally_item selector tally item =
    if not (matches_selector selector item.name item.role_attributes)
    then tally
    else if matches_names selector.match_names item.name
    then (if item.id == ""
        then record tally { pending = tally.pending + 1 }
        else record tally { ids = append_unique tally.ids item.id; count = tally.count + 1 })
    else record tally { count = tally.count + 1 }

-- A loop of resolveSelectors.
unfoldable pub tally_items : SelectorSpec → Tally → List Selectable → Tally
unfolding tally_item
tally_items selector tally [] = tally
tally_items selector tally (item ∷ items) =
    tally_items selector (tally_item selector tally item) items

-- The body of the loop of resolveBackendIdentitySelector.
pub tally_backend_item : SelectorSpec → Tally → Selectable → Tally
unfolding matches_selector
tally_backend_item selector tally item =
    if not (matches_selector selector item.name item.role_attributes)
    then tally
    else if matches_names selector.match_names item.name && not (item.id == "")
    then record tally { ids = append_unique tally.ids item.id; count = tally.count + 1 }
    else record tally { count = tally.count + 1 }

unfoldable pub tally_backend : SelectorSpec → Tally → List Selectable → Tally
unfolding tally_backend_item
tally_backend selector tally [] = tally
tally_backend selector tally (item ∷ items) =
    tally_backend selector (tally_backend_item selector tally item) items
