-- ===== src/Controller/AccessPolicy/Effects.antt =====
-- The calls of zitiaccesspolicy_controller.go, what answers them, and what the handlers change in the
-- policy that they hold.
use miniziti_operator.Prelude.{ℕ, String, Bool, Option, List}
use miniziti_operator.Errors.{Err, Result}
use miniziti_operator.Calls.{Calling}
use miniziti_operator.Openziti.{Identity, AccessPolicy}
use miniziti_operator.Openziti.Policy.{ResolvedSelector}
use miniziti_operator.Rolesync.Ownership.{ResourceKey}
use miniziti_operator.Api.{ZitiAccessPolicy, ZitiAccessPolicyStatus, ZitiIdentity, ZitiService}
use miniziti_operator.Api.Conditions.{ApiMeta, CommonStatus}
use miniziti_operator.Controller.AccessPolicy.Selectors.{Tally}

pub data Call : Type 0 where
  get_cached : ResourceKey → Call
  update_resource : ZitiAccessPolicy → Call
  update_status : ZitiAccessPolicy → Call
  list_identities : String → Call
  list_services : String → Call
  list_backend_identities : Call
  find_policy : String → Call
  create_policy : AccessPolicy → Call
  update_policy : AccessPolicy → Call
  delete_policy : String → Call
  emit_normal : String → String → Call
  emit_warning : String → String → Call

pub record Env : Type 0 where
  -- Library code: condition lists, the text of an error with request ids removed, DeepEqual on two
  -- statuses, and the clock.
  pub api_meta : ApiMeta
  pub error_message : Err → String
  pub semantic_equal : ZitiAccessPolicyStatus → ZitiAccessPolicyStatus → Bool
  pub now : List Call → ℕ
  -- IdentityService is not nil.
  pub identity_service : Bool
  -- The Kubernetes API and its cache: `none` is no error.
  pub cached : List Call → ResourceKey → Result ZitiAccessPolicy
  pub resource_updated : List Call → ZitiAccessPolicy → Option Err
  pub status_updated : List Call → ZitiAccessPolicy → Option Err
  pub identities : List Call → String → Result (List ZitiIdentity)
  pub services : List Call → String → Result (List ZitiService)
  -- The OpenZiti management API.
  pub backend_identities : List Call → Result (List Identity)
  pub policy_by_name : List Call → String → Result (Option AccessPolicy)
  -- `none` is a policy that is nil, without an error: the answer lacked a field.
  pub policy_created : List Call → AccessPolicy → Result (Option AccessPolicy)
  pub policy_updated : List Call → AccessPolicy → Result (Option AccessPolicy)
  pub policy_deleted : List Call → String → Option Err

abbrev pub Exec : Type 0 → Type 0
Exec A = Calling Call A

abbrev pub finalizer : String
finalizer = "ziti.sixfeetup.com/access-policy-finalizer"

abbrev pub with_finalizers : ZitiAccessPolicy → List String → ZitiAccessPolicy
with_finalizers policy finalizers = record policy {
  meta = record (policy.meta) { finalizers = finalizers };
}

abbrev pub with_common : ZitiAccessPolicy → CommonStatus → ZitiAccessPolicy
with_common policy common = record policy { status = record (policy.status) { common = common } }

pub record SelectorResolution : Type 0 where
  pub identity : Tally
  pub service : Tally

abbrev pub resolved : List String → Tally → ResolvedSelector
resolved attributes tally = record { ids = tally.ids; role_attributes = attributes }
