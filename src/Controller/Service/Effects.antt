-- ===== src/Controller/Service/Effects.antt =====
-- The calls of zitiservice_controller.go and zitiservice_router_policies.go, what answers them, and what
-- the handlers change in the service that they hold.
use miniziti_operator.Prelude.{
  ℕ, String, Bool, false, ◌||◌, Option, none, some, List, [], ◌∷◌, ◌==◌, ltb, if◌then◌else◌,
}
use miniziti_operator.Strings.{CaseTables}
use miniziti_operator.Errors.{Err, Result, ok, err, text, panicked}
use miniziti_operator.Calls.{Calling}
use miniziti_operator.Openziti.{
  Identity, AccessPolicy, Service, ServiceConfig, EdgeRouter, ServiceEdgeRouterPolicy,
}
use miniziti_operator.Openziti.ServiceModel.{blank_router}
use miniziti_operator.Rolesync.Ownership.{ResourceKey}
use miniziti_operator.Api.{PortRange, ZitiService, ZitiServiceStatus}
use miniziti_operator.Api.Conditions.{ApiMeta, CommonStatus}

pub data Call : Type 0 where
  get_cached : ResourceKey → Call
  update_resource : ZitiService → Call
  update_status : ZitiService → Call
  find_service : String → Call
  create_service : Service → Call
  update_service : Service → Call
  delete_service : String → Call
  create_config : ServiceConfig → Call
  update_config : ServiceConfig → Call
  delete_config : String → Call
  find_identity : String → Call
  find_edge_router : String → Call
  find_policy : String → Call
  create_policy : AccessPolicy → Call
  update_policy : AccessPolicy → Call
  delete_policy : String → Call
  find_router_policy : String → Call
  create_router_policy : ServiceEdgeRouterPolicy → Call
  update_router_policy : ServiceEdgeRouterPolicy → Call
  delete_router_policy : String → Call
  emit_normal : String → String → Call
  emit_warning : String → String → Call

-- A pointer that a client returns is an option: `none` is nil.
pub record Env : Type 0 where
  -- Library code: the Unicode tables, condition lists, the text of an error with request ids removed,
  -- DeepEqual on two statuses, and the clock.
  pub tables : CaseTables
  pub api_meta : ApiMeta
  pub error_message : Err → String
  pub semantic_equal : ZitiServiceStatus → ZitiServiceStatus → Bool
  pub now : List Call → ℕ
  -- The Kubernetes API and its cache: `none` is no error.
  pub cached : List Call → ResourceKey → Result ZitiService
  pub resource_updated : List Call → ZitiService → Option Err
  pub status_updated : List Call → ZitiService → Option Err
  -- The OpenZiti client.
  pub service_by_name : List Call → String → Result (Option Service)
  pub service_created : List Call → Service → Result (Option Service)
  pub service_updated : List Call → Service → Result (Option Service)
  pub service_deleted : List Call → String → Option Err
  pub config_created : List Call → ServiceConfig → Result (Option ServiceConfig)
  pub config_updated : List Call → ServiceConfig → Result (Option ServiceConfig)
  pub config_deleted : List Call → String → Option Err
  pub identity_by_name : List Call → String → Result (Option Identity)
  pub edge_router_by_name : List Call → String → Result (Option EdgeRouter)
  pub policy_by_name : List Call → String → Result (Option AccessPolicy)
  pub policy_created : List Call → AccessPolicy → Result (Option AccessPolicy)
  pub policy_updated : List Call → AccessPolicy → Result (Option AccessPolicy)
  pub policy_deleted : List Call → String → Option Err
  pub router_policy_by_name : List Call → String → Result (Option ServiceEdgeRouterPolicy)
  pub router_policy_created :
      List Call → ServiceEdgeRouterPolicy → Result (Option ServiceEdgeRouterPolicy)
  pub router_policy_updated :
      List Call → ServiceEdgeRouterPolicy → Result (Option ServiceEdgeRouterPolicy)
  pub router_policy_deleted : List Call → String → Option Err

abbrev pub Exec : Type 0 → Type 0
Exec A = Calling Call A

abbrev pub finalizer : String
finalizer = "ziti.sixfeetup.com/service-finalizer"

abbrev pub with_finalizers : ZitiService → List String → ZitiService
with_finalizers service finalizers = record service {
  meta = record (service.meta) { finalizers = finalizers };
}

abbrev pub with_common : ZitiService → CommonStatus → ZitiService
with_common service common = record service { status = record (service.status) { common = common } }

-- The loop over the port ranges of validateServiceSpec.
abbrev any_reversed : List PortRange → Bool
any_reversed [] = false
any_reversed (r ∷ rs) = ltb r.high r.low || any_reversed rs

-- validateServiceSpec
unfoldable pub validate_service_spec : ZitiService → Option Err
unfolding blank_router
validate_service_spec service =
    if service.spec.name == ""
    then some (text "spec.name must not be empty")
    else elim service.spec.router [
      | none ↦ ports
      | some router ↦
          if blank_router (some router)
          then some (text "spec.router.name must not be empty")
          else ports
    ]
  where
    ports : Option Err
    ports =
        if any_reversed service.spec.configs.intercept.port_ranges
        then some (text "spec.configs.intercept.portRanges low must be <= high")
        else none

-- What the dereference of a pointer gives.
abbrev pub deref : {A : Type 0} → Option A → Result A
deref none = err panicked
deref (some a) = ok a
