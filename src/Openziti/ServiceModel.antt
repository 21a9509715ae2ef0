-- ===== src/Openziti/ServiceModel.antt =====
-- internal/openziti/service: the desired service with its two configs, and the policies that let a
-- router host it.
pub mod Roles
use Prim.Native.String.{◌++◌}
use miniziti_operator.Prelude.{
  String, Bool, true, false, not, ◌||◌, Option, none, some, List, [], ◌∷◌, map, ◌==◌, if◌then◌else◌,
}
use miniziti_operator.Strings.{trim_space, sort, compact}
use miniziti_operator.Api.{PortRange, ServiceRouterSpec, ZitiService}
use miniziti_operator.Openziti.{
  Service, ServiceConfig, AccessPolicy, ServiceEdgeRouterPolicy, Value, texts, ranges, plain,
  number,
}
use miniziti_operator.Openziti.Policy.{expression}

pub record DesiredService : Type 0 where
  pub name : String
  pub role_attributes : List String
  pub config_ids : List String
  pub intercept : ServiceConfig
  pub host : ServiceConfig

-- toPortRanges
abbrev to_port_ranges : List PortRange → Value
to_port_ranges rs = ranges (map (λ r. ("low", r.low) ∷ ("high", r.high) ∷ []) rs)

-- FromResource
unfoldable pub desired_service : ZitiService → DesiredService
desired_service resource =
    let spec = resource.spec in
    let intercept = spec.configs.intercept in
    let host = spec.configs.host in
    record {
      name = spec.name;
      role_attributes = spec.role_attributes;
      config_ids = [];
      intercept = record {
        id = "";
        name = spec.name ++ "-intercept";
        type = "intercept.v1";
        payload = some (
            ("protocols", texts intercept.protocols)
            ∷ ("addresses", texts intercept.addresses)
            ∷ ("portRanges", to_port_ranges intercept.port_ranges)
            ∷ []);
      };
      host = record {
        id = "";
        name = spec.name ++ "-host";
        type = "host.v1";
        payload = some (
            ("protocol", plain host.protocol)
            ∷ ("address", plain host.address)
            ∷ ("port", number host.port)
            ∷ []);
      };
    }

-- What Create (with the empty id) and Update pass to the client.
abbrev pub to_service : String → DesiredService → Service
to_service id desired = record {
  id = id;
  name = desired.name;
  role_attributes = desired.role_attributes;
  config_ids = desired.config_ids;
}

pub record RouterPolicySet : Type 0 where
  pub bind_policy : AccessPolicy
  pub service_edge_router_policy : ServiceEdgeRouterPolicy

-- No router is set, or its name is blank.
unfoldable pub blank_router : Option ServiceRouterSpec → Bool
unfolding trim_space
blank_router none = true
blank_router (some router) = trim_space router.name == ""

unfoldable pub router_roles : String → List String → List String
unfolding trim_space sort compact
router_roles host additional =
    compact (sort (expression "@" host ∷ map (expression "@") additional))

-- RouterPolicies
unfoldable pub router_policies :
    ZitiService → String → String → String → List String → Option RouterPolicySet
unfolding blank_router router_roles trim_space
router_policies resource service_id identity_id edge_router_id additional =
    if blank_router resource.spec.router
    then none
    else some (record {
      bind_policy = record {
        id = "";
        name = resource.spec.name ++ "-bind-policy";
        type = "Bind";
        identity_roles = expression "@" identity_id ∷ [];
        service_roles = expression "@" service_id ∷ [];
        identity_roles_raw = expression "@" identity_id ∷ [];
        service_roles_raw = expression "@" service_id ∷ [];
        semantic = "AnyOf";
      };
      service_edge_router_policy = record {
        id = "";
        name = resource.spec.name ++ "-only";
        edge_router_roles = router_roles edge_router_id additional;
        service_roles = expression "@" service_id ∷ [];
        semantic = "AnyOf";
      };
    })
