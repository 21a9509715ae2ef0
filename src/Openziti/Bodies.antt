-- ===== src/Openziti/Bodies.antt =====
-- The bodies that internal/openziti/client sends for its objects.
pub mod RoundTrip
use miniziti_operator.Prelude.{String, Option, none, some, List, map}
use miniziti_operator.Openziti.{
  Identity, AccessPolicy, Service, ServiceConfig, ServiceEdgeRouterPolicy, Value, texts, ranges,
  plain, number, other, Payload,
}
use miniziti_operator.Openziti.Rest.{
  Body, identity_create, identity_update, service_create, service_update, config_create,
  config_update, policy_create, policy_update, router_policy_create, router_policy_update,
}

-- One entry of clonePayload; the copy of a list or a map has the entries of the original.
abbrev clone_value : Value → Value
clone_value (texts xs) = texts (map (λ x. x) xs)
clone_value (ranges items) = ranges (map (map (λ entry. entry)) items)
clone_value v = v

-- clonePayload
unfoldable pub clone_payload : Option Payload → Option Payload
clone_payload none = none
clone_payload (some payload) = some (map (λ entry. (entry.0, clone_value entry.1)) payload)

-- toIdentityCreate, toIdentityUpdate
unfoldable pub to_identity_create : Identity → Body
to_identity_create i = identity_create i.name i.type i.role_attributes i.create_ott

unfoldable pub to_identity_update : Identity → Body
to_identity_update i = identity_update i.name i.type i.role_attributes

-- toServiceCreate, toServiceUpdate
unfoldable pub to_service_create : Service → Body
to_service_create s = service_create s.name s.role_attributes s.config_ids

unfoldable pub to_service_update : Service → Body
to_service_update s = service_update s.name s.role_attributes s.config_ids

-- toConfigCreate, toConfigUpdate
unfoldable pub to_config_create : ServiceConfig → String → Body
to_config_create cfg type_id = config_create cfg.name type_id (clone_payload cfg.payload)

unfoldable pub to_config_update : ServiceConfig → Body
to_config_update cfg = config_update cfg.name (clone_payload cfg.payload)

-- toAccessPolicyCreate, toAccessPolicyUpdate
unfoldable pub to_access_policy_create : AccessPolicy → Body
to_access_policy_create p =
    policy_create p.name p.type p.semantic p.identity_roles_raw p.service_roles_raw

unfoldable pub to_access_policy_update : AccessPolicy → Body
to_access_policy_update p =
    policy_update p.name p.type p.semantic p.identity_roles_raw p.service_roles_raw

-- toServiceEdgeRouterPolicyCreate, toServiceEdgeRouterPolicyUpdate
unfoldable pub to_router_policy_create : ServiceEdgeRouterPolicy → Body
to_router_policy_create p =
    router_policy_create p.name p.semantic p.edge_router_roles p.service_roles

unfoldable pub to_router_policy_update : ServiceEdgeRouterPolicy → Body
to_router_policy_update p =
    router_policy_update p.name p.semantic p.edge_router_roles p.service_roles
