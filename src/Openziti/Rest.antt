-- ===== src/Openziti/Rest.antt =====
-- What internal/openziti/client uses of the models of the OpenZiti management API: the details that it
-- reads and the bodies that it sends. A pointer is an option.
use miniziti_operator.Prelude.{String, Bool, List, Option}
use miniziti_operator.Openziti.{Payload}

pub record IdentityDetail : Type 0 where
  pub id : Option String
  pub name : Option String
  -- the name of the type
  pub type : Option String
  pub role_attributes : Option (List String)
  pub external_id : Option String

pub record ServiceDetail : Type 0 where
  pub id : Option String
  pub name : Option String
  pub role_attributes : Option (List String)
  pub configs : List String

-- `typed_data` is `none` where it is not a map.
pub record ConfigDetail : Type 0 where
  pub id : Option String
  pub name : Option String
  pub config_type : Option String
  pub typed_data : Option Payload

pub record ServicePolicyDetail : Type 0 where
  pub id : Option String
  pub name : Option String
  pub type : Option String
  pub semantic : Option String
  pub identity_roles : List String
  pub service_roles : List String

pub record ServiceEdgeRouterPolicyDetail : Type 0 where
  pub id : Option String
  pub name : Option String
  pub semantic : Option String
  pub edge_router_roles : List String
  pub service_roles : List String

pub record EdgeRouterDetail : Type 0 where
  pub id : Option String
  pub name : Option String

pub record ConfigTypeDetail : Type 0 where
  pub id : Option String
  pub name : Option String

pub record EnrollmentDetail : Type 0 where
  pub method : Option String
  pub jwt : String

-- The bodies; what every body sets to the same constant is left out, as is what a nil field leaves to
-- the backend.
pub data Body : Type 0 where
  -- name, type, role attributes; ott only in a creation
  identity_create : String → String → List String → Bool → Body
  identity_update : String → String → List String → Body
  -- name, role attributes, configs
  service_create : String → List String → List String → Body
  service_update : String → List String → List String → Body
  -- name, data; the id of the config type only in a creation
  config_create : String → String → Option Payload → Body
  config_update : String → Option Payload → Body
  -- name, type, semantic, identity roles, service roles
  policy_create : String → String → String → List String → List String → Body
  policy_update : String → String → String → List String → List String → Body
  -- name, semantic, edge router roles, service roles
  router_policy_create : String → String → List String → List String → Body
  router_policy_update : String → String → List String → List String → Body
