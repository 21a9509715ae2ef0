-- ===== src/Openziti.antt =====
-- internal/openziti: the objects of the OpenZiti management API that the operator works on.
pub mod Policy
pub mod ServiceModel
pub mod Rest
pub mod Convert
pub mod Bodies
pub mod Client
use miniziti_operator.Prelude.{ℕ, String, Bool, List, Option}

-- client.Identity
pub record Identity : Type 0 where
  pub id : String
  pub name : String
  pub type : String
  pub role_attributes : List String
  pub create_ott : Bool
  pub external_id : String

-- client.AccessPolicy
pub record AccessPolicy : Type 0 where
  pub id : String
  pub name : String
  pub type : String
  pub identity_roles : List String
  pub service_roles : List String
  pub identity_roles_raw : List String
  pub service_roles_raw : List String
  pub semantic : String

-- client.Service
pub record Service : Type 0 where
  pub id : String
  pub name : String
  pub role_attributes : List String
  pub config_ids : List String

-- What the program puts into a payload of type map[string]any: []string, []map[string]int32, text and
-- a number; `other` is any other value, as its JSON text.
pub data Value : Type 0 where
  texts : List String → Value
  ranges : List (List (String × ℕ)) → Value
  plain : String → Value
  number : ℕ → Value
  other : String → Value

abbrev pub Payload : Type 0
Payload = List (String × Value)

-- client.ServiceConfig; `none` is the nil map.
pub record ServiceConfig : Type 0 where
  pub id : String
  pub name : String
  pub type : String
  pub payload : Option Payload

-- client.EdgeRouter
pub record EdgeRouter : Type 0 where
  pub id : String
  pub name : String

-- client.ServiceEdgeRouterPolicy
pub record ServiceEdgeRouterPolicy : Type 0 where
  pub id : String
  pub name : String
  pub edge_router_roles : List String
  pub service_roles : List String
  pub semantic : String
