-- ===== src/Api.antt =====
-- api/v1alpha1: the custom resources that the operator reconciles.
pub mod Conditions
use miniziti_operator.Prelude.{ℕ, String, Bool, List, Option}
use miniziti_operator.Rolesync.Ownership.{ResourceKey}
use miniziti_operator.Api.Conditions.{CommonStatus}

-- What the operator reads and writes of metav1.ObjectMeta. `none` is the zero deletion timestamp.
pub record ObjectMeta : Type 0 where
  pub namespace : String
  pub name : String
  pub uid : String
  pub generation : ℕ
  pub resource_version : String
  pub creation_timestamp : ℕ
  pub deletion_timestamp : Option ℕ
  pub finalizers : List String

abbrev pub object_key : ObjectMeta → ResourceKey
object_key m = record { namespace = m.namespace; name = m.name }

pub record EnrollmentSpec : Type 0 where
  pub create_jwt_secret : Bool
  pub jwt_secret_name : String

pub record ZitiIdentitySpec : Type 0 where
  pub name : String
  pub type : String
  pub role_attributes : List String
  pub enrollment : EnrollmentSpec

pub record ZitiIdentityStatus : Type 0 where
  pub common : CommonStatus
  pub jwt_secret_name : String

pub record ZitiIdentity : Type 0 where
  pub meta : ObjectMeta
  pub spec : ZitiIdentitySpec
  pub status : ZitiIdentityStatus

pub record SelectorSpec : Type 0 where
  pub match_names : List String
  pub match_role_attributes : List String

pub record ZitiAccessPolicySpec : Type 0 where
  pub type : String
  pub identity_selector : SelectorSpec
  pub service_selector : SelectorSpec

pub record ZitiAccessPolicyStatus : Type 0 where
  pub common : CommonStatus
  pub resolved_identity_count : ℕ
  pub resolved_service_count : ℕ

pub record ZitiAccessPolicy : Type 0 where
  pub meta : ObjectMeta
  pub spec : ZitiAccessPolicySpec
  pub status : ZitiAccessPolicyStatus

-- `interval` is text; an empty one stands for the default.
pub record ZitiEntraRoleSyncSpec : Type 0 where
  pub tenant_id : String
  pub app_id : String
  pub credentials_secret_name : String
  pub user_property : String
  pub interval : String

pub record EntraUnmatchedMember : Type 0 where
  pub id : String
  pub display_name : String
  pub external_id : String
  pub reason : String

pub record ZitiEntraRoleSyncStatus : Type 0 where
  pub common : CommonStatus
  pub last_sync_time : Option ℕ
  pub managed_attributes : List String
  pub matched_identities : ℕ
  pub identities_updated : ℕ
  pub members_without_identity : ℕ
  pub unmatched_members : List EntraUnmatchedMember

pub record ZitiEntraRoleSync : Type 0 where
  pub meta : ObjectMeta
  pub spec : ZitiEntraRoleSyncSpec
  pub status : ZitiEntraRoleSyncStatus

pub record PortRange : Type 0 where
  pub low : ℕ
  pub high : ℕ

pub record InterceptConfigSpec : Type 0 where
  pub protocols : List String
  pub addresses : List String
  pub port_ranges : List PortRange

pub record HostConfigSpec : Type 0 where
  pub protocol : String
  pub address : String
  pub port : ℕ

pub record ZitiServiceConfigsSpec : Type 0 where
  pub intercept : InterceptConfigSpec
  pub host : HostConfigSpec

pub record ServiceRouterSpec : Type 0 where
  pub name : String
  pub additional_allowed_edge_router_names : List String

pub record ZitiServiceSpec : Type 0 where
  pub name : String
  pub role_attributes : List String
  pub router : Option ServiceRouterSpec
  pub configs : ZitiServiceConfigsSpec

pub record ZitiServiceConfigIds : Type 0 where
  pub intercept : String
  pub host : String

pub record ZitiServiceStatus : Type 0 where
  pub common : CommonStatus
  pub config_ids : ZitiServiceConfigIds
  pub bind_policy_id : String
  pub service_edge_router_policy_id : String

pub record ZitiService : Type 0 where
  pub meta : ObjectMeta
  pub spec : ZitiServiceSpec
  pub status : ZitiServiceStatus
