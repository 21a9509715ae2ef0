-- ===== src/Openziti/Client.antt =====
-- internal/openziti/client/client.go: the calls of the management client, what answers them, and the
-- session that it keeps. The cached session stands in the trace: `store` and `invalidate` are the lock
-- sections that change it.
pub mod Session
pub mod Bounded
pub mod Interleaving
pub mod Objects
pub mod Enrollment
pub mod Pages
use miniziti_operator.Prelude.{
  ℕ, String, Bool, true, false, not, ◌&&◌, ◌||◌, Option, none, some, List, [], ◌∷◌, ◌==◌, eqb,
  if◌then◌else◌,
}
use miniziti_operator.Errors.{Err, Result, ok, err, wrapped, response}
use miniziti_operator.Calls.{Calling, pure, perform, attempt, handle}
use miniziti_operator.Credentials.{ManagementConfig}
use miniziti_operator.Openziti.Rest.{
  IdentityDetail, ServiceDetail, ConfigDetail, ServicePolicyDetail, ServiceEdgeRouterPolicyDetail,
  EdgeRouterDetail, ConfigTypeDetail, EnrollmentDetail, Body,
}

-- A client of the management API, known by its pointer.
abbrev pub Api : Type 0
Api = ℕ

pub data Kind : Type 0 where
  identity : Kind
  service : Kind
  config : Kind
  service_policy : Kind
  service_edge_router_policy : Kind
  edge_router : Kind
  config_type : Kind

-- `list` has the offset; the limit is 100.
pub data Request : Type 0 where
  detail : Kind → String → Request
  list : Kind → ℕ → Request
  create : Body → Request
  update : String → Body → Request
  delete : Kind → String → Request
  patch_role_attributes : String → List String → Request
  list_enrollments : String → Request
  create_enrollment : String → Request
  detail_enrollment : String → Request

pub data Call : Type 0 where
  load_config : Call
  authenticate : ManagementConfig → Call
  store : Api → ManagementConfig → Call
  invalidate : Call
  request : Api → Request → Call

-- What a request is answered with depends on the calls before. The id of a created object is `none` if
-- the response has no data; a page is `none` if the response has no payload.
pub record Env : Type 0 where
  -- loadConfig, and authenticate
  pub config_loaded : List Call → Result ManagementConfig
  pub authenticated : List Call → ManagementConfig → Result Api
  -- The management API.
  pub identity_detail : Api → List Call → String → Result (Option IdentityDetail)
  pub service_detail : Api → List Call → String → Result (Option ServiceDetail)
  pub config_detail : Api → List Call → String → Result (Option ConfigDetail)
  pub service_policy_detail : Api → List Call → String → Result (Option ServicePolicyDetail)
  pub router_policy_detail :
      Api → List Call → String → Result (Option ServiceEdgeRouterPolicyDetail)
  pub identity_page : Api → List Call → ℕ → Result (Option (List IdentityDetail))
  pub service_page : Api → List Call → ℕ → Result (Option (List ServiceDetail))
  pub service_policy_page : Api → List Call → ℕ → Result (Option (List ServicePolicyDetail))
  pub router_policy_page :
      Api → List Call → ℕ → Result (Option (List ServiceEdgeRouterPolicyDetail))
  pub edge_router_page : Api → List Call → ℕ → Result (Option (List EdgeRouterDetail))
  pub config_type_page : Api → List Call → ℕ → Result (Option (List ConfigTypeDetail))
  pub created : Api → List Call → Body → Result (Option String)
  pub updated : Api → List Call → String → Body → Option Err
  pub deleted : Api → List Call → Kind → String → Option Err
  pub identity_patched : Api → List Call → String → List String → Option Err

abbrev pub Exec : Type 0 → Type 0
Exec A = Calling Call A

-- isStatusCode
unfoldable pub is_status_code : ℕ → Err → Bool
is_status_code code (response c) = eqb c code
is_status_code code (wrapped _ e) = is_status_code code e
is_status_code code _ = false

-- shouldReauthenticate
unfoldable pub should_reauthenticate : Err → Bool
unfolding is_status_code
should_reauthenticate e = is_status_code 401 e || is_status_code 403 e

-- sameManagementConfig
unfoldable pub same_management_config : ManagementConfig → ManagementConfig → Bool
same_management_config left right =
    left.controller_url == right.controller_url
    && (left.username == right.username
        && (left.password == right.password && left.ca_bundle_pem == right.ca_bundle_pem))

-- cachedClient and cachedConfig, which the lock sections share.
pub record Cache : Type 0 where
  pub cached_client : Option Api
  pub cached_config : ManagementConfig

abbrev pub empty_cache : Cache
empty_cache = record {
  cached_client = none;
  cached_config = record { controller_url = ""; username = ""; password = ""; ca_bundle_pem = "" };
}

-- The second lock section of getOrAuthenticate, and invalidate.
abbrev pub stored : Api → ManagementConfig → Cache
stored api cfg = record { cached_client = some api; cached_config = cfg }

abbrev pub invalidated : Cache → Cache
invalidated cache = record cache { cached_client = none }

unfoldable pub cache_after : List Call → Cache
cache_after [] = empty_cache
cache_after (store api cfg ∷ t) = stored api cfg
cache_after (invalidate ∷ t) = invalidated (cache_after t)
cache_after (_ ∷ t) = cache_after t

-- The first lock section of getOrAuthenticate: the cached client that may be used.
unfoldable pub usable : Bool → ManagementConfig → Cache → Option Api
unfolding same_management_config
usable force cfg cache =
    if not force && same_management_config cache.cached_config cfg
    then cache.cached_client
    else none

module _ (env : Env) where
  -- getOrAuthenticate from the miss on
  unfoldable pub authenticate_fresh : ManagementConfig → Exec (Result Api)
  authenticate_fresh cfg =
      attempt (perform (authenticate cfg) (λ t. env.authenticated t cfg)) err
        (λ api t. (ok api, store api cfg ∷ t))

  unfoldable pub client_for : ManagementConfig → Option Api → Exec (Result Api)
  unfolding authenticate_fresh
  client_for cfg (some api) = pure (ok api)
  client_for cfg none = authenticate_fresh cfg

  -- getOrAuthenticate, for a client that has a loader of its configuration
  unfoldable pub get_or_authenticate : Bool → Exec (Result Api)
  unfolding client_for usable cache_after
  get_or_authenticate force =
      attempt (perform load_config env.config_loaded) err
        (λ cfg t. client_for cfg (usable force cfg (cache_after t)) t)

  -- The second try of useAuthenticatedClient.
  unfoldable pub try_again : {A : Type 0} → (Api → Exec (Result A)) → Exec (Result A)
  unfolding get_or_authenticate
  try_again fn t = attempt (get_or_authenticate true) err fn (invalidate ∷ t)

  unfoldable pub unless_rejected :
      {A : Type 0} → (Api → Exec (Result A)) → Result A → Exec (Result A)
  unfolding try_again should_reauthenticate
  unless_rejected fn (ok a) = pure (ok a)
  unless_rejected fn (err e) = if should_reauthenticate e then try_again fn else pure (err e)

  -- useAuthenticatedClient
  unfoldable pub use_authenticated_client : {A : Type 0} → (Api → Exec (Result A)) → Exec (Result A)
  unfolding get_or_authenticate unless_rejected
  use_authenticated_client fn =
      attempt (get_or_authenticate false) err
        (λ api t. unless_rejected fn (fn api t).0 (fn api t).1)
