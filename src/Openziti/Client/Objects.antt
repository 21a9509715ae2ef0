-- ===== src/Openziti/Client/Objects.antt =====
-- The operations of the management client on single objects (client.go and
-- service_edge_router_policy.go): get, create, update and delete, which have one shape for all kinds;
-- and the patch of an identity (identity_role_attributes.go).
pub mod Fallback
use miniziti_operator.Prelude.{
  ℕ, String, Bool, true, false, not, Option, none, some, List, [], ◌∷◌, ◌==◌, eqb, if◌then◌else◌,
}
use miniziti_operator.Strings.{trim_space}
use miniziti_operator.Errors.{Err, Result, ok, err, text, wrapped}
use miniziti_operator.Calls.{pure, perform, attempt, handle, then_do}
use miniziti_operator.Openziti.{
  Identity, AccessPolicy, Service, ServiceConfig, ServiceEdgeRouterPolicy,
}
use miniziti_operator.Openziti.Rest.{
  IdentityDetail, ServiceDetail, ConfigDetail, ServicePolicyDetail, ServiceEdgeRouterPolicyDetail,
  Body,
}
use miniziti_operator.Openziti.Convert.{
  identity_from_envelope, service_from_envelope, config_from_envelope, access_policy_from_envelope,
  router_policy_from_detail,
}
use miniziti_operator.Openziti.Bodies.{
  to_identity_create, to_identity_update, to_service_create, to_service_update, to_config_create,
  to_config_update, to_access_policy_create, to_access_policy_update, to_router_policy_create,
  to_router_policy_update,
}
use miniziti_operator.Openziti.Client.{
  Api, Kind, Request, detail, create, update, delete, patch_role_attributes, Call, request, Env,
  Exec, is_status_code, use_authenticated_client,
}
use miniziti_operator.Openziti.Client.Pages.{resolve_config_type_id}

-- extractCreatedID
unfoldable pub extract_created_id : Option String → Result String
unfolding trim_space
extract_created_id none = err (text "create response did not include an object id")
extract_created_id (some id) =
    if trim_space id == ""
    then err (text "create response did not include an object id")
    else ok (trim_space id)

-- What the operations on one kind of object use: the detail of an id, and the bodies. The body of a
-- creation may need calls of its own.
pub record Endpoint (D O : Type 0) : Type 0 where
  pub kind : Kind
  pub detail_of : Env → Api → List Call → String → Result (Option D)
  pub from_detail : Option D → Result (Option O)
  pub create_body : Env → Api → O → Exec (Result Body)
  pub update_body : O → Body
  pub id_of : O → String
  pub without_id : O → O

module _ {D O : Type 0} (env : Env) (e : Endpoint D O) where
  abbrev read : String → Api → Exec (Result (Option D))
  read id api = perform (request api (detail e.kind id)) (λ t. e.detail_of env api t id)

  -- The get operations: an object that is not there is nil.
  abbrev not_found_is_nil : Result (Option D) → Result (Option O)
  not_found_is_nil (ok found) = e.from_detail found
  not_found_is_nil (err x) = if is_status_code 404 x then ok none else err (wrapped "get" x)

  unfoldable pub get_object : String → Exec (Result (Option O))
  unfolding is_status_code use_authenticated_client
  get_object id =
      use_authenticated_client env λ api. then_do (read id api) (λ r. pure (not_found_is_nil r))

  -- The functions get...ByIDWithAPI
  unfoldable pub get_by_id : Api → Option String → Exec (Result (Option O))
  unfolding extract_created_id
  get_by_id api created =
      handle (extract_created_id created) err λ id.
        attempt (read id api) (λ x. err (wrapped "get" x)) (λ found. pure (e.from_detail found))

  unfoldable pub create_with : O → Api → Exec (Result (Option O))
  unfolding get_by_id
  create_with object api = attempt (e.create_body env api object) err λ body.
      attempt (perform (request api (create body)) (λ t. env.created api t body))
        (λ x. err (wrapped "create" x)) (get_by_id api)

  -- The create operations
  unfoldable pub create_object : O → Exec (Result (Option O))
  unfolding create_with use_authenticated_client
  create_object object = use_authenticated_client env (create_with object)

  -- What an update does with its answer: a 404 goes up as it is.
  unfoldable pub after_update : String → Api → Option Err → Exec (Result (Option O))
  unfolding is_status_code get_by_id
  after_update id api none = get_by_id api (some id)
  after_update id api (some x) = pure (err (if is_status_code 404 x then x else wrapped "update" x))

  unfoldable pub update_with : O → Api → Exec (Result (Option O))
  unfolding after_update
  update_with object api =
      let id = e.id_of object in
      let body = e.update_body object in
      then_do (perform (request api (update id body)) (λ t. env.updated api t id body))
        (after_update id api)

  -- The end of the update operations: what is not there is created.
  unfoldable pub or_create : O → Result (Option O) → Exec (Result (Option O))
  unfolding create_object is_status_code
  or_create object (ok updated) = pure (ok updated)
  or_create object (err x) =
      if is_status_code 404 x then create_object (e.without_id object) else pure (err x)

  -- The update operations
  unfoldable pub update_object : O → Exec (Result (Option O))
  unfolding or_create update_with use_authenticated_client
  update_object object =
      then_do (use_authenticated_client env (update_with object)) (or_create object)

module _ (env : Env) (kind : Kind) where
  abbrev deleted_or_gone : Option Err → Result {0} Unit
  deleted_or_gone none = ok tt
  deleted_or_gone (some x) = if is_status_code 404 x then ok tt else err (wrapped "delete" x)

  unfoldable pub delete_with : String → Api → Exec (Result {0} Unit)
  unfolding is_status_code
  delete_with id api =
      then_do (perform (request api (delete kind id)) (λ t. env.deleted api t kind id))
        (λ x. pure (deleted_or_gone x))

  -- The delete operations: an object that is not there is deleted.
  unfoldable pub delete_object : String → Exec (Result {0} Unit)
  unfolding delete_with use_authenticated_client
  delete_object id = use_authenticated_client env (delete_with id)

module _ (env : Env) (id : String) (attrs : List String) where
  abbrev patched : Option Err → Result {0} Unit
  patched none = ok tt
  patched (some x) = err (wrapped "patch identity role attributes" x)

  unfoldable patch_with : Api → Exec (Result {0} Unit)
  patch_with api =
      then_do
        (perform (request api (patch_role_attributes id attrs))
          (λ t. env.identity_patched api t id attrs))
        (λ x. pure (patched x))

  -- PatchIdentityRoleAttributes
  unfoldable patch_identity_role_attributes : Exec (Result {0} Unit)
  unfolding patch_with use_authenticated_client
  patch_identity_role_attributes = use_authenticated_client env patch_with

-- GetIdentity, CreateIdentity, UpdateIdentity
unfoldable pub identity_endpoint : Endpoint IdentityDetail Identity
unfolding identity_from_envelope to_identity_create to_identity_update
identity_endpoint = record {
  kind = Kind.identity;
  detail_of = λ env. env.identity_detail;
  from_detail = λ d. elim (identity_from_envelope d) [ ok i ↦ ok (some i) | err x ↦ err x ];
  create_body = λ env api i. pure (ok (to_identity_create i));
  update_body = to_identity_update;
  id_of = λ i. i.id;
  without_id = λ i. record i { id = "" };
}

-- GetService, CreateService, UpdateService
unfoldable pub service_endpoint : Endpoint ServiceDetail Service
unfolding service_from_envelope to_service_create to_service_update
service_endpoint = record {
  kind = Kind.service;
  detail_of = λ env. env.service_detail;
  from_detail = λ d. ok (service_from_envelope d);
  create_body = λ env api s. pure (ok (to_service_create s));
  update_body = to_service_update;
  id_of = λ s. s.id;
  without_id = λ s. record s { id = "" };
}

-- GetConfig, CreateConfig, UpdateConfig; the fuel is for the pages of config types
unfoldable pub config_endpoint : ℕ → Endpoint ConfigDetail ServiceConfig
unfolding config_from_envelope to_config_create to_config_update resolve_config_type_id
config_endpoint fuel = record {
  kind = Kind.config;
  detail_of = λ env. env.config_detail;
  from_detail = λ d. ok (config_from_envelope d);
  create_body = λ env api cfg.
      attempt (resolve_config_type_id env fuel api cfg.type) err
        (λ type_id. pure (ok (to_config_create cfg type_id)));
  update_body = to_config_update;
  id_of = λ cfg. cfg.id;
  without_id = λ cfg. record cfg { id = "" };
}

-- GetAccessPolicy, CreateAccessPolicy, UpdateAccessPolicy
unfoldable pub access_policy_endpoint : Endpoint ServicePolicyDetail AccessPolicy
unfolding access_policy_from_envelope to_access_policy_create to_access_policy_update
access_policy_endpoint = record {
  kind = Kind.service_policy;
  detail_of = λ env. env.service_policy_detail;
  from_detail = λ d. ok (access_policy_from_envelope d);
  create_body = λ env api p. pure (ok (to_access_policy_create p));
  update_body = to_access_policy_update;
  id_of = λ p. p.id;
  without_id = λ p. record p { id = "" };
}

-- The same of ServiceEdgeRouterPolicy
unfoldable pub router_policy_endpoint :
    Endpoint ServiceEdgeRouterPolicyDetail ServiceEdgeRouterPolicy
unfolding router_policy_from_detail to_router_policy_create to_router_policy_update
router_policy_endpoint = record {
  kind = Kind.service_edge_router_policy;
  detail_of = λ env. env.router_policy_detail;
  from_detail = λ d. ok (router_policy_from_detail d);
  create_body = λ env api p. pure (ok (to_router_policy_create p));
  update_body = to_router_policy_update;
  id_of = λ p. p.id;
  without_id = λ p. record p { id = "" };
}
