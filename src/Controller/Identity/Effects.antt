-- ===== src/Controller/Identity/Effects.antt =====
-- The calls of zitiidentity_controller.go and enrollment_secret.go, what answers them, and the desired
-- identity of internal/openziti/identity.
use miniziti_operator.Prelude.{
  ℕ, String, Bool, true, false, ◌&&◌, Option, none, some, List, [], ◌∷◌, ◌==◌, if◌then◌else◌,
}
use miniziti_operator.Strings.{contains}
use miniziti_operator.Errors.{Err, Result, text}
use miniziti_operator.Calls.{Calling}
use miniziti_operator.Openziti.{Identity}
use miniziti_operator.Rolesync.Ownership.{ResourceKey}
use miniziti_operator.Api.{ZitiIdentity, ZitiIdentityStatus}
use miniziti_operator.Api.Conditions.{ApiMeta, CommonStatus}

-- What the program reads and writes of a Secret.
pub record Secret : Type 0 where
  pub namespace : String
  pub name : String
  pub owner_uids : List String
  pub jwt : String

pub data Call : Type 0 where
  get_cached : ResourceKey → Call
  update_resource : ZitiIdentity → Call
  update_status : ZitiIdentity → Call
  find_identity : String → Call
  create_identity : Identity → Call
  update_identity : Identity → Call
  delete_identity : String → Call
  get_enrollment_jwt : String → Call
  get_secret : ResourceKey → Call
  create_secret : Secret → Call
  delete_secret : Secret → Call
  emit_normal : String → String → Call
  emit_warning : String → String → Call

pub record Env : Type 0 where
  -- Library code: condition lists, the text of an error with request ids removed, DeepEqual on two
  -- statuses, the clock, metav1.IsControlledBy and ctrl.SetControllerReference.
  pub api_meta : ApiMeta
  pub error_message : Err → String
  pub semantic_equal : ZitiIdentityStatus → ZitiIdentityStatus → Bool
  pub now : List Call → ℕ
  pub is_controlled_by : Secret → ZitiIdentity → Bool
  pub with_controller : ZitiIdentity → Secret → Result Secret
  -- The Kubernetes API and its cache: `none` is no error.
  pub cached : List Call → ResourceKey → Result ZitiIdentity
  pub resource_updated : List Call → ZitiIdentity → Option Err
  pub status_updated : List Call → ZitiIdentity → Option Err
  pub secret_read : List Call → ResourceKey → Result Secret
  pub secret_created : List Call → Secret → Option Err
  pub secret_deleted : List Call → Secret → Option Err
  -- The OpenZiti client.
  pub identity_by_name : List Call → String → Result (Option Identity)
  pub identity_created : List Call → Identity → Result Identity
  pub identity_updated : List Call → Identity → Result Identity
  pub identity_deleted : List Call → String → Option Err
  pub enrollment_jwt : List Call → String → Result String

abbrev pub Exec : Type 0 → Type 0
Exec A = Calling Call A

abbrev pub finalizer : String
finalizer = "ziti.sixfeetup.com/finalizer"

abbrev pub with_finalizers : ZitiIdentity → List String → ZitiIdentity
with_finalizers identity finalizers = record identity {
  meta = record (identity.meta) { finalizers = finalizers };
}

abbrev pub with_common : ZitiIdentity → CommonStatus → ZitiIdentity
with_common identity common = record identity {
  status = record (identity.status) { common = common };
}

pub record DesiredIdentity : Type 0 where
  pub name : String
  pub type : String
  pub role_attributes : List String
  pub create_jwt_secret : Bool
  pub jwt_secret_name : String

-- FromResource
abbrev pub desired_identity : ZitiIdentity → DesiredIdentity
desired_identity resource = record {
  name = resource.spec.name;
  type = resource.spec.type;
  role_attributes = resource.spec.role_attributes;
  create_jwt_secret = resource.spec.enrollment.create_jwt_secret;
  jwt_secret_name = resource.spec.enrollment.jwt_secret_name;
}

-- toClientIdentity, with the id that Update sets and Create leaves empty
abbrev pub to_client_identity : String → DesiredIdentity → Identity
to_client_identity id desired = record {
  id = id;
  name = desired.name;
  type = desired.type;
  role_attributes = desired.role_attributes;
  create_ott = desired.create_jwt_secret;
  external_id = "";
}

-- The loop of validateIdentitySpec over the attributes.
abbrev has_duplicate : List String → List String → Bool
has_duplicate seen [] = false
has_duplicate seen (a ∷ attributes) =
    let rest = has_duplicate (a ∷ seen) attributes in if contains seen a then true else rest

-- validateIdentitySpec
unfoldable pub validate_identity_spec : ZitiIdentity → Option Err
unfolding contains
validate_identity_spec identity =
    let enrollment = identity.spec.enrollment in
    if identity.spec.name == ""
    then some (text "spec.name must not be empty")
    else if has_duplicate [] identity.spec.role_attributes
    then some (text "spec.roleAttributes must not contain duplicates")
    else if enrollment.create_jwt_secret && enrollment.jwt_secret_name == ""
    then some (text "spec.enrollment.jwtSecretName is required when createJwtSecret is true")
    else none
