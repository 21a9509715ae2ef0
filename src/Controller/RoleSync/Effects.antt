-- ===== src/Controller/RoleSync/Effects.antt =====
-- The calls by which the role sync reconciler reads and changes the world, and what answers them.
-- A computation takes the calls made so far, the latest first, and returns its result with the calls
-- extended. The answers are a parameter: they may depend on every call made before, so one `Env` is
-- one run of an environment that the operator does not control.
use miniziti_operator.Prelude.{ℕ, String, Bool, Option, List}
use miniziti_operator.Errors.{Err, Result}
pub use miniziti_operator.Calls.{Calling, pure, perform, then_do, handle, attempt, ◌>>=◌}
use miniziti_operator.Strings.{CaseTables}
use miniziti_operator.Entra.{ServicePrincipal, AppRoleAssignment, User}
use miniziti_operator.Openziti.{Identity}
use miniziti_operator.Rolesync.Ownership.{ResourceKey}
use miniziti_operator.Api.{ZitiEntraRoleSync, ZitiEntraRoleSyncStatus, ZitiIdentity}
use miniziti_operator.Api.Conditions.{ApiMeta}

-- A Go duration: `nonneg n` is n nanoseconds, `negative n` is -(n + 1).
pub data Duration : Type 0 where
  nonneg : ℕ → Duration
  negative : ℕ → Duration

-- The credentials Secret: the values of clientId and clientSecret, empty if missing.
pub record Credentials : Type 0 where
  pub client_id : String
  pub client_secret : String

pub data Call : Type 0 where
  get_cached : ResourceKey → Call
  get_secret : String → String → Call
  get_service_principal : String → Call
  list_assignments : String → Call
  list_group_users : String → Call
  list_backend_identities : Call
  get_role_sync : ResourceKey → Call
  list_role_syncs : Call
  list_identities : Call
  get_identity : String → Call
  update_status : ZitiEntraRoleSync → Call
  patch_identity : String → List String → Call
  -- the event RoleAttributesUpdated: identity, external id, attributes added and removed
  emit_updated : String → String → List String → List String → Call
  -- a warning: reason and message
  emit_warning : String → String → Call

pub record Env : Type 0 where
  -- Library code: Unicode tables, condition lists, time.ParseDuration, the text of an error with
  -- request ids removed, and the clock.
  pub tables : CaseTables
  pub api_meta : ApiMeta
  pub parse_duration : String → Option Duration
  pub error_message : Err → String
  pub now : List Call → ℕ
  -- apiequality.Semantic.DeepEqual on two statuses.
  pub semantic_equal : ZitiEntraRoleSyncStatus → ZitiEntraRoleSyncStatus → Bool
  -- ctx.Err() at this point of the run.
  pub context_error : List Call → Option Err
  -- The Kubernetes API and its cache.
  pub cached : List Call → ResourceKey → Result ZitiEntraRoleSync
  pub secret : List Call → String → String → Result Credentials
  pub role_sync : List Call → ResourceKey → Result ZitiEntraRoleSync
  pub role_syncs : List Call → Result (List ZitiEntraRoleSync)
  pub identities : List Call → Result (List ZitiIdentity)
  -- The new resource version of the object.
  pub status_updated : List Call → ZitiEntraRoleSync → Result String
  -- The directory.
  pub service_principal : List Call → String → Result (Option ServicePrincipal)
  pub assignments : List Call → String → Result (List AppRoleAssignment)
  pub group_users : List Call → String → Result (List User)
  -- The OpenZiti management API.
  pub backend_identities : List Call → Result (List Identity)
  pub backend_identity : List Call → String → Result (Option Identity)
  pub identity_patched : List Call → String → List String → Result (Unit {0})

abbrev pub Exec : Type 0 → Type 0
Exec A = Calling Call A
