-- ===== src/Controller/RoleSync/Reads.antt =====
-- zitientrarolesync_reads.go: the specification, the directory, and the recorded claims.
use Prim.Native.Char.{code}
use Prim.Native.Nat.{◌*◌}
use miniziti_operator.Prelude.{
  ℕ, zero, suc, String, Bool, true, false, not, ◌&&◌, ◌||◌, Option, none, some, List, [], ◌∷◌, ◌==◌,
  ltb, leb, eqb, if◌then◌else◌,
}
use miniziti_operator.Strings.{sort, compact, slices_equal}
use miniziti_operator.Maps.{insert}
use miniziti_operator.Errors.{Err, Result, ok, err, text, wrapped, limited_user_data}
use miniziti_operator.Entra.{ServicePrincipal, User}
use miniziti_operator.Rolesync.Ownership.{ResourceKey, SyncClaim, IdentityOwner, same_key}
use miniziti_operator.Rolesync.Scope.{RoleScope, group_ids, resolve_role_scope}
use miniziti_operator.Api.{ZitiEntraRoleSync, ZitiIdentity, object_key}
use miniziti_operator.Controller.RoleSync.Effects.{
  Duration, nonneg, negative, get_secret, get_service_principal, list_assignments, list_group_users,
  get_role_sync, list_role_syncs, list_identities, update_status, Env, Exec, pure, perform, attempt,
  ◌>>=◌,
}

abbrev pub minute : ℕ
minute = 60 * 1000000000

abbrev pub default_interval : Duration
default_interval = nonneg (10 * minute)

is_hex : ℕ → Bool
is_hex c = (leb b'0' c && leb c b'9') || ((leb b'a' c && leb c b'f') || (leb b'A' c && leb c b'F'))

-- The rest of the text after `n` hexadecimal digits.
hex_run : ℕ → String → Option String
unfolding is_hex
hex_run zero s = some s
hex_run (suc n) String.[] = none
hex_run (suc n) (String.◌∷◌ c s) = let rest = hex_run n s in if is_hex (code c) then rest else none

dash : Option String → Option String
dash none = none
dash (some String.[]) = none
dash (some (String.◌∷◌ c s)) = if eqb (code c) b'-' then some s else none

digits : ℕ → Option String → Option String
unfolding hex_run
digits n none = none
digits n (some s) = hex_run n s

-- roleSyncGUID.MatchString
unfoldable pub is_guid : String → Bool
unfolding dash digits
is_guid s =
    elim (digits 12
      (dash (digits 4 (dash (digits 4 (dash (digits 4 (dash (digits 8 (some s)))))))))) [
        | none ↦ false
        | some rest ↦ rest == ""
      ]

unfoldable pub below_minute : Duration → Bool
below_minute (nonneg n) = ltb n minute
below_minute (negative n) = true

supported_property : String → Bool
supported_property p = p == "" || (p == "mail" || (p == "userPrincipalName" || p == "id"))

-- The checks of validateRoleSyncSpec that follow those of the interval.
spec_error : ZitiEntraRoleSync → Option Err
unfolding is_guid supported_property
spec_error resource =
    if not (is_guid resource.spec.tenant_id) || not (is_guid resource.spec.app_id)
    then some (text "tenantId and appId must be GUIDs")
    else if resource.spec.credentials_secret_name == ""
    then some (text "credentials Secret name is required")
    else if supported_property resource.spec.user_property
    then none
    else some (text "unsupported userProperty")

-- The rest of validateRoleSyncSpec, for a parsed interval: the interval, and the error.
unfoldable pub validate_with : ZitiEntraRoleSync → Duration → Duration × Option Err
unfolding below_minute spec_error
validate_with resource interval =
    if below_minute interval
    then (default_interval, some (text "sync interval must be at least 1m"))
    else (interval, spec_error resource)

unfoldable pub parsed_interval : Option Duration → ZitiEntraRoleSync → Duration × Option Err
unfolding validate_with
parsed_interval none resource = (default_interval, some (text "invalid sync interval"))
parsed_interval (some interval) resource = validate_with resource interval

-- Some user has no principal name.
pub any_limited : List User → Bool
any_limited [] = false
any_limited (user ∷ users) = user.user_principal_name == "" || any_limited users

-- roleClaim
unfoldable pub role_claim : ZitiEntraRoleSync → SyncClaim
role_claim resource = record {
  resource = object_key resource.meta;
  creation_timestamp = resource.meta.creation_timestamp;
  managed_attributes = resource.status.managed_attributes;
}

-- The loops of readOwnership.
pub claims_of : ResourceKey → List ZitiEntraRoleSync → List SyncClaim
unfolding role_claim
claims_of key [] = []
claims_of key (item ∷ items) =
    let rest = claims_of key items in
    if not (same_key (object_key item.meta) key) then role_claim item ∷ rest else rest

owners_of : List ZitiIdentity → List IdentityOwner
owners_of [] = []
owners_of (identity ∷ identities) =
    (record {
      resource = object_key identity.meta;
      identity_id = identity.status.common.id;
      identity_name = identity.spec.name;
    })
    ∷ owners_of identities

-- What readOwnership returns.
pub record Claims : Type 0 where
  pub self : SyncClaim
  pub others : List SyncClaim
  pub owners : List IdentityOwner

-- What readGraph fills in of rolesync.Input.
pub record Graph : Type 0 where
  pub scope : RoleScope
  pub members_by_group : List (String × List User)

-- sameRoleSet
unfoldable pub same_role_set : List String → List String → Bool
unfolding sort compact slices_equal
same_role_set a b = slices_equal (compact (sort a)) (compact (sort b))

abbrev pub is_replaced : ZitiEntraRoleSync → ZitiEntraRoleSync → Bool
is_replaced current resource =
    not (current.meta.uid == resource.meta.uid)
    || elim current.meta.deletion_timestamp [ none ↦ false | some _ ↦ true ]

module _ (env : Env) where
  unfoldable pub validate_role_sync_spec : ZitiEntraRoleSync → Duration × Option Err
  unfolding parsed_interval validate_with
  validate_role_sync_spec resource =
      if resource.spec.interval == ""
      then validate_with resource default_interval
      else parsed_interval (env.parse_duration resource.spec.interval) resource

  -- readDirectory: the directory is known by the calls made through it.
  unfoldable pub read_directory : ZitiEntraRoleSync → Exec (Result (Unit {0}))
  read_directory resource =
      attempt
        (perform (get_secret resource.meta.namespace resource.spec.credentials_secret_name)
          (λ t. env.secret t resource.meta.namespace resource.spec.credentials_secret_name))
        (λ e. err (wrapped "read Entra credentials Secret" e))
        (λ c. pure (
          if c.client_id == "" || c.client_secret == ""
          then err (text "credentials Secret requires clientId and clientSecret")
          else ok tt))

  unfoldable pub read_groups :
      List String → List (String × List User) → Exec (Result (List (String × List User)))
  unfolding any_limited insert
  read_groups [] members t = (ok members, t)
  read_groups (id ∷ ids) members t = elim (env.group_users t id) [
    | err e ↦ (err e, list_group_users id ∷ t)
    | ok users ↦
        let rest = read_groups ids (insert id users members) (list_group_users id ∷ t) in
        if any_limited users then (err limited_user_data, list_group_users id ∷ t) else rest
  ]

  -- The rest of readGraph, from the service principal on.
  unfoldable pub read_assigned : Option ServicePrincipal → Exec (Result Graph)
  unfolding read_groups resolve_role_scope group_ids
  read_assigned none = pure (err (text "graph returned no service principal"))
  read_assigned (some principal) =
      perform (list_assignments principal.id) (λ t. env.assignments t principal.id)
      >>= λ assignments. pure (resolve_role_scope principal assignments) >>= λ scope.
          read_groups (group_ids scope) [] >>= λ members.
          pure (ok (record { scope = scope; members_by_group = members }))

  unfoldable pub read_graph : ZitiEntraRoleSync → Exec (Result Graph)
  read_graph resource =
      perform (get_service_principal resource.spec.app_id)
        (λ t. env.service_principal t resource.spec.app_id)
      >>= read_assigned

  unfoldable pub read_role_sync : ZitiEntraRoleSync → Exec (Result ZitiEntraRoleSync)
  read_role_sync resource =
      perform (get_role_sync (object_key resource.meta))
        (λ t. env.role_sync t (object_key resource.meta))
      >>= λ current. pure (
          if is_replaced current resource
          then err (text "role sync resource was replaced or is deleting")
          else ok current)

  unfoldable pub read_ownership : ZitiEntraRoleSync → Exec (Result Claims)
  unfolding read_role_sync claims_of owners_of role_claim
  read_ownership resource = read_role_sync resource >>= λ self.
      perform list_role_syncs env.role_syncs >>= λ syncs.
      perform list_identities env.identities >>= λ identities. pure (
        ok (record {
          self = role_claim self;
          others = claims_of (object_key resource.meta) syncs;
          owners = owners_of identities;
        }))

  -- The end of recordRoleClaims, for the resource as the API has it now.
  unfoldable pub record_claims_in :
      ZitiEntraRoleSync
      → SyncClaim
      → List String
      → ZitiEntraRoleSync
      → Exec (Result ZitiEntraRoleSync)
  record_claims_in resource self values current =
      let claimed : ZitiEntraRoleSync = record current {
        status = record (current.status) { managed_attributes = values };
      } in
      if not (same_role_set current.status.managed_attributes self.managed_attributes)
      then pure (err (text "recorded claims changed during sync"))
      else (perform (update_status claimed) (λ t. env.status_updated t claimed) >>= λ version.
          pure (
            ok (record resource {
              meta = record (resource.meta) { resource_version = version };
              status = record (resource.status) { managed_attributes = values };
            })))

  -- recordRoleClaims, with the resource as it leaves it.
  unfoldable pub record_role_claims :
      ZitiEntraRoleSync → SyncClaim → List String → Exec (Result ZitiEntraRoleSync)
  record_role_claims resource self values =
      if same_role_set self.managed_attributes values
      then pure (ok resource)
      else (read_role_sync resource >>= record_claims_in resource self values)
