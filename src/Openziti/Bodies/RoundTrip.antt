-- ===== src/Openziti/Bodies/RoundTrip.antt =====
-- What the operator sends to the management API is what it reads back.
use miniziti_operator.Prelude.{String, ◌≡◌, refl, false, ◌||◌, none, some, ◌==◌}
use miniziti_operator.Strings.{trim_space}
use miniziti_operator.Errors.{ok}
use miniziti_operator.Openziti.{Identity, Service}
use miniziti_operator.Openziti.Policy.{DesiredPolicy, to_access_policy}
use miniziti_operator.Openziti.Rest.{
  IdentityDetail, ServiceDetail, ServicePolicyDetail, Body, identity_create, service_create,
  policy_create,
}
use miniziti_operator.Openziti.Convert.{
  identity_from_envelope, service_from_envelope, access_policy_from_envelope,
}
use miniziti_operator.Openziti.Bodies.{
  to_identity_create, to_service_create, to_access_policy_create,
}

-- The detail shows, under the id, what the body holds.
abbrev pub ShowsPolicy : String → Body → ServicePolicyDetail → Type 0
ShowsPolicy id (policy_create name type semantic identity_roles service_roles) d =
    (d.id ≡ some id)
    × (d.name ≡ some name)
    × (d.type ≡ some type)
    × (d.semantic ≡ some semantic)
    × (d.identity_roles ≡ identity_roles)
    × (d.service_roles ≡ service_roles)
ShowsPolicy id _ d = ⊥

abbrev pub ShowsService : String → Body → ServiceDetail → Type 0
ShowsService id (service_create name role_attributes configs) d =
    (d.id ≡ some id)
    × (d.name ≡ some name)
    × (d.role_attributes ≡ some role_attributes)
    × (d.configs ≡ configs)
ShowsService id _ d = ⊥

abbrev pub ShowsIdentity : String → Body → IdentityDetail → Type 0
ShowsIdentity id (identity_create name type role_attributes ott) d =
    (d.id ≡ some id)
    × (d.name ≡ some name)
    × (d.type ≡ some type)
    × (d.role_attributes ≡ some role_attributes)
    × (d.external_id ≡ none)
ShowsIdentity id _ d = ⊥

-- What the backend shows as it was sent in a creation is read back. A desired policy whose raw roles are
-- its roles is read back as the policy that an update of it under the new id would push. A service is
-- read back with the new id and no other change. An identity is read back with its name, its type, its
-- role attributes and the new id, if none of id, name and type is blank; its request for a one-time
-- token, and its external id, which is not sent, are not read back.
pub created-read_back :
    (id : String) (desired : DesiredPolicy) (service : Service) (identity : Identity)
    (pd : ServicePolicyDetail) (sd : ServiceDetail) (ed : IdentityDetail)
    → desired.identity_roles_raw ≡ desired.identity_roles
    → desired.service_roles_raw ≡ desired.service_roles
    → (trim_space id == "" || (trim_space identity.name == "" || trim_space identity.type == ""))
      ≡ false
    → ShowsPolicy id (to_access_policy_create (to_access_policy "" desired)) pd
    → ShowsService id (to_service_create service) sd
    → ShowsIdentity id (to_identity_create identity) ed
    → (access_policy_from_envelope (some pd) ≡ some (to_access_policy id desired))
      × (service_from_envelope (some sd) ≡ some (record service { id = id }))
      × (identity_from_envelope (some ed)
          ≡ ok (record identity { id = id; create_ott = false; external_id = "" }))
unfolding access_policy_from_envelope service_from_envelope identity_from_envelope to_access_policy
    to_access_policy_create to_service_create to_identity_create
created-read_back id desired service identity pd sd ed ri rs present p s e = (
  rw (p.0, p.1, p.2, p.3, p.4, p.5, ri, rs) refl,
  rw (s.0, s.1, s.2, s.3) refl,
  rw (e.0, e.1, e.2, e.3, e.4, present) refl,
)
