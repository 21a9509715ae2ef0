-- ===== src/Openziti/ServiceModel/Roles.antt =====
-- The edge routers that RouterPolicies of internal/openziti/service/router_policies.go admits.
use miniziti_operator.Prelude.{
  String, ◌≡◌, ◌||◌, Bool, false, some, List, [], ◌∷◌, map, ◌==◌, refl, ap, ◌∙◌,
}
use miniziti_operator.Strings.{contains}
use miniziti_operator.Strings.Sets.{Ascending}
use miniziti_operator.Strings.Compact.{compact-sort-Ascending, contains-compact-sort}
use miniziti_operator.Openziti.Policy.{expression}
use miniziti_operator.Api.{ZitiService}
use miniziti_operator.Openziti.ServiceModel.{
  blank_router, router_roles, RouterPolicySet, router_policies,
}

-- The role names one of the routers.
abbrev pub is_role_of : List String → String → Bool
is_role_of [] role = false
is_role_of (id ∷ ids) role = expression "@" id == role || is_role_of ids role

contains-map-expression :
    (ids : List String) (role : String)
    → contains (map (expression "@") ids) role ≡ is_role_of ids role
unfolding contains
contains-map-expression [] role = refl
contains-map-expression (id ∷ ids) role =
    ap (λ b. expression "@" id == role || b) (contains-map-expression ids role)

router_roles-exact :
    (host : String) (additional : List String)
    → Ascending (router_roles host additional)
      × ((role : String)
          → contains (router_roles host additional) role ≡ is_role_of (host ∷ additional) role)
unfolding router_roles
router_roles-exact host additional = (
  compact-sort-Ascending (map (expression "@") (host ∷ additional)),
  λ role.
      contains-compact-sort (map (expression "@") (host ∷ additional)) role
      ∙ contains-map-expression (host ∷ additional) role,
)

-- A service whose router is named has router policies. The bind policy grants the router's identity and
-- the service and nothing else, and it is enforced as it is reported. The roles of the service edge
-- router policy are in ascending order, so they have no duplicate, and they are those of the hosting
-- router and of the additional ones: no router is dropped, and no other is admitted.
pub router_policies-exact :
    (resource : ZitiService) (service_id identity_id host : String) (additional : List String)
    → blank_router resource.spec.router ≡ false
    → (policies : RouterPolicySet) × (router_policies resource service_id identity_id host
          additional
        ≡ some policies)
      × (policies.bind_policy.identity_roles_raw ≡ expression "@" identity_id ∷ [])
      × (policies.bind_policy.service_roles_raw ≡ expression "@" service_id ∷ [])
      × (policies.bind_policy.identity_roles ≡ policies.bind_policy.identity_roles_raw)
      × (policies.bind_policy.service_roles ≡ policies.bind_policy.service_roles_raw)
      × (policies.service_edge_router_policy.service_roles ≡ expression "@" service_id ∷ [])
      × Ascending policies.service_edge_router_policy.edge_router_roles
      × ((role : String)
          → contains policies.service_edge_router_policy.edge_router_roles role
            ≡ is_role_of (host ∷ additional) role)
unfolding router_policies
router_policies-exact resource service_id identity_id host additional named =
    let roles = router_roles-exact host additional in
    rw named (_, refl, refl, refl, refl, refl, refl, roles.0, roles.1)
