-- ===== src/Examples/ServiceRuns.antt =====
-- Runs of the reconciler of services.
use Prim.Native.String.{◌++◌}
use miniziti_operator.Prelude.{String, ◌≡◌, ◌⊎◌, refl, true, false, none, some, [], ◌∷◌, length}
use miniziti_operator.Strings.{contains}
use miniziti_operator.Strings.Sets.{Ascending}
use miniziti_operator.Errors.{ok}
use miniziti_operator.Openziti.Policy.{expression}
use miniziti_operator.Openziti.ServiceModel.{RouterPolicySet, blank_router, router_policies}
use miniziti_operator.Openziti.ServiceModel.Roles.{is_role_of, router_policies-exact}
use miniziti_operator.Api.{ZitiService}
use miniziti_operator.Controller.Service.Effects.{Env, finalizer, validate_service_spec}
use miniziti_operator.Controller.Service.Run.{reconcile_live, reconcile_delete}
use miniziti_operator.Controller.Service.Run.Writes.{router_writes}
use miniziti_operator.Controller.Service.Run.Routed.{Routed, reconcile_live-Routed}
use miniziti_operator.Controller.Service.Run.Released.{
  resource_updates, Released, reconcile_delete-Released,
}
use miniziti_operator.Examples.{caseless, listed, laptop, meta_of, fresh}

abbrev service : ZitiService
service = record {
  meta = record (meta_of "web") { finalizers = finalizer ∷ [] };
  spec = record {
    name = "web";
    role_attributes = "eng" ∷ [];
    router = some (record {
      name = "edge";
      additional_allowed_edge_router_names = "b" ∷ " b " ∷ "edge" ∷ [];
    });
    configs = record {
      intercept = record {
        protocols = "tcp" ∷ [];
        addresses = [];
        port_ranges = (record { low = 80; high = 443 }) ∷ [];
      };
      host = record { protocol = "tcp"; address = "web"; port = 80 };
    };
  };
  status = record {
    common = record fresh { id = "s1" };
    config_ids = record { intercept = "c1"; host = "c2" };
    bind_policy_id = "p1";
    service_edge_router_policy_id = "";
  };
}

-- The backend stores what it is given; an edge router has the id of its name in front of "-id".
abbrev env : Env
env = record {
  tables = caseless;
  api_meta = listed;
  error_message = λ e. "failed";
  semantic_equal = λ a b. false;
  now = length;
  cached = λ t key. ok service;
  resource_updated = λ t s. none;
  status_updated = λ t s. none;
  service_by_name = λ t name. ok none;
  service_created = λ t s. ok (some s);
  service_updated = λ t s. ok (some s);
  service_deleted = λ t id. none;
  config_created = λ t c. ok (some c);
  config_updated = λ t c. ok (some c);
  config_deleted = λ t id. none;
  identity_by_name = λ t name. ok (some (record laptop { type = "router" }));
  edge_router_by_name = λ t name. ok (some (record { id = name ++ "-id"; name = name }));
  policy_by_name = λ t name. ok none;
  policy_created = λ t p. ok (some p);
  policy_updated = λ t p. ok none;
  policy_deleted = λ t id. none;
  router_policy_by_name = λ t name. ok none;
  router_policy_created = λ t p. ok (some p);
  router_policy_updated = λ t p. ok (some p);
  router_policy_deleted = λ t id. none;
}

reconcile_live-Routed_example :
    (router_writes (reconcile_live env service []).1 ≡ [])
    ⊎ ((contains service.meta.finalizers finalizer ≡ true)
        × (validate_service_spec service ≡ none)
        × Routed env service [] (reconcile_live env service []).1)
reconcile_live-Routed_example = reconcile_live-Routed env service []

reconcile_delete-Released_example :
    (resource_updates (reconcile_delete env service []).1 ≡ [])
    ⊎ Released env service [] (reconcile_delete env service []).1
reconcile_delete-Released_example = reconcile_delete-Released env service [] tt

router_policies-exact_example :
    (policies : RouterPolicySet) × (router_policies service "s1" "i1" "b" ("a" ∷ "b" ∷ [])
      ≡ some policies)
    × (policies.bind_policy.identity_roles_raw ≡ expression "@" "i1" ∷ [])
    × (policies.bind_policy.service_roles_raw ≡ expression "@" "s1" ∷ [])
    × (policies.bind_policy.identity_roles ≡ policies.bind_policy.identity_roles_raw)
    × (policies.bind_policy.service_roles ≡ policies.bind_policy.service_roles_raw)
    × (policies.service_edge_router_policy.service_roles ≡ expression "@" "s1" ∷ [])
    × Ascending policies.service_edge_router_policy.edge_router_roles
    × ((role : String)
        → contains policies.service_edge_router_policy.edge_router_roles role
          ≡ is_role_of ("b" ∷ "a" ∷ "b" ∷ []) role)
unfolding blank_router
router_policies-exact_example = router_policies-exact service "s1" "i1" "b" ("a" ∷ "b" ∷ []) refl
