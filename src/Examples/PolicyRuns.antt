-- ===== src/Examples/PolicyRuns.antt =====
-- Runs of the reconciler of access policies.
use miniziti_operator.Prelude.{
  ◌+◌, String, ◌≡◌, ◌⊎◌, true, false, ◌||◌, none, some, [], ◌∷◌, ◌==◌, length,
}
use miniziti_operator.Strings.{contains}
use miniziti_operator.Strings.Sets.{Distinct}
use miniziti_operator.Errors.{ok}
use miniziti_operator.Openziti.Policy.{selector_roles}
use miniziti_operator.Openziti.Policy.Expressions.{named, selector_roles-exact}
use miniziti_operator.Api.{SelectorSpec, ZitiAccessPolicy, ZitiIdentity, ZitiService}
use miniziti_operator.Controller.AccessPolicy.Effects.{Env, finalizer}
use miniziti_operator.Controller.AccessPolicy.Run.{reconcile_delete}
use miniziti_operator.Controller.AccessPolicy.Run.Guarded.{
  pushes, resource_updates, reconcile_delete-deletes_first,
}
use miniziti_operator.Controller.AccessPolicy.Selectors.{no_matches, tally_items, identity_item}
use miniziti_operator.Controller.AccessPolicy.Selectors.Matches.{
  granted, waiting, matched, tally_items-exact,
}
use miniziti_operator.Examples.{listed, laptop, meta_of, fresh}

abbrev by_name : SelectorSpec
by_name = record { match_names = "laptop" ∷ []; match_role_attributes = "eng" ∷ [] }

abbrev policy : ZitiAccessPolicy
policy = record {
  meta = record (meta_of "p") { finalizers = finalizer ∷ [] };
  spec = record { type = "Dial"; identity_selector = by_name; service_selector = by_name };
  status = record {
    common = record fresh { id = "p1" };
    resolved_identity_count = 0;
    resolved_service_count = 0;
  };
}

abbrev identity : ZitiIdentity
identity = record {
  meta = meta_of "laptop";
  spec = record {
    name = "laptop";
    type = "User";
    role_attributes = [];
    enrollment = record { create_jwt_secret = false; jwt_secret_name = "" };
  };
  status = record { common = record fresh { id = "i1" }; jwt_secret_name = "" };
}

abbrev service : ZitiService
service = record {
  meta = meta_of "web";
  spec = record {
    name = "web";
    role_attributes = "eng" ∷ [];
    router = none;
    configs = record {
      intercept = record { protocols = []; addresses = []; port_ranges = [] };
      host = record { protocol = "tcp"; address = "web"; port = 80 };
    };
  };
  status = record {
    common = fresh;
    config_ids = record { intercept = ""; host = "" };
    bind_policy_id = "";
    service_edge_router_policy_id = "";
  };
}

abbrev env : Env
env = record {
  api_meta = listed;
  error_message = λ e. "failed";
  semantic_equal = λ a b. false;
  now = length;
  identity_service = true;
  cached = λ t key. ok policy;
  resource_updated = λ t p. none;
  status_updated = λ t p. none;
  identities = λ t namespace. ok (identity ∷ []);
  services = λ t namespace. ok (service ∷ []);
  backend_identities = λ t. ok (laptop ∷ []);
  policy_by_name = λ t name. ok none;
  policy_created = λ t p. ok (some p);
  policy_updated = λ t p. ok (some p);
  policy_deleted = λ t id. none;
}

reconcile_delete-deletes_first_example :
    (pushes (reconcile_delete env policy []).1 ≡ [])
    × ((resource_updates (reconcile_delete env policy []).1 ≡ [])
        ⊎ (("p1" == "") ≡ true)
        ⊎ (env.policy_deleted [] "p1" ≡ none))
reconcile_delete-deletes_first_example = reconcile_delete-deletes_first env policy []

tally_items-exact_example :
    ((id : String)
      → contains (tally_items by_name no_matches (identity_item identity ∷ [])).ids id
        ≡ granted by_name (identity_item identity ∷ []) id)
    × ((tally_items by_name no_matches (identity_item identity ∷ [])).pending
        ≡ waiting by_name (identity_item identity ∷ []))
    × ((tally_items by_name no_matches (identity_item identity ∷ [])).count
          + (tally_items by_name no_matches (identity_item identity ∷ [])).pending
        ≡ matched by_name (identity_item identity ∷ []))
tally_items-exact_example = tally_items-exact by_name (identity_item identity ∷ [])

selector_roles-exact_example :
    ((e : String)
      → contains
          (selector_roles (record { ids = " i1 " ∷ "i1" ∷ []; role_attributes = "eng" ∷ [] }))
          e
        ≡ named "@" (" i1 " ∷ "i1" ∷ []) e || named "#" ("eng" ∷ []) e)
    × Distinct (selector_roles (record { ids = " i1 " ∷ "i1" ∷ []; role_attributes = "eng" ∷ [] }))
selector_roles-exact_example =
    selector_roles-exact (record { ids = " i1 " ∷ "i1" ∷ []; role_attributes = "eng" ∷ [] })
