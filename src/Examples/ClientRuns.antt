-- ===== src/Examples/ClientRuns.antt =====
-- Runs of the management client.
use miniziti_operator.Prelude.{
  ◌+◌, ◌*◌, ◌≤◌, String, ◌≡◌, ◌⊎◌, refl, true, false, none, some, List, [], ◌∷◌, arith, take, drop,
}
use miniziti_operator.Errors.{Result, ok, err, response}
use miniziti_operator.Openziti.{Identity, Service}
use miniziti_operator.Openziti.Policy.{DesiredPolicy, to_access_policy}
use miniziti_operator.Openziti.Rest.{
  IdentityDetail, ServiceDetail, ServicePolicyDetail, EdgeRouterDetail,
}
use miniziti_operator.Openziti.Convert.{
  identity_from_envelope, service_from_envelope, access_policy_from_envelope,
  edge_router_from_detail,
}
use miniziti_operator.Strings.{trim_space}
use miniziti_operator.Openziti.Bodies.{
  to_access_policy_create, to_service_create, to_identity_create,
}
use miniziti_operator.Openziti.Bodies.RoundTrip.{created-read_back}
use miniziti_operator.Credentials.{ManagementConfig}
use miniziti_operator.Openziti.Client.{
  Api, Kind, detail, Call, load_config, authenticate, store, request, Env, Exec, cache_after,
  usable, same_management_config, use_authenticated_client,
}
use miniziti_operator.Openziti.Client.Session.{
  Granted, Coherent, Ended, Rejected, use_authenticated_client-Granted,
}
use miniziti_operator.Openziti.Client.Bounded.{
  requests, authentications, loads, use_authenticated_client-bounded,
}
use miniziti_operator.Openziti.Client.Interleaving.{
  Phase, ready, World, Reach, initial, next, run, begin, load, miss, grant, keep, set,
  Reach-Granted,
}
use miniziti_operator.Openziti.Client.Pages.{first, search_pages, list_pages}
use miniziti_operator.Openziti.Client.Pages.Whole.{search_pages-whole, ReadAs, list_pages-whole}

abbrev cfg : ManagementConfig
cfg = record {
  controller_url = "https://ziti";
  username = "admin";
  password = "p";
  ca_bundle_pem = "";
}

abbrev router : EdgeRouterDetail
router = record { id = some "r1"; name = some "edge" }

abbrev laptop_detail : IdentityDetail
laptop_detail = record {
  id = some "i1";
  name = some "laptop";
  type = some "Device";
  role_attributes = some ("eng" ∷ []);
  external_id = none;
}

-- The backend has one edge router and one identity; it does not know the service that is updated.
abbrev env : Env
env = record {
  config_loaded = λ t. ok cfg;
  authenticated = λ t c. ok 7;
  identity_detail = λ api t id. ok (some laptop_detail);
  service_detail = λ api t id. err (response 401);
  config_detail = λ api t id. ok none;
  service_policy_detail = λ api t id. ok none;
  router_policy_detail = λ api t id. ok none;
  identity_page = λ api t offset. ok (some (take 100 (drop offset (laptop_detail ∷ []))));
  service_page = λ api t offset. ok none;
  service_policy_page = λ api t offset. ok none;
  router_policy_page = λ api t offset. ok none;
  edge_router_page = λ api t offset. ok (some (take 100 (drop offset (router ∷ []))));
  config_type_page = λ api t offset. ok none;
  created = λ api t body. ok (some "s2");
  updated = λ api t id body. some (response 404);
  deleted = λ api t kind id. none;
  identity_patched = λ api t id attrs. none;
}

-- A function that asks for one service, which the backend rejects.
abbrev ask : Api → Exec (Result String)
ask api t = (err (response 401), request api (detail Kind.service "s1") ∷ t)

nothing_cached : Coherent env []
unfolding Coherent cache_after
nothing_cached api same = absurd cc

ask-Coherent : (api : Api) (t : List Call) → Coherent env t → Coherent env (ask api t).1
unfolding Coherent cache_after
ask-Coherent api t h = h

use_authenticated_client-Granted_example :
    Coherent env (use_authenticated_client env ask []).1
    × (Ended env false [] ask (use_authenticated_client env ask [])
        ⊎ ((s : List Call) × Rejected env ask [] s
            × Ended env true s ask (use_authenticated_client env ask [])))
use_authenticated_client-Granted_example =
    use_authenticated_client-Granted env ask [] nothing_cached ask-Coherent

use_authenticated_client-bounded_example :
    (requests (use_authenticated_client env ask []).1 ≤ 2 * 1 + 0)
    × (authentications (use_authenticated_client env ask []).1 ≤ 2 + 0)
    × (loads (use_authenticated_client env ask []).1 ≤ 2 + 0)
use_authenticated_client-bounded_example =
    use_authenticated_client-bounded env 1 ask [] (λ api t. (omega arith, refl, refl))

-- Goroutine 0 got a new session.
abbrev held : World env
held = record {
  calls = store 7 cfg ∷ authenticate cfg ∷ load_config ∷ [];
  phase =
      set env
        (set env
          (set env
            (set env (set env (λ i. Phase.idle) 0 (Phase.starting false)) 0
              (Phase.loaded false cfg))
            0 (Phase.missed false cfg))
          0 (Phase.granted false 7 cfg))
        0 (ready false 7 cfg);
}

held-Reach : Reach env held
unfolding cache_after usable same_management_config
held-Reach =
    next
      (next (next (next (next initial (run 0 begin)) (run 0 (load refl))) (run 0 (miss refl)))
        (run 0 (grant refl)))
      (run 0 keep)

Reach-Granted_example : Granted env 7 cfg held.calls
Reach-Granted_example = Reach-Granted env held 0 false 7 cfg held-Reach refl

search_pages-whole_example :
    (search_pages Kind.edge_router
      (env.edge_router_page 7)
      (λ d. edge_router_from_detail (some d))
      7
      1
      0
      []).0
    ≡ ok (
        first Kind.edge_router
          (env.edge_router_page 7)
          (λ d. edge_router_from_detail (some d))
          7
          (router ∷ []))
search_pages-whole_example =
    search_pages-whole Kind.edge_router (env.edge_router_page 7)
      (λ d. edge_router_from_detail (some d)) 7 (router ∷ []) 1 [] (λ t offset. refl) (omega arith)

list_pages-whole_example : ReadAs (laptop_detail ∷ []) (list_pages env 7 1 [] 0 []).0
list_pages-whole_example =
    list_pages-whole env 7 (laptop_detail ∷ []) 1 [] (λ t offset. refl) (omega arith)

abbrev web : Service
web = record { id = "s1"; name = "web"; role_attributes = []; config_ids = "c1" ∷ [] }

abbrev desired : DesiredPolicy
desired = record {
  name = "p";
  type = "Dial";
  identity_roles = "#eng" ∷ [];
  service_roles = "@s1" ∷ [];
  identity_roles_raw = "#eng" ∷ [];
  service_roles_raw = "@s1" ∷ [];
  semantic = "AnyOf";
}

abbrev device : Identity
device = record {
  id = "";
  name = "laptop";
  type = "Device";
  role_attributes = "eng" ∷ [];
  create_ott = true;
  external_id = "";
}

abbrev policy_detail : ServicePolicyDetail
policy_detail = record {
  id = some "i1";
  name = some "p";
  type = some "Dial";
  semantic = some "AnyOf";
  identity_roles = "#eng" ∷ [];
  service_roles = "@s1" ∷ [];
}

abbrev service_detail : ServiceDetail
service_detail = record {
  id = some "i1";
  name = some "web";
  role_attributes = some [];
  configs = "c1" ∷ [];
}

created-read_back_example :
    (access_policy_from_envelope (some policy_detail) ≡ some (to_access_policy "i1" desired))
    × (service_from_envelope (some service_detail) ≡ some (record web { id = "i1" }))
    × (identity_from_envelope (some laptop_detail)
        ≡ ok (record device { id = "i1"; create_ott = false; external_id = "" }))
unfolding to_access_policy_create to_service_create to_identity_create to_access_policy trim_space
created-read_back_example =
    created-read_back "i1" desired web device policy_detail service_detail laptop_detail refl refl
      refl (refl, refl, refl, refl, refl, refl) (refl, refl, refl, refl)
      (refl, refl, refl, refl, refl)
