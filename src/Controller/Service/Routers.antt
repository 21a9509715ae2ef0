-- ===== src/Controller/Service/Routers.antt =====
-- internal/controller/zitiservice_router_policies.go
pub mod Resolved
use Prim.Native.String.{◌++◌}
use miniziti_operator.Prelude.{String, not, Option, none, some, List, [], ◌∷◌, ◌==◌, if◌then◌else◌}
use miniziti_operator.Strings.{trim_space, contains, equal_fold}
use miniziti_operator.Errors.{Result, ok, err, text, wrapped}
use miniziti_operator.Calls.{pure, perform, attempt, handle}
use miniziti_operator.Openziti.{Identity, EdgeRouter}
use miniziti_operator.Openziti.Policy.{snoc}
use miniziti_operator.Openziti.ServiceModel.{RouterPolicySet, router_policies}
use miniziti_operator.Api.{ServiceRouterSpec, ZitiService}
use miniziti_operator.Controller.Service.Effects.{find_identity, find_edge_router, Env, Exec}

-- The checks of resolveEdgeRouterID on what was found.
abbrev edge_router_id : String → Option EdgeRouter → Result String
edge_router_id name none = err (text ("edge router not found or has an empty ID: " ++ name))
edge_router_id name (some router) =
    if trim_space router.id == ""
    then err (text ("edge router not found or has an empty ID: " ++ name))
    else ok (trim_space router.id)

-- The checks of desiredRouterPolicies on the router's identity.
abbrev pub router_identity : Env → String → Option Identity → Result Identity
router_identity env name none = err (text ("router identity not found: " ++ name))
router_identity env name (some identity) =
    if trim_space identity.id == ""
    then err (text ("router identity not found: " ++ name))
    else if not (equal_fold env.tables (trim_space identity.type) "Router")
    then err (text ("identity is not a Router identity: " ++ name))
    else ok identity

module _ (env : Env) where
  -- resolveEdgeRouterID
  unfoldable pub resolve_edge_router_id : String → Exec (Result String)
  unfolding trim_space
  resolve_edge_router_id name =
      attempt (perform (find_edge_router name) (λ t. env.edge_router_by_name t name))
        (λ e. err (wrapped "resolve edge router" e)) (λ found. pure (edge_router_id name found))

  -- The loop over the additional routers, with the names seen and the ids resolved so far.
  unfoldable pub resolve_additional :
      List String → List String → List String → Exec (Result (List String))
  unfolding trim_space contains resolve_edge_router_id snoc
  resolve_additional seen ids [] = pure (ok ids)
  resolve_additional seen ids (raw ∷ names) =
      let name = trim_space raw in
      let skip = resolve_additional seen ids names in
      let go : String → Exec (Result (List String)) =
        λ id. resolve_additional (name ∷ seen) (snoc ids id) names in
      if name == ""
      then pure
          (err (text "spec.router.additionalAllowedEdgeRouterNames must not contain blank names"))
      else if contains seen name
      then skip
      else attempt (resolve_edge_router_id name) err go

  -- The end of desiredRouterPolicies.
  abbrev policies_or_error : Option RouterPolicySet → Result RouterPolicySet
  policies_or_error none = err (text "spec.router.name must not be empty")
  policies_or_error (some policies) = ok policies

  unfoldable pub resolve_routers :
      ZitiService → String → ServiceRouterSpec → Exec (Result RouterPolicySet)
  unfolding trim_space equal_fold resolve_edge_router_id resolve_additional router_policies
  resolve_routers resource service_id router =
      let name = trim_space router.name in
      if name == ""
      then pure (err (text "spec.router.name must not be empty"))
      else attempt (perform (find_identity name) (λ t. env.identity_by_name t name))
          (λ e. err (wrapped "resolve router identity" e))
          λ found. handle (router_identity env name found) err λ identity.
            attempt (resolve_edge_router_id name) err λ host.
              attempt
                (resolve_additional (name ∷ []) [] router.additional_allowed_edge_router_names) err
                λ additional. pure (
                  policies_or_error
                    (router_policies resource service_id identity.id host additional))

  -- desiredRouterPolicies
  unfoldable pub desired_router_policies : ZitiService → String → Exec (Result RouterPolicySet)
  unfolding resolve_routers
  desired_router_policies resource service_id = elim resource.spec.router [
    | none ↦ pure (err (text "spec.router.name must not be empty"))
    | some router ↦ resolve_routers resource service_id router
  ]
