-- ===== src/Controller/Service/Backend.antt =====
-- The functions of zitiservice_controller.go that bring one backend object to its desired state.
use miniziti_operator.Prelude.{String, not, Option, none, some, List, ◌∷◌, ◌==◌, if◌then◌else◌}
use miniziti_operator.Errors.{Err, Result, ok, err}
use miniziti_operator.Calls.{pure, perform, attempt}
use miniziti_operator.Openziti.{AccessPolicy, Service, ServiceConfig, ServiceEdgeRouterPolicy}
use miniziti_operator.Openziti.ServiceModel.{DesiredService, to_service}
use miniziti_operator.Api.{ZitiService}
use miniziti_operator.Controller.Service.Effects.{
  Call, find_service, create_service, update_service, create_config, update_config, find_policy,
  create_policy, update_policy, find_router_policy, create_router_policy, update_router_policy, Env,
  Exec,
}

abbrev pub policy_with_id : String → AccessPolicy → AccessPolicy
policy_with_id id policy = record policy { id = id }

abbrev pub router_policy_with_id : String → ServiceEdgeRouterPolicy → ServiceEdgeRouterPolicy
router_policy_with_id id policy = record policy { id = id }

module _ (env : Env) where
  abbrev put_service : String → DesiredService → Exec (Result (Option Service))
  put_service id desired =
      let service = to_service id desired in
      perform (update_service service) (λ t. env.service_updated t service)

  abbrev add_service : DesiredService → Exec (Result (Option Service))
  add_service desired =
      let service = to_service "" desired in
      perform (create_service service) (λ t. env.service_created t service)

  unfoldable pub push_found_service :
      DesiredService → Option Service → Exec (Result (Option Service))
  push_found_service desired none = add_service desired
  push_found_service desired (some existing) = put_service existing.id desired

  -- reconcileService
  unfoldable pub reconcile_service : ZitiService → DesiredService → Exec (Result (Option Service))
  unfolding push_found_service
  reconcile_service resource desired =
      if not (resource.status.common.id == "")
      then put_service resource.status.common.id desired
      else attempt (perform (find_service desired.name) (λ t. env.service_by_name t desired.name))
          err (push_found_service desired)

  -- ServiceManager.Update, which Reconcile calls once more for the configs
  unfoldable pub update_configs : Service → DesiredService → Exec (Result (Option Service))
  update_configs backend desired = put_service backend.id desired

  -- reconcileConfig
  unfoldable pub reconcile_config : String → ServiceConfig → Exec (Result (Option ServiceConfig))
  reconcile_config existing_id desired =
      let kept : ServiceConfig = record desired { id = existing_id } in
      if not (existing_id == "")
      then perform (update_config kept) (λ t. env.config_updated t kept)
      else perform (create_config desired) (λ t. env.config_created t desired)

  abbrev put_policy : AccessPolicy → Exec (Result (Option AccessPolicy))
  put_policy policy = perform (update_policy policy) (λ t. env.policy_updated t policy)

  unfoldable pub push_found_policy :
      AccessPolicy → Option AccessPolicy → Exec (Result (Option AccessPolicy))
  push_found_policy desired none =
      perform (create_policy desired) (λ t. env.policy_created t desired)
  push_found_policy desired (some existing) = put_policy (policy_with_id existing.id desired)

  -- The part of reconcileAccessPolicy without a known id.
  unfoldable pub adopt_policy : AccessPolicy → Exec (Result (Option AccessPolicy))
  unfolding push_found_policy
  adopt_policy desired =
      attempt (perform (find_policy desired.name) (λ t. env.policy_by_name t desired.name)) err
        (push_found_policy desired)

  -- An update that returned a nil policy and no error is not the end.
  unfoldable pub policy_or_adopt :
      AccessPolicy → Result (Option AccessPolicy) → Exec (Result (Option AccessPolicy))
  unfolding adopt_policy
  policy_or_adopt desired (err e) = pure (err e)
  policy_or_adopt desired (ok none) = adopt_policy desired
  policy_or_adopt desired (ok (some updated)) = pure (ok (some updated))

  -- reconcileAccessPolicy
  unfoldable pub reconcile_access_policy :
      String → AccessPolicy → Exec (Result (Option AccessPolicy))
  unfolding policy_or_adopt adopt_policy
  reconcile_access_policy existing_id desired t =
      let kept = policy_with_id existing_id desired in
      let updated = put_policy kept t in
      if not (existing_id == "")
      then policy_or_adopt kept updated.0 updated.1
      else adopt_policy desired t

  abbrev put_router_policy :
      ServiceEdgeRouterPolicy → Exec (Result (Option ServiceEdgeRouterPolicy))
  put_router_policy policy =
      perform (update_router_policy policy) (λ t. env.router_policy_updated t policy)

  unfoldable pub push_found_router_policy :
      ServiceEdgeRouterPolicy
      → Option ServiceEdgeRouterPolicy
      → Exec (Result (Option ServiceEdgeRouterPolicy))
  push_found_router_policy desired none =
      perform (create_router_policy desired) (λ t. env.router_policy_created t desired)
  push_found_router_policy desired (some existing) =
      put_router_policy (router_policy_with_id existing.id desired)

  -- The part of reconcileServiceEdgeRouterPolicy without a known id.
  unfoldable pub adopt_router_policy :
      ServiceEdgeRouterPolicy → Exec (Result (Option ServiceEdgeRouterPolicy))
  unfolding push_found_router_policy
  adopt_router_policy desired =
      attempt
        (perform (find_router_policy desired.name) (λ t. env.router_policy_by_name t desired.name))
        err (push_found_router_policy desired)

  unfoldable pub router_policy_or_adopt :
      ServiceEdgeRouterPolicy
      → Result (Option ServiceEdgeRouterPolicy)
      → Exec (Result (Option ServiceEdgeRouterPolicy))
  unfolding adopt_router_policy
  router_policy_or_adopt desired (err e) = pure (err e)
  router_policy_or_adopt desired (ok none) = adopt_router_policy desired
  router_policy_or_adopt desired (ok (some updated)) = pure (ok (some updated))

  -- reconcileServiceEdgeRouterPolicy
  unfoldable pub reconcile_service_edge_router_policy :
      String → ServiceEdgeRouterPolicy → Exec (Result (Option ServiceEdgeRouterPolicy))
  unfolding router_policy_or_adopt adopt_router_policy
  reconcile_service_edge_router_policy existing_id desired t =
      let kept = router_policy_with_id existing_id desired in
      let updated = put_router_policy kept t in
      if not (existing_id == "")
      then router_policy_or_adopt kept updated.0 updated.1
      else adopt_router_policy desired t

  -- A deletion by an id, which is left out where there is no id.
  unfoldable pub delete_known :
      (String → Call) → (List Call → String → Option Err) → String → Exec (Option Err)
  delete_known call answer id t = if not (id == "") then (answer t id, call id ∷ t) else (none, t)
