-- ===== src/Controller/Service/Run/Quiet.antt =====
-- The parts of a run of the reconciler of services that write no router policy.
use miniziti_operator.Prelude.{
  String, ◌≡◌, ◌∙◌, refl, true, none, some, Option, List, [], ◌∷◌, ◌==◌, arith, Bool-cases,
  Option-cases, inl, inr,
}
use miniziti_operator.Strings.{trim_space, contains}
use miniziti_operator.Errors.{Err, Result, ok, err}
use miniziti_operator.Calls.{handle}
use miniziti_operator.Openziti.Policy.{snoc}
use miniziti_operator.Openziti.{Service, ServiceConfig}
use miniziti_operator.Openziti.ServiceModel.{DesiredService}
use miniziti_operator.Api.{ZitiService}
use miniziti_operator.Controller.Service.Effects.{Call, Env, Exec}
use miniziti_operator.Controller.Service.Routers.{
  desired_router_policies, router_identity, resolve_edge_router_id, resolve_additional,
  resolve_routers,
}
use miniziti_operator.Controller.Service.Backend.{
  reconcile_service, update_configs, reconcile_config, delete_known, push_found_service,
}
use miniziti_operator.Controller.Service.Run.{
  delete_bind_policy, delete_router_policies, finish_unrouted, reconcile_unrouted,
}
use miniziti_operator.Controller.Service.Run.Writes.{
  router_writes, Quiet, mark_failed-Quiet, report_ready-Quiet,
}

module _ (env : Env) where
  pub resolve_edge_router_id-Quiet : (name : String) → Quiet (resolve_edge_router_id env name)
  unfolding resolve_edge_router_id
  resolve_edge_router_id-Quiet name t = ground arith

  pub handle-Quiet :
      {A B : Type 0} (r : Result A) (fail : Err → B) (f : A → Exec B) (t : List Call)
      → ((a : A) → router_writes (f a t).1 ≡ router_writes t)
      → router_writes (handle r fail f t).1 ≡ router_writes t
  handle-Quiet (ok a) fail f t h = h a
  handle-Quiet (err e) fail f t h = refl

  pub resolve_additional-Quiet :
      (seen ids names : List String) → Quiet (resolve_additional env seen ids names)
  unfolding resolve_additional
  resolve_additional-Quiet seen ids [] t = refl
  resolve_additional-Quiet seen ids (raw ∷ names) t =
      let name = trim_space raw in
      let found = resolve_edge_router_id env name t in
      elim (Bool-cases (name == "")) [
        | inl e ↦ rw e refl
        | inr n ↦ elim (Bool-cases (contains seen name)) [
          | inl e ↦ rw (n, e) (resolve_additional-Quiet seen ids names t)
          | inr m ↦
              rw (n, m)
                (handle-Quiet found.0 err
                    (λ id. resolve_additional env (name ∷ seen) (snoc ids id) names) found.1
                    (λ id. resolve_additional-Quiet (name ∷ seen) (snoc ids id) names found.1)
                  ∙ resolve_edge_router_id-Quiet name t)
        ]
      ]

  pub desired_router_policies-Quiet :
      (resource : ZitiService) (service_id : String)
      → Quiet (desired_router_policies env resource service_id)
  unfolding desired_router_policies resolve_routers
  desired_router_policies-Quiet resource service_id t = elim (Option-cases resource.spec.router) [
    | inl e ↦ rw e refl
    | inr (router, e) ↦ elim (Bool-cases (trim_space router.name == "")) [
      | inl blank ↦ rw (e, blank) refl
      | inr named ↦
          let name = trim_space router.name in
          rw (e, named)
            (handle-Quiet (env.identity_by_name t name) _ _ _ λ found.
              handle-Quiet (router_identity env name found) _ _ _ λ identity.
                handle-Quiet (resolve_edge_router_id env name _).0 _ _ _ (λ host.
                  handle-Quiet
                    (resolve_additional env (name ∷ []) []
                      router.additional_allowed_edge_router_names _).0
                    _ _ _ (λ additional. refl)
                  ∙ resolve_additional-Quiet (name ∷ []) []
                      router.additional_allowed_edge_router_names _)
                ∙ resolve_edge_router_id-Quiet name _)
    ]
  ]

  pub reconcile_service-Quiet :
      (service : ZitiService) (desired : DesiredService)
      → Quiet (reconcile_service env service desired)
  unfolding reconcile_service push_found_service
  reconcile_service-Quiet service desired t = ground arith

  pub reconcile_config-Quiet :
      (id : String) (desired : ServiceConfig) → Quiet (reconcile_config env id desired)
  unfolding reconcile_config
  reconcile_config-Quiet id desired t = ground arith

  pub update_configs-Quiet :
      (backend : Service) (desired : DesiredService) → Quiet (update_configs env backend desired)
  unfolding update_configs
  update_configs-Quiet backend desired t = refl

  pub delete_router_policies-Quiet :
      (service : ZitiService) → Quiet (delete_router_policies env service)
  unfolding delete_router_policies delete_bind_policy delete_known
  delete_router_policies-Quiet service t = ground arith

  pub finish_unrouted-Quiet :
      (cleaned : ZitiService × Option Err) → Quiet (finish_unrouted env cleaned)
  unfolding finish_unrouted
  finish_unrouted-Quiet (service, some e) t =
      mark_failed-Quiet env service e "RouterPolicyCleanupFailed" true t
  finish_unrouted-Quiet (service, none) t = report_ready-Quiet env service t

  pub reconcile_unrouted-Quiet : (service : ZitiService) → Quiet (reconcile_unrouted env service)
  unfolding reconcile_unrouted
  reconcile_unrouted-Quiet service t =
      finish_unrouted-Quiet (delete_router_policies env service t).0 _
      ∙ delete_router_policies-Quiet service t
