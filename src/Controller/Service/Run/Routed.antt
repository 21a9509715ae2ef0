-- ===== src/Controller/Service/Run/Routed.antt =====
-- Which router policies a run of the reconciler of services writes to the backend.
use miniziti_operator.Prelude.{
  String, ◌≡◌, ◌∙◌, ap, refl, true, false, not, none, some, Option, List, [], ◌∷◌, ◌++◌, arith,
  Bool-cases, Option-cases, inl, inr, ◌⊎◌,
}
use miniziti_operator.Strings.{contains, slices_equal}
use miniziti_operator.Errors.{Result, Result-cases}
use miniziti_operator.Openziti.{Service, ServiceConfig}
use miniziti_operator.Openziti.ServiceModel.{DesiredService, RouterPolicySet}
use miniziti_operator.Api.{ZitiService, ServiceRouterSpec}
use miniziti_operator.Controller.Helpers.{Done, ensure_finalizer}
use miniziti_operator.Controller.Service.Effects.{Call, Env, Exec, finalizer, validate_service_spec}
use miniziti_operator.Controller.Service.Routers.{desired_router_policies}
use miniziti_operator.Controller.Service.Routers.Resolved.{
  AllResolved, desired_router_policies-AllResolved,
}
use miniziti_operator.Controller.Service.Backend.{policy_with_id, router_policy_with_id}
use miniziti_operator.Controller.Service.Run.{
  or_fail, stage, pointer, reconcile_policies, reconcile_router, reconcile_backed,
  reconcile_configured, reconcile_valid, reconcile_live, with_backend, with_router_policy_id,
  with_bind_policy_id,
}
use miniziti_operator.Controller.Service.Run.Writes.{
  RouterWrite, bind, route, router_writes, WritesOnly, reconcile_access_policy-WritesOnly,
  reconcile_service_edge_router_policy-WritesOnly, mark_failed-Quiet, report_ready-WritesIn,
  WritesIn, stage-WritesIn, pointer-WritesIn,
}
use miniziti_operator.Controller.Service.Run.Quiet.{
  desired_router_policies-Quiet, reconcile_service-Quiet, reconcile_config-Quiet,
  update_configs-Quiet, reconcile_unrouted-Quiet,
}

-- The write is of one of the two policies, with some id.
abbrev pub OneOf : RouterPolicySet → RouterWrite → Type 0
OneOf policies w =
    ((id : String) × (w ≡ bind (policy_with_id id policies.bind_policy)))
    ⊎ ((id : String) × (w ≡ route (router_policy_with_id id policies.service_edge_router_policy)))

module _ (env : Env) where
  reconcile_policies-WritesIn :
      (service : ZitiService) (policies : RouterPolicySet)
      → WritesIn env (OneOf policies) (reconcile_policies env service policies)
  unfolding reconcile_policies
  reconcile_policies-WritesIn service policies =
      stage-WritesIn env (OneOf policies) service _ _ _
        (λ t.
          reconcile_access_policy-WritesOnly env (OneOf policies) policies.bind_policy
            service.status.bind_policy_id t (λ id. inl (id, refl)))
        λ bound.
          stage-WritesIn env (OneOf policies) service _ _ _
            (λ t.
              reconcile_service_edge_router_policy-WritesOnly env (OneOf policies)
                policies.service_edge_router_policy service.status.service_edge_router_policy_id t
                (λ id. inr (id, refl)))
            λ routed. pointer-WritesIn env (OneOf policies) bound _ λ b.
              pointer-WritesIn env (OneOf policies) routed _ λ r.
                report_ready-WritesIn env (OneOf policies)
                  (with_router_policy_id (with_bind_policy_id service b.id) r.id)

  -- At a point before which no router policy was written, the routers were resolved, for the service as
  -- it was then; the rest of the run is the writing of the two policies that they were resolved to, and
  -- writes no other.
  abbrev pub Routed : ZitiService → List Call → List Call → Type 0
  Routed service t t' =
      (current : ZitiService) × (service_id : String) × (s : List Call)
      × (policies : RouterPolicySet) × (current.spec ≡ service.spec)
      × (router_writes s ≡ router_writes t)
      × AllResolved env current service_id s policies
      × ((reconcile_policies env current policies
            (desired_router_policies env current service_id s).1).1
          ≡ t')
      × WritesOnly (OneOf policies) t t'

  -- The same, or no router policy was written.
  abbrev pub RoutedOrQuiet : ZitiService → List Call → List Call → Type 0
  RoutedOrQuiet service t t' = (router_writes t' ≡ router_writes t) ⊎ Routed service t t'

  -- Quiet calls in front change nothing.
  RoutedOrQuiet-after :
      (service current : ZitiService) (t s u : List Call)
      → current.spec ≡ service.spec
      → router_writes s ≡ router_writes t
      → RoutedOrQuiet current s u
      → RoutedOrQuiet service t u
  RoutedOrQuiet-after service current t s u same e (inl q) = inl (q ∙ e)
  RoutedOrQuiet-after service current t s u same e
        (inr (c, id, r, ps, spec, none_yet, resolved, rest, wrote)) =
      inr (
        c,
        id,
        r,
        ps,
        spec ∙ same,
        none_yet ∙ e,
        resolved,
        rest,
        (wrote.0, wrote.1, wrote.2 ∙ ap (λ l. wrote.0 ++ l) e),
      )

  -- Wherever this part starts, it writes what its routers were resolved to, or nothing.
  RoutedIn : {A : Type 0} → ZitiService → Exec A → Type 0
  RoutedIn service m = (t : List Call) → RoutedOrQuiet service t (m t).1

  RoutedIn-for :
      {A : Type 0} (service current : ZitiService) (m : Exec A)
      → current.spec ≡ service.spec
      → RoutedIn current m
      → RoutedIn service m
  unfolding RoutedIn
  RoutedIn-for service current m same h t =
      RoutedOrQuiet-after service current t t (m t).1 same refl (h t)

  -- A stage that writes no router policy itself.
  stage-RoutedIn :
      {A : Type 0} (service : ZitiService) (reason : String) (m : Exec (Result A))
      (next : A → Exec Done)
      → ((t : List Call) → router_writes (m t).1 ≡ router_writes t)
      → ((a : A) → RoutedIn service (next a))
      → RoutedIn service (stage env service reason m next)
  unfolding RoutedIn stage or_fail
  stage-RoutedIn service reason m next q h t =
      let s = (m t).1 in
      elim (Result-cases (m t).0) [
        | inl (a, e) ↦
            rw (e, or_fail)
              (RoutedOrQuiet-after service service t s (next a s).1 refl (q t) (h a s))
        | inr (x, e) ↦ rw (e, or_fail) (inl (mark_failed-Quiet env service x reason true s ∙ q t))
      ]

  pointer-RoutedIn :
      {A : Type 0} (service : ZitiService) (p : Option A) (next : A → Exec Done)
      → ((a : A) → RoutedIn service (next a))
      → RoutedIn service (pointer env p next)
  unfolding RoutedIn pointer
  pointer-RoutedIn service none next h t = inl refl
  pointer-RoutedIn service (some a) next h t = h a t

  reconcile_router-RoutedIn :
      (router : Option ServiceRouterSpec) (service : ZitiService) (id : String)
      → RoutedIn service (reconcile_router env router service id)
  unfolding RoutedIn reconcile_router stage WritesIn or_fail
  reconcile_router-RoutedIn none service id t = inl (reconcile_unrouted-Quiet env service t)
  reconcile_router-RoutedIn (some r) service id t =
      let found = desired_router_policies env service id t in
      let same = desired_router_policies-Quiet env service id t in
      elim (Result-cases found.0) [
        | inl (policies, e) ↦
            let wrote = reconcile_policies-WritesIn service policies found.1 in
            rw (e, or_fail)
              (inr (
                service,
                id,
                t,
                policies,
                refl,
                refl,
                desired_router_policies-AllResolved env service id t policies e,
                refl,
                (wrote.0, wrote.1, wrote.2 ∙ ap (λ l. wrote.0 ++ l) same),
              ))
        | inr (x, e) ↦
            rw (e, or_fail)
              (inl (mark_failed-Quiet env service x "RouterResolutionFailed" true found.1 ∙ same))
      ]

  reconcile_backed-RoutedIn :
      (service : ZitiService) (intercept host : ServiceConfig) (backend : Option Service)
      → RoutedIn service (reconcile_backed env service intercept host backend)
  unfolding reconcile_backed
  reconcile_backed-RoutedIn service intercept host backend =
      pointer-RoutedIn service backend _ λ known.
        let current = with_backend service known intercept host in
        RoutedIn-for service current _ refl
          (reconcile_router-RoutedIn service.spec.router current known.id)

  reconcile_configured-RoutedIn :
      (service : ZitiService) (desired : DesiredService) (backend : Option Service)
      (intercept host : Option ServiceConfig)
      → RoutedIn service (reconcile_configured env service desired backend intercept host)
  unfolding reconcile_configured
  reconcile_configured-RoutedIn service desired backend intercept host =
      pointer-RoutedIn service intercept _ λ i. pointer-RoutedIn service host _ λ h.
        pointer-RoutedIn service backend _ λ known.
          elim (Bool-cases (not (slices_equal known.config_ids (i.id ∷ h.id ∷ [])))) [
            | inr n ↦ rw n (reconcile_backed-RoutedIn service i h (some known))
            | inl e ↦ rw e (
                stage-RoutedIn service _ _ _ (update_configs-Quiet env known _)
                  (reconcile_backed-RoutedIn service i h))
          ]

  reconcile_valid-RoutedIn :
      (service : ZitiService) → RoutedIn service (reconcile_valid env service)
  unfolding reconcile_valid
  reconcile_valid-RoutedIn service =
      stage-RoutedIn service _ _ _ (reconcile_service-Quiet env service _) λ backend.
        stage-RoutedIn service _ _ _ (reconcile_config-Quiet env _ _) λ intercept.
          stage-RoutedIn service _ _ _ (reconcile_config-Quiet env _ _)
            λ host. reconcile_configured-RoutedIn service _ backend intercept host

  -- A run for a service that is not deleting writes a router policy, created or updated, only if the
  -- service has the finalizer and a valid specification, and only after the router's identity, which is
  -- of type Router, its edge router and an edge router for each additional name were found, each with
  -- an id that is not blank. The rest of the run is then the writing of the
  -- two policies that they were resolved to, and it writes no other: a failed resolution leaves the
  -- policies of the backend as they are.
  pub reconcile_live-Routed :
      (service : ZitiService) (t : List Call)
      → (router_writes (reconcile_live env service t).1 ≡ router_writes t)
        ⊎ ((contains service.meta.finalizers finalizer ≡ true)
            × (validate_service_spec service ≡ none)
            × Routed service t (reconcile_live env service t).1)
  unfolding reconcile_live ensure_finalizer RoutedIn
  reconcile_live-Routed service t = elim (Bool-cases (contains service.meta.finalizers finalizer)) [
    | inr missing ↦ inl (unready missing)
    | inl kept ↦ elim (Option-cases (validate_service_spec service)) [
      | inr (e, invalid) ↦
          inl (rw (kept, invalid, reconcile_live) (mark_failed-Quiet env service e _ _ t))
      | inl valid ↦
          rw (kept, valid, reconcile_live)
            (elim (reconcile_valid-RoutedIn service t) [
              | inl q ↦ inl q
              | inr r ↦ inr (refl, refl, r)
            ])
    ]
  ]
    where
      unready :
          contains service.meta.finalizers finalizer ≡ false
          → router_writes (reconcile_live env service t).1 ≡ router_writes t
      unready missing = ground arith
