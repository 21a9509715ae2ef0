-- ===== src/Controller/Service/Run/Writes.antt =====
-- The router policies that the reconciler of services writes to the backend, part by part.
use miniziti_operator.Prelude.{
  String, refl, Bool, true, not, none, some, Option, List, [], ◌∷◌, ◌==◌, arith, Bool-cases, inl,
  inr,
}
use miniziti_operator.Errors.{Err, Result, ok, err, Result-cases}
use miniziti_operator.Calls.Written.{Only, Only-trans, Silent}
use miniziti_operator.Openziti.{AccessPolicy, ServiceEdgeRouterPolicy}
use miniziti_operator.Api.{ZitiService}
use miniziti_operator.Controller.Helpers.{Done}
use miniziti_operator.Controller.Service.Effects.{
  Call, create_policy, update_policy, create_router_policy, update_router_policy, Env, Exec,
}
use miniziti_operator.Controller.Service.Backend.{
  policy_with_id, router_policy_with_id, push_found_policy, adopt_policy, policy_or_adopt,
  reconcile_access_policy, push_found_router_policy, adopt_router_policy, router_policy_or_adopt,
  reconcile_service_edge_router_policy,
}
use miniziti_operator.Controller.Service.Run.{
  mark_ready, mark_failed, or_fail, stage, pointer, report_ready,
}

pub data RouterWrite : Type 0 where
  bind : AccessPolicy → RouterWrite
  route : ServiceEdgeRouterPolicy → RouterWrite

-- The router policies that were created or updated in the backend, the latest first.
abbrev pub router_writes : List Call → List RouterWrite
router_writes [] = []
router_writes (create_policy p ∷ calls) = bind p ∷ router_writes calls
router_writes (update_policy p ∷ calls) = bind p ∷ router_writes calls
router_writes (create_router_policy p ∷ calls) = route p ∷ router_writes calls
router_writes (update_router_policy p ∷ calls) = route p ∷ router_writes calls
router_writes (_ ∷ calls) = router_writes calls

-- Between the two points of a run, only such router policies were written.
abbrev pub WritesOnly : (RouterWrite → Type 0) → List Call → List Call → Type 0
WritesOnly = Only router_writes

-- A part of the run that writes no router policy.
abbrev pub Quiet : {A : Type 0} → Exec A → Type 0
Quiet m = Silent router_writes m

module _ (env : Env) where
  pub mark_failed-Quiet :
      (service : ZitiService) (e : Err) (reason : String) (retryable : Bool)
      → Quiet (mark_failed env service e reason retryable)
  unfolding mark_failed
  mark_failed-Quiet service e reason retryable t = ground arith

  pub report_ready-Quiet : (service : ZitiService) → Quiet (report_ready env service)
  unfolding report_ready mark_ready
  report_ready-Quiet service t = ground arith

module _ (env : Env) (Q : RouterWrite → Type 0) where
  module _ (desired : AccessPolicy) (q : (id : String) → Q (bind (policy_with_id id desired))) where
    push_found_policy-WritesOnly :
        (found : Option AccessPolicy) (t : List Call)
        → WritesOnly Q t (push_found_policy env desired found t).1
    unfolding push_found_policy
    push_found_policy-WritesOnly none t = (bind desired ∷ [], (q desired.id, tt), refl)
    push_found_policy-WritesOnly (some existing) t = (bind _ ∷ [], (q existing.id, tt), refl)

    adopt_policy-WritesOnly : (t : List Call) → WritesOnly Q t (adopt_policy env desired t).1
    unfolding adopt_policy
    adopt_policy-WritesOnly t = elim (Result-cases (env.policy_by_name t desired.name)) [
      | inl (found, e) ↦ rw e (push_found_policy-WritesOnly found _)
      | inr (x, e) ↦ rw e ([], tt, refl)
    ]

    policy_or_adopt-WritesOnly :
        (updated : Result (Option AccessPolicy)) (t : List Call)
        → WritesOnly Q t (policy_or_adopt env desired updated t).1
    unfolding policy_or_adopt
    policy_or_adopt-WritesOnly (err e) t = ([], tt, refl)
    policy_or_adopt-WritesOnly (ok none) t = adopt_policy-WritesOnly t
    policy_or_adopt-WritesOnly (ok (some updated)) t = ([], tt, refl)

  pub reconcile_access_policy-WritesOnly :
      (desired : AccessPolicy) (id : String) (t : List Call)
      → ((id : String) → Q (bind (policy_with_id id desired)))
      → WritesOnly Q t (reconcile_access_policy env id desired t).1
  unfolding reconcile_access_policy
  reconcile_access_policy-WritesOnly desired id t q = elim (Bool-cases (not (id == ""))) [
    | inr n ↦ rw n (adopt_policy-WritesOnly desired q t)
    | inl e ↦
        let kept = policy_with_id id desired in
        let s = update_policy kept ∷ t in
        let updated = env.policy_updated t kept in
        rw e (
          Only-trans router_writes Q t s (policy_or_adopt env kept updated s).1
            (bind kept ∷ [], (q id, tt), refl) (policy_or_adopt-WritesOnly kept q updated s))
  ]

  module _ (desired : ServiceEdgeRouterPolicy)
      (q : (id : String) → Q (route (router_policy_with_id id desired))) where
    push_found_router_policy-WritesOnly :
        (found : Option ServiceEdgeRouterPolicy) (t : List Call)
        → WritesOnly Q t (push_found_router_policy env desired found t).1
    unfolding push_found_router_policy
    push_found_router_policy-WritesOnly none t = (route desired ∷ [], (q desired.id, tt), refl)
    push_found_router_policy-WritesOnly (some existing) t =
        (route _ ∷ [], (q existing.id, tt), refl)

    adopt_router_policy-WritesOnly :
        (t : List Call) → WritesOnly Q t (adopt_router_policy env desired t).1
    unfolding adopt_router_policy
    adopt_router_policy-WritesOnly t =
        elim (Result-cases (env.router_policy_by_name t desired.name)) [
          | inl (found, e) ↦ rw e (push_found_router_policy-WritesOnly found _)
          | inr (x, e) ↦ rw e ([], tt, refl)
        ]

    router_policy_or_adopt-WritesOnly :
        (updated : Result (Option ServiceEdgeRouterPolicy)) (t : List Call)
        → WritesOnly Q t (router_policy_or_adopt env desired updated t).1
    unfolding router_policy_or_adopt
    router_policy_or_adopt-WritesOnly (err e) t = ([], tt, refl)
    router_policy_or_adopt-WritesOnly (ok none) t = adopt_router_policy-WritesOnly t
    router_policy_or_adopt-WritesOnly (ok (some updated)) t = ([], tt, refl)

  pub reconcile_service_edge_router_policy-WritesOnly :
      (desired : ServiceEdgeRouterPolicy) (id : String) (t : List Call)
      → ((id : String) → Q (route (router_policy_with_id id desired)))
      → WritesOnly Q t (reconcile_service_edge_router_policy env id desired t).1
  unfolding reconcile_service_edge_router_policy
  reconcile_service_edge_router_policy-WritesOnly desired id t q =
      elim (Bool-cases (not (id == ""))) [
        | inr n ↦ rw n (adopt_router_policy-WritesOnly desired q t)
        | inl e ↦
            let kept = router_policy_with_id id desired in
            let s = update_router_policy kept ∷ t in
            let updated = env.router_policy_updated t kept in
            rw e (
              Only-trans router_writes Q t s (router_policy_or_adopt env kept updated s).1
                (route kept ∷ [], (q id, tt), refl)
                (router_policy_or_adopt-WritesOnly kept q updated s))
      ]

  -- Such a part writes only such router policies, wherever it starts.
  unfoldable pub WritesIn : {A : Type 0} → Exec A → Type 0
  WritesIn m = (t : List Call) → WritesOnly Q t (m t).1

  pub stage-WritesIn :
      {A : Type 0} (service : ZitiService) (reason : String) (m : Exec (Result A))
      (next : A → Exec Done)
      → ((t : List Call) → WritesOnly Q t (m t).1)
      → ((a : A) → WritesIn (next a))
      → WritesIn (stage env service reason m next)
  unfolding WritesIn stage or_fail
  stage-WritesIn service reason m next h k t =
      let s = (m t).1 in
      elim (Result-cases (m t).0) [
        | inl (a, e) ↦ rw (e, or_fail) (Only-trans router_writes Q t s (next a s).1 (h t) (k a s))
        | inr (x, e) ↦
            rw (e, or_fail)
              (Only-trans router_writes Q t s (mark_failed env service x reason true s).1 (h t)
                ([], tt, mark_failed-Quiet env service x reason true s))
      ]

  pub pointer-WritesIn :
      {A : Type 0} (p : Option A) (next : A → Exec Done)
      → ((a : A) → WritesIn (next a))
      → WritesIn (pointer env p next)
  unfolding WritesIn pointer
  pointer-WritesIn none next h t = ([], tt, refl)
  pointer-WritesIn (some a) next h t = h a t

  pub report_ready-WritesIn : (service : ZitiService) → WritesIn (report_ready env service)
  unfolding WritesIn
  report_ready-WritesIn service t = ([], tt, report_ready-Quiet env service t)
