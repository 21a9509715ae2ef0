-- ===== src/Controller/Service/Run/Released.antt =====
-- What a deleting service has lost in the backend before it loses its finalizer.
use miniziti_operator.Prelude.{
  String, ◌≡◌, refl, ◌∙◌, not, Option, none, some, List, [], ◌∷◌, ◌++◌, ◌==◌, if◌then◌else◌,
  Bool-cases, Option-cases, inl, inr, ◌⊎◌,
}
use miniziti_operator.Strings.{contains}
use miniziti_operator.Errors.{Err}
use miniziti_operator.Api.{ZitiService}
use miniziti_operator.Controller.Helpers.{Done, remove_finalizer}
use miniziti_operator.Controller.Service.Effects.{
  emit_normal, Call, update_resource, delete_service, delete_config, delete_policy,
  delete_router_policy, Env, Exec, finalizer, with_finalizers,
}
use miniziti_operator.Controller.Service.Backend.{delete_known}
use miniziti_operator.Controller.Service.Run.{
  with_bind_policy_id, with_router_policy_id, delete_bind_policy, delete_router_policies, release,
  or_stop, then_delete, delete_backend, reconcile_delete,
}

-- The updates of the resource itself, which hold its finalizers.
abbrev pub resource_updates : List Call → List ZitiService
resource_updates [] = []
resource_updates (update_resource s ∷ calls) = s ∷ resource_updates calls
resource_updates (_ ∷ calls) = resource_updates calls

-- A call for an id, which is left out where there is no id.
abbrev pub known_call : (String → Call) → String → List Call
known_call call id = if not (id == "") then call id ∷ [] else []

-- The calls, and before them the deletions of everything that the status names, the latest first.
abbrev pub deletions : ZitiService → List Call → List Call
deletions service t =
    known_call delete_service service.status.common.id
    ++ (known_call delete_config service.status.config_ids.host
        ++ (known_call delete_config service.status.config_ids.intercept
            ++ (known_call delete_policy service.status.bind_policy_id
                ++ (known_call delete_router_policy service.status.service_edge_router_policy_id
                    ++ t))))

module _ (env : Env) where
  -- Every deletion among the calls succeeded.
  abbrev pub AllDeleted : List Call → Type 0
  AllDeleted [] = Unit
  AllDeleted (delete_service id ∷ t) = (env.service_deleted t id ≡ none) × AllDeleted t
  AllDeleted (delete_config id ∷ t) = (env.config_deleted t id ≡ none) × AllDeleted t
  AllDeleted (delete_policy id ∷ t) = (env.policy_deleted t id ≡ none) × AllDeleted t
  AllDeleted (delete_router_policy id ∷ t) = (env.router_policy_deleted t id ≡ none) × AllDeleted t
  AllDeleted (_ ∷ t) = AllDeleted t

  -- What a deletion of a known id does: it fails, or the backend has lost the object.
  module _ (call : String → Call) (answer : List Call → String → Option Err)
      (other : (id : String) (t : List Call) → resource_updates (call id ∷ t) ≡ resource_updates t)
      (step : (id : String) (t : List Call)
        → answer t id ≡ none
        → AllDeleted t
        → AllDeleted (call id ∷ t)) where
    delete_known-cases :
        (id : String) (t : List Call)
        → AllDeleted t
        → ((e : Err) × ((delete_known env call answer id t).0 ≡ some e)
            × (resource_updates (delete_known env call answer id t).1 ≡ resource_updates t))
          ⊎ ((delete_known env call answer id t ≡ (none, known_call call id ++ t))
              × AllDeleted (known_call call id ++ t))
    unfolding delete_known
    delete_known-cases id t all = elim (Bool-cases (not (id == ""))) [
      | inr n ↦ rw n (inr (refl, all))
      | inl e ↦ elim (Option-cases (answer t id)) [
        | inl gone ↦ rw (e, gone) (inr (refl, step id t gone all))
        | inr (x, lost) ↦ rw (e, lost) (inl (x, refl, other id t))
      ]
    ]

    resource_updates-known_call :
        (id : String) (t : List Call)
        → resource_updates (known_call call id ++ t) ≡ resource_updates t
    resource_updates-known_call id t = elim (Bool-cases (not (id == ""))) [
      | inl e ↦ rw e (other id t)
      | inr n ↦ rw n refl
    ]

    then_delete-ends :
        (P : List Call → Type 0) (id : String) (next : Exec Done) (t : List Call)
        → AllDeleted t
        → ((s : List Call) → resource_updates s ≡ resource_updates t → P s)
        → (AllDeleted (known_call call id ++ t)
            → resource_updates (known_call call id ++ t) ≡ resource_updates t
            → P (next (known_call call id ++ t)).1)
        → P (then_delete env (delete_known env call answer id) next t).1
    unfolding or_stop
    then_delete-ends P id next t all stop go = elim (delete_known-cases id t all) [
      | inl (e, lost, same) ↦ rw (lost, or_stop) (stop _ same)
      | inr (gone, deleted) ↦ rw (gone, or_stop) (go deleted (resource_updates-known_call id t))
    ]

  -- The service once its router policies are gone.
  abbrev pub unrouted : ZitiService → ZitiService
  unrouted service = with_bind_policy_id (with_router_policy_id service "") ""

  abbrev unrouting : ZitiService → List Call → List Call
  unrouting service t =
      known_call delete_policy service.status.bind_policy_id
      ++ (known_call delete_router_policy service.status.service_edge_router_policy_id ++ t)

  -- What reconcileDelete starts from: the router policies stay or are gone.
  delete_router_policies-cases :
      (service : ZitiService) (t : List Call)
      → AllDeleted t
      → ((e : Err) × ((delete_router_policies env service t).0.1 ≡ some e)
          × (resource_updates (delete_router_policies env service t).1 ≡ resource_updates t))
        ⊎ ((delete_router_policies env service t ≡ ((unrouted service, none), unrouting service t))
            × AllDeleted (unrouting service t)
            × (resource_updates (unrouting service t) ≡ resource_updates t))
  unfolding delete_router_policies delete_bind_policy
  delete_router_policies-cases service t all =
      let route_id = service.status.service_edge_router_policy_id in
      let s = known_call delete_router_policy route_id ++ t in
      let same_s =
        resource_updates-known_call delete_router_policy env.router_policy_deleted (λ id s. refl)
          (λ id s gone h. (gone, h)) route_id t in
      let bind_id = service.status.bind_policy_id in
      let same_u =
        resource_updates-known_call delete_policy env.policy_deleted (λ id s. refl)
          (λ id s gone h. (gone, h)) bind_id s in
      elim (delete_known-cases delete_router_policy env.router_policy_deleted (λ id s. refl)
        (λ id s gone h. (gone, h)) route_id t all) [
          | inl (e, lost, same) ↦
              rw (lost, delete_router_policies, delete_bind_policy) (inl (e, refl, same))
          | inr (gone, deleted) ↦
              elim (delete_known-cases delete_policy env.policy_deleted (λ id s. refl)
                (λ id s gone h. (gone, h)) bind_id s deleted) [
                  | inl (e, lost, same) ↦
                      rw (gone, delete_bind_policy, lost) (inl (e, refl, same ∙ same_s))
                  | inr (gone', deleted') ↦
                      rw (gone, delete_bind_policy, gone', gone')
                        (inr (refl, deleted', same_u ∙ same_s))
                ]
        ]

  -- The service as it is written without its finalizer.
  abbrev pub released : ZitiService → ZitiService
  released service =
      with_finalizers (unrouted service) (remove_finalizer service.meta.finalizers finalizer).0

  -- The calls of a run that lets the service go: those before it, then the deletion of every object that
  -- the status names, then the update that drops the finalizer.
  abbrev pub Released : ZitiService → List Call → List Call → Type 0
  Released service t t' =
      (later : List Call) × (t' ≡ later ++ update_resource (released service) ∷ deletions service t)
      × (resource_updates later ≡ [])
      × AllDeleted (deletions service t)

  release-Released :
      (service : ZitiService) (t : List Call)
      → AllDeleted (deletions service t)
      → Released service t (release env (unrouted service) (deletions service t)).1
  unfolding release
  release-Released service t all =
      let s = deletions service t in
      elim (Option-cases (env.resource_updated s (released service))) [
        | inl kept ↦ rw (kept, release) (emit_normal _ _ ∷ [], refl, refl, all)
        | inr (e, lost) ↦ rw (lost, release) ([], refl, refl, all)
      ]

  delete_backend-Released :
      (service : ZitiService) (t : List Call)
      → AllDeleted (unrouting service t)
      → resource_updates (unrouting service t) ≡ resource_updates t
      → (resource_updates (delete_backend env (unrouted service) (unrouting service t)).1
          ≡ resource_updates t)
        ⊎ Released service t (delete_backend env (unrouted service) (unrouting service t)).1
  unfolding delete_backend
  delete_backend-Released service t all same =
      let P : List Call → Type 0 =
        λ s. (resource_updates s ≡ resource_updates t) ⊎ Released service t s in
      then_delete-ends delete_config env.config_deleted (λ id s. refl) (λ id s gone h. (gone, h)) P
        service.status.config_ids.intercept _ (unrouting service t) all
        (λ s kept. inl (kept ∙ same))
        λ all₁ same₁.
          then_delete-ends delete_config env.config_deleted (λ id s. refl)
            (λ id s gone h. (gone, h)) P service.status.config_ids.host _ _ all₁
            (λ s kept. inl (kept ∙ same₁ ∙ same))
            λ all₂ same₂.
              then_delete-ends delete_service env.service_deleted (λ id s. refl)
                (λ id s gone h. (gone, h)) P service.status.common.id _ _ all₂
                (λ s kept. inl (kept ∙ same₂ ∙ same₁ ∙ same))
                λ all₃ same₃. inr (release-Released service t all₃)

  -- A run for a deleting service either leaves the resource as it is, or has deleted, in this order, the
  -- service edge router policy, the bind policy, both configs and the service that its status names,
  -- leaving out those without an id, each with success, and only then drops the finalizer.
  pub reconcile_delete-Released :
      (service : ZitiService) (t : List Call)
      → AllDeleted t
      → (resource_updates (reconcile_delete env service t).1 ≡ resource_updates t)
        ⊎ Released service t (reconcile_delete env service t).1
  unfolding reconcile_delete or_stop
  reconcile_delete-Released service t all =
      elim (Bool-cases (not (contains service.meta.finalizers finalizer))) [
        | inl e ↦ rw e (inl refl)
        | inr n ↦ elim (delete_router_policies-cases service t all) [
          | inl (e, lost, same) ↦ rw (n, lost) (inl same)
          | inr (now, deleted, same) ↦ rw (n, now) (delete_backend-Released service t deleted same)
        ]
      ]
