-- ===== src/Controller/AccessPolicy/Run/Guarded.antt =====
-- When the reconciler of access policies writes to the backend.
use miniziti_operator.Prelude.{String, ◌≡◌, true, false, none, List, [], ◌∷◌, ◌==◌, eqb, arith, ◌⊎◌}
use miniziti_operator.Strings.{contains}
use miniziti_operator.Openziti.{AccessPolicy}
use miniziti_operator.Openziti.Policy.{DesiredPolicy, selector_roles, to_access_policy}
use miniziti_operator.Api.{ZitiAccessPolicy}
use miniziti_operator.Controller.AccessPolicy.Selectors.{validate_access_policy_spec}
use miniziti_operator.Controller.AccessPolicy.Effects.{
  Call, create_policy, update_policy, update_resource, Env, finalizer, SelectorResolution,
}
use miniziti_operator.Controller.AccessPolicy.Run.Resolution.{Resolved}
use miniziti_operator.Controller.AccessPolicy.Run.{release, reconcile_delete}

-- The policies that were pushed to the backend, the latest first.
abbrev pub pushes : List Call → List AccessPolicy
pushes [] = []
pushes (create_policy p ∷ calls) = p ∷ pushes calls
pushes (update_policy p ∷ calls) = p ∷ pushes calls
pushes (_ ∷ calls) = pushes calls

-- The updates of the resource itself, which hold its finalizers.
abbrev pub resource_updates : List Call → List ZitiAccessPolicy
resource_updates [] = []
resource_updates (update_resource p ∷ calls) = p ∷ resource_updates calls
resource_updates (_ ∷ calls) = resource_updates calls

module _ (env : Env) where
  -- What a policy with this resolution is pushed as.
  abbrev desired_for : ZitiAccessPolicy → SelectorResolution → DesiredPolicy
  desired_for policy resolution =
      let identity_roles = selector_roles (record {
        ids = resolution.identity.ids;
        role_attributes = policy.spec.identity_selector.match_role_attributes;
      }) in
      let service_roles = selector_roles (record {
        ids = resolution.service.ids;
        role_attributes = policy.spec.service_selector.match_role_attributes;
      }) in
      record {
        name = policy.meta.name;
        type = policy.spec.type;
        identity_roles = identity_roles;
        service_roles = service_roles;
        identity_roles_raw = identity_roles;
        service_roles_raw = service_roles;
        semantic = "AnyOf";
      }

  -- The resolution lets a policy be pushed.
  abbrev pub Complete : SelectorResolution → Type 0
  Complete resolution =
      (resolution.identity.pending ≡ 0)
      × (resolution.service.pending ≡ 0)
      × (eqb resolution.identity.count 0 ≡ false)
      × (eqb resolution.service.count 0 ≡ false)

  -- The one policy that a run may push, and what it rests on.
  abbrev pub Pushed : ZitiAccessPolicy → List Call → List Call → Type 0
  Pushed policy t t' =
      (resolution : SelectorResolution) × (id : String) × (validate_access_policy_spec policy
        ≡ none)
      × (contains policy.meta.finalizers finalizer ≡ true)
      × Resolved env policy t resolution
      × Complete resolution
      × (pushes t' ≡ to_access_policy id (desired_for policy resolution) ∷ pushes t)

  -- A deleting policy loses its finalizer only after its backend policy is gone: the resource is
  -- updated only if it has no backend id, or the delete of that id succeeded. Nothing is pushed.
  pub reconcile_delete-deletes_first :
      (policy : ZitiAccessPolicy) (t : List Call)
      → (pushes (reconcile_delete env policy t).1 ≡ pushes t)
        × ((resource_updates (reconcile_delete env policy t).1 ≡ resource_updates t)
            ⊎ ((policy.status.common.id == "") ≡ true)
            ⊎ (env.policy_deleted t policy.status.common.id ≡ none))
  unfolding reconcile_delete release
  reconcile_delete-deletes_first policy t = (ground arith, ground arith)
