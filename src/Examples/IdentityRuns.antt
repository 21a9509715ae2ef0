-- ===== src/Examples/IdentityRuns.antt =====
-- Runs of the reconciler of identities.
use miniziti_operator.Prelude.{◌≡◌, ◌⊎◌, true, false, none, [], ◌∷◌, length}
use miniziti_operator.Strings.{contains}
use miniziti_operator.Errors.{ok, err, not_found}
use miniziti_operator.Calls.Written.{Only}
use miniziti_operator.Api.{ZitiIdentity}
use miniziti_operator.Controller.Identity.Effects.{Env, finalizer, validate_identity_spec}
use miniziti_operator.Controller.Identity.Run.{reconcile_live, reconcile_delete}
use miniziti_operator.Controller.Identity.Run.Guarded.{writes, Allowed, reconcile_live-Allowed}
use miniziti_operator.Controller.Identity.Run.Released.{
  resource_updates, DropsOwned, Gone, reconcile_delete-Gone,
}
use miniziti_operator.Examples.{listed, meta_of, fresh}

abbrev identity : ZitiIdentity
identity = record {
  meta = record (meta_of "laptop") { finalizers = finalizer ∷ [] };
  spec = record {
    name = "laptop";
    type = "Device";
    role_attributes = "eng" ∷ "ops" ∷ [];
    enrollment = record { create_jwt_secret = true; jwt_secret_name = "token" };
  };
  status = record { common = record fresh { id = "i1" }; jwt_secret_name = "token" };
}

-- No secret is there yet.
abbrev env : Env
env = record {
  api_meta = listed;
  error_message = λ e. "failed";
  semantic_equal = λ a b. false;
  now = length;
  is_controlled_by = λ s i. contains s.owner_uids i.meta.uid;
  with_controller = λ i s. ok (record s { owner_uids = i.meta.uid ∷ [] });
  cached = λ t key. ok identity;
  resource_updated = λ t i. none;
  status_updated = λ t i. none;
  secret_read = λ t key. err (not_found key.name);
  secret_created = λ t s. none;
  secret_deleted = λ t s. none;
  identity_by_name = λ t name. ok none;
  identity_created = λ t i. ok i;
  identity_updated = λ t i. ok i;
  identity_deleted = λ t id. none;
  enrollment_jwt = λ t id. ok "jwt";
}

reconcile_live-Allowed_example :
    (writes (reconcile_live env identity []).1 ≡ [])
    ⊎ ((contains identity.meta.finalizers finalizer ≡ true)
        × (validate_identity_spec identity ≡ none)
        × Only writes (Allowed env identity) [] (reconcile_live env identity []).1)
reconcile_live-Allowed_example = reconcile_live-Allowed env identity []

reconcile_delete-Gone_example :
    DropsOwned env identity [] (reconcile_delete env identity []).1
    × ((resource_updates (reconcile_delete env identity []).1 ≡ []) ⊎ Gone env identity [])
reconcile_delete-Gone_example = reconcile_delete-Gone env identity []
