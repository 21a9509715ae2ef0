-- ===== src/Controller/RoleSync/Run/Silent.antt =====
-- The reads of a run, and the recording of its claims, write to no identity.
use miniziti_operator.Prelude.{
  String, ◌≡◌, ◌∙◌, Option, none, some, List, [], ◌∷◌, arith, refl, inl, inr, Bool-cases,
}
use miniziti_operator.Errors.{Err, Result, ok, err, Result-cases}
use miniziti_operator.Maps.{insert}
use miniziti_operator.Entra.{User, ServicePrincipal}
use miniziti_operator.Rolesync.Scope.{resolve_role_scope, group_ids}
use miniziti_operator.Rolesync.Ownership.{SyncClaim}
use miniziti_operator.Api.{ZitiEntraRoleSync}
use miniziti_operator.Controller.RoleSync.Effects.{Call, list_group_users, Env, Exec, handle}
use miniziti_operator.Controller.RoleSync.Reads.{
  same_role_set, read_directory, read_groups, read_graph, read_assigned, record_role_claims,
  record_claims_in, any_limited, read_role_sync,
}
use miniziti_operator.Controller.RoleSync.Writes.Guards.{writes}

pub writes-read_directory :
    (env : Env) (resource : ZitiEntraRoleSync) (t : List Call)
    → writes (read_directory env resource t).1 ≡ writes t
unfolding read_directory
writes-read_directory env resource t = ground arith

pub writes-handle :
    {A B : Type 0} (r : Result A) (fail : Err → B) (f : A → Exec B) (t : List Call)
    → ((a : A) → writes (f a t).1 ≡ writes t)
    → writes (handle r fail f t).1 ≡ writes t
writes-handle (ok a) fail f t h = h a
writes-handle (err e) fail f t h = refl

pub writes-read_groups :
    (env : Env) (ids : List String) (members : List (String × List User)) (t : List Call)
    → writes (read_groups env ids members t).1 ≡ writes t
unfolding read_groups
writes-read_groups env [] members t = refl
writes-read_groups env (id ∷ ids) members t = elim (Result-cases (env.group_users t id)) [
  | inr (e, lost) ↦ rw (lost, read_groups) refl
  | inl (users, found) ↦ elim (Bool-cases (any_limited users)) [
    | inl e ↦ rw (found, e, read_groups) refl
    | inr e ↦
        rw (found, e, read_groups)
          (writes-read_groups env ids (insert id users members) (list_group_users id ∷ t))
  ]
]

pub writes-read_assigned :
    (env : Env) (found : Option ServicePrincipal) (t : List Call)
    → writes (read_assigned env found t).1 ≡ writes t
unfolding read_assigned
writes-read_assigned env none t = refl
writes-read_assigned env (some principal) t =
    writes-handle (env.assignments t principal.id) _ _ _ λ assignments.
      writes-handle (resolve_role_scope principal assignments) _ _ _ λ scope.
        writes-handle (read_groups env (group_ids scope) [] _).0 _ _ _ (λ members. refl)
        ∙ writes-read_groups env (group_ids scope) [] _

pub writes-read_graph :
    (env : Env) (resource : ZitiEntraRoleSync) (t : List Call)
    → writes (read_graph env resource t).1 ≡ writes t
unfolding read_graph
writes-read_graph env resource t =
    writes-handle (env.service_principal t resource.spec.app_id) _ _ _
      (λ found. writes-read_assigned env found _)

pub writes-read_role_sync :
    (env : Env) (resource : ZitiEntraRoleSync) (t : List Call)
    → writes (read_role_sync env resource t).1 ≡ writes t
unfolding read_role_sync
writes-read_role_sync env resource t = ground arith

pub writes-record_claims_in :
    (env : Env) (resource : ZitiEntraRoleSync) (self : SyncClaim) (values : List String)
    (current : ZitiEntraRoleSync) (t : List Call)
    → writes (record_claims_in env resource self values current t).1 ≡ writes t
unfolding record_claims_in
writes-record_claims_in env resource self values current t = ground arith

pub writes-record_role_claims :
    (env : Env) (resource : ZitiEntraRoleSync) (self : SyncClaim) (values : List String)
    (t : List Call)
    → writes (record_role_claims env resource self values t).1 ≡ writes t
unfolding record_role_claims
writes-record_role_claims env resource self values t =
    elim (Bool-cases (same_role_set self.managed_attributes values)) [
      | inl e ↦ rw e refl
      | inr e ↦ rw e (
          writes-handle (read_role_sync env resource t).0 _
            (record_claims_in env resource self values) (read_role_sync env resource t).1
            (λ current. writes-record_claims_in env resource self values current _)
          ∙ writes-read_role_sync env resource t)
    ]
