-- ===== src/Controller/RoleSync/Writes/Guards.antt =====
-- What applyRolePatch and writeRolePlan may write, and when.
use miniziti_operator.Prelude.{
  String, ◌≡◌, ◌∙◌, ap, true, false, Option, none, some, List, [], ◌∷◌, arith, refl, ◌==◌, ◌⊎◌, inl,
  inr, Bool-cases, ltb, length,
}
use miniziti_operator.Strings.{equal_fold}
use miniziti_operator.Errors.{ok, Result-cases}
use miniziti_operator.Openziti.{Identity}
use miniziti_operator.Rolesync.Ownership.{resolve_ownership}
use miniziti_operator.Rolesync.Plan.{PlanResult, IdentityPatch}
use miniziti_operator.Rolesync.Matching.{identity_owned}
use miniziti_operator.Rolesync.Planner.{merge_attributes}
use miniziti_operator.Rolesync.Retirement.{IdentityOutcome}
use miniziti_operator.Rolesync.Retirement.Forgetting.{is_patched}
use miniziti_operator.Api.{ZitiEntraRoleSync}
use miniziti_operator.Controller.RoleSync.Effects.{Call, get_identity, patch_identity, Env}
use miniziti_operator.Controller.RoleSync.Reads.{Claims, read_ownership, same_role_set}
use miniziti_operator.Controller.RoleSync.Writes.{
  may_write, write_next, write_fresh, with_claims, apply_role_patch,
}

-- The writes to identities among the calls, the latest first.
abbrev pub writes : List Call → List (String × List String)
writes [] = []
writes (patch_identity id attributes ∷ calls) = (id, attributes) ∷ writes calls
writes (_ ∷ calls) = writes calls

pub writes-read_ownership :
    (env : Env) (resource : ZitiEntraRoleSync) (t : List Call)
    → writes (read_ownership env resource t).1 ≡ writes t
unfolding read_ownership
writes-read_ownership env resource t = ground arith

abbrev pub next_for : PlanResult → IdentityPatch → Identity → List String
next_for plan patch fresh =
    merge_attributes fresh.role_attributes plan.managed_values patch.granted_attributes

abbrev pub conflicts_of : PlanResult → Claims → List String
conflicts_of plan claims =
    (resolve_ownership (record {
      self = claims.self;
      candidates = plan.managed_values;
      others = claims.others;
    })).conflicts

-- Everything that a write of a patch rests on, at the time of the write.
pub record MayWrite (env : Env) (plan : PlanResult) (patch : IdentityPatch) (claims : Claims)
    (fresh : Identity) : Type 0 where
  pub no_conflict : conflicts_of plan claims ≡ []
  pub not_owned : identity_owned fresh claims.owners ≡ false
  pub has_external_id : (fresh.external_id == "") ≡ false
  pub same_external_id : equal_fold env.tables fresh.external_id patch.external_id ≡ true
  pub needed : same_role_set fresh.role_attributes (next_for plan patch fresh) ≡ false

module _ (env : Env) (plan : PlanResult) (patch : IdentityPatch) where
  -- Nothing was written, or the merge of the fresh attributes was, with every guard passed.
  abbrev WritesOnly : Claims → Option Identity → List Call → IdentityOutcome × List Call → Type 0
  WritesOnly claims fresh t r =
      ((writes r.1 ≡ writes t) × (is_patched r.0.kind ≡ false))
      ⊎ ((identity : Identity) × (fresh ≡ some identity)
          × MayWrite env plan patch claims identity
          × (writes r.1 ≡ (patch.identity_id, next_for plan patch identity) ∷ writes t))

  write_next-writes :
      (fresh : Identity) (next : List String) (t : List Call)
      → ((writes (write_next env patch fresh next t).1 ≡ writes t)
          × (is_patched (write_next env patch fresh next t).0.kind ≡ false))
        ⊎ (writes (write_next env patch fresh next t).1 ≡ (patch.identity_id, next) ∷ writes t)
  unfolding write_next
  write_next-writes fresh next t = ground arith

  write_fresh-WritesOnly :
      (claims : Claims) (fresh : Identity) (t : List Call)
      → conflicts_of plan claims ≡ []
      → WritesOnly claims (some fresh) t (write_fresh env plan patch claims fresh t)
  unfolding write_fresh may_write
  write_fresh-WritesOnly claims fresh t free =
      elim (Bool-cases (may_write env patch claims fresh)) [
        | inr n ↦ rw n (inl (refl, refl))
        | inl e ↦
            elim (Bool-cases (same_role_set fresh.role_attributes (next_for plan patch fresh))) [
              | inl s ↦ rw (e, s) (inl (refl, refl))
              | inr d ↦
                  rw (e, d)
                    (elim (write_next-writes fresh (next_for plan patch fresh) t) [
                      | inl none_written ↦ inl none_written
                      | inr w ↦ inr (fresh, refl, guards e d, w)
                    ])
            ]
      ]
    where
      guards :
          may_write env patch claims fresh ≡ true
          → same_role_set fresh.role_attributes (next_for plan patch fresh) ≡ false
          → MayWrite env plan patch claims fresh
      guards e d = ground arith

  with_claims-WritesOnly :
      (fresh : Option Identity) (claims : Claims) (t : List Call)
      → WritesOnly claims fresh t (with_claims env plan patch fresh claims t)
  unfolding with_claims
  with_claims-WritesOnly none claims t = inl (ground arith, ground arith)
  with_claims-WritesOnly (some fresh) claims t =
      elim (Bool-cases (ltb 0 (length (conflicts_of plan claims)))) [
        | inl e ↦ rw e (inl (refl, refl))
        | inr n ↦ rw n (write_fresh-WritesOnly claims fresh t (ground arith))
      ]

  -- A patch is written at most once, and only as the merge of the attributes that were just read,
  -- after the claims were read again: without conflict, for an identity that nobody owns, whose
  -- external id is there and still matches, and only if its attributes have to change. If nothing is
  -- written, the outcome is not Patched.
  pub apply_role_patch-guarded :
      (resource : ZitiEntraRoleSync) (t : List Call)
      → ((writes (apply_role_patch env resource plan patch t).1 ≡ writes t)
          × (is_patched (apply_role_patch env resource plan patch t).0.kind ≡ false))
        ⊎ ((claims : Claims) × (identity : Identity) × (env.backend_identity t patch.identity_id
              ≡ ok (some identity))
            × ((read_ownership env resource (get_identity patch.identity_id ∷ t)).0 ≡ ok claims)
            × MayWrite env plan patch claims identity
            × (writes (apply_role_patch env resource plan patch t).1
                ≡ (patch.identity_id, next_for plan patch identity) ∷ writes t))
  unfolding apply_role_patch
  apply_role_patch-guarded resource t =
      elim (Result-cases (env.backend_identity t patch.identity_id)) [
        | inr (e, failed_read) ↦ rw failed_read (inl (refl, refl))
        | inl (fresh, found) ↦
            let t' = get_identity patch.identity_id ∷ t in
            let kept = writes-read_ownership env resource t' in
            elim (Result-cases (read_ownership env resource t').0) [
              | inr (e, lost) ↦ rw (found, lost) (inl (kept, refl))
              | inl (claims, known) ↦
                  rw (found, known)
                    (elim (with_claims-WritesOnly fresh claims (read_ownership env resource t').1) [
                      | inl (same, not_patched) ↦ inl (same ∙ kept, not_patched)
                      | inr (identity, is_fresh, may, wrote) ↦ inr (
                        claims,
                        identity,
                        ap (λ (o : Option Identity). ok o) is_fresh,
                        refl,
                        may,
                        wrote
                            ∙ ap
                                (λ (l : List (String × List String)).
                                  (patch.identity_id, next_for plan patch identity) ∷ l)
                                kept,
                      )
                    ])
            ]
      ]
