-- ===== src/Controller/RoleSync/Writes/Bounded.antt =====
-- How often and in which order writeRolePlan writes.
use miniziti_operator.Prelude.{
  ◌+◌, ◌≤◌, ◌≡◌, ap, false, some, List, [], ◌∷◌, arith, refl, ◌⊎◌, inl, inr, Bool-cases, length,
  Option-cases,
}
use miniziti_operator.Errors.{ok}
use miniziti_operator.Openziti.{Identity}
use miniziti_operator.Rolesync.Plan.{PlanResult, IdentityPatch}
use miniziti_operator.Rolesync.Retirement.{IdentityOutcome, stops_writes}
use miniziti_operator.Api.{ZitiEntraRoleSync}
use miniziti_operator.Controller.RoleSync.Effects.{Call, get_identity, Env}
use miniziti_operator.Controller.RoleSync.Reads.{Claims, read_ownership}
use miniziti_operator.Controller.RoleSync.Writes.{apply_role_patch, write_patches, write_role_plan}
use miniziti_operator.Controller.RoleSync.Writes.Guards.{
  writes, next_for, MayWrite, apply_role_patch-guarded,
}

-- All outcomes but the last let the writes go on.
abbrev pub GoesOn : List IdentityOutcome → Type 0
GoesOn [] = Unit
GoesOn (o ∷ []) = Unit
GoesOn (o ∷ next ∷ rest) = (stops_writes o ≡ false) × GoesOn (next ∷ rest)

GoesOn-cons :
    (o : IdentityOutcome) (rest : List IdentityOutcome)
    → stops_writes o ≡ false
    → GoesOn rest
    → GoesOn (o ∷ rest)
GoesOn-cons o [] n h = tt
GoesOn-cons o (next ∷ rest) n h = (n, h)

module _ (env : Env) (resource : ZitiEntraRoleSync) (plan : PlanResult) where
  -- The patch is written once, by the claims and the identity that were just read, or not at all.
  abbrev pub AtMostOnce : IdentityPatch → List Call → List Call → Type 0
  AtMostOnce patch t t' =
      (writes t' ≡ writes t)
      ⊎ ((claims : Claims) × (identity : Identity) × (env.backend_identity t patch.identity_id
            ≡ ok (some identity))
          × ((read_ownership env resource (get_identity patch.identity_id ∷ t)).0 ≡ ok claims)
          × MayWrite env plan patch claims identity
          × (writes t' ≡ (patch.identity_id, next_for plan patch identity) ∷ writes t))

  -- The patches are taken one after the other, each from where the one before it ended, and from some
  -- patch on nothing is written.
  abbrev pub Writes : List IdentityPatch → List Call → List Call → Type 0
  Writes [] t t' = writes t' ≡ writes t
  Writes (patch ∷ patches) t t' =
      let s = (apply_role_patch env resource plan patch t).1 in
      (writes t' ≡ writes t) ⊎ (AtMostOnce patch t s × Writes patches s t')

  apply_role_patch-AtMostOnce :
      (patch : IdentityPatch) (t : List Call)
      → AtMostOnce patch t (apply_role_patch env resource plan patch t).1
  apply_role_patch-AtMostOnce patch t = elim (apply_role_patch-guarded env plan patch resource t) [
    | inl (same, _) ↦ inl same
    | inr once ↦ inr once
  ]

  Writes-none : (patches : List IdentityPatch) (t : List Call) → Writes patches t t
  Writes-none [] t = refl
  Writes-none (patch ∷ patches) t = inl refl

  -- One step of the loop: it stops before the patch, after it, or goes on.
  write_patches_cases :
      (patch : IdentityPatch) (patches : List IdentityPatch) (t : List Call)
      → let applied = apply_role_patch env resource plan patch t in
        let rest = write_patches env resource plan patches applied.1 in
        let all = write_patches env resource plan (patch ∷ patches) t in
        ((all.1 ≡ t) × (length all.0 ≡ 1) × GoesOn all.0)
        ⊎ ((all.1 ≡ applied.1) × (length all.0 ≡ 1) × GoesOn all.0)
        ⊎ ((all.1 ≡ rest.1) × (all.0 ≡ applied.0 ∷ rest.0) × (stops_writes applied.0 ≡ false))
  unfolding write_patches
  write_patches_cases patch patches t = elim (Option-cases (env.context_error t)) [
    | inr (e, stopped) ↦ inl (rw (stopped, write_patches) (refl, refl, tt))
    | inl alive ↦ elim (Bool-cases (stops_writes (apply_role_patch env resource plan patch t).0)) [
      | inl e ↦ inr (inl (rw (alive, e, write_patches) (refl, refl, tt)))
      | inr n ↦ inr (inr (rw (alive, n, write_patches) (refl, refl, refl)))
    ]
  ]

  write_patches-bounded :
      (patches : List IdentityPatch) (t : List Call)
      → Writes patches t (write_patches env resource plan patches t).1
        × GoesOn (write_patches env resource plan patches t).0
        × (length (write_patches env resource plan patches t).0 ≤ length patches + 1)
  unfolding write_patches
  write_patches-bounded [] t = elim (Option-cases (env.context_error t)) [
    | inl e ↦ rw (e, write_patches) (Writes-none [] t, tt, omega arith)
    | inr (x, e) ↦ rw (e, write_patches) (Writes-none [] t, tt, omega arith)
  ]
  write_patches-bounded (patch ∷ patches) t =
      let r = (apply_role_patch env resource plan patch t).1 in
      let first = apply_role_patch-AtMostOnce patch t in
      let (later, goes, short) = write_patches-bounded patches r in
      elim (write_patches_cases patch patches t) [
        | inl (same, one, on) ↦ (inl (ap writes same), on, omega arith)
        | inr (inl (same, one, on)) ↦
            (inr (first, rw same (Writes-none patches r)), on, omega arith)
        | inr (inr (same, all, on)) ↦ (
          inr (first, rw same later),
          rw all (GoesOn-cons _ (write_patches env resource plan patches r).0 on goes),
          rw all (omega arith),
        )
      ]

  -- A run over a plan takes its patches in order and writes each at most once, with every guard passed
  -- by the claims and the identity that were read for this patch just before; and it stops at the first
  -- outcome that stops writes: every outcome but the last lets it go on.
  pub write_role_plan-bounded :
      (t : List Call)
      → Writes plan.patches t (write_role_plan env resource plan t).1
        × GoesOn (write_role_plan env resource plan t).0
        × (length (write_role_plan env resource plan t).0 ≤ length plan.patches + 1)
  unfolding write_role_plan
  write_role_plan-bounded t = write_patches-bounded plan.patches t
