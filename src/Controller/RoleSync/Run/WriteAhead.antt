-- ===== src/Controller/RoleSync/Run/WriteAhead.antt =====
-- A run of the role sync writes to identities only behind recorded claims.
use miniziti_operator.Prelude.{
  String, ◌≡◌, ◌∙◌, Bool, true, false, some, List, [], ◌∷◌, arith, refl, ◌==◌, ◌⊎◌, inl, inr,
  Bool-cases, Option-cases, ltb, length, if◌then◌else◌,
}
use miniziti_operator.Errors.{Err, Result, ok, err, Result-cases}
use miniziti_operator.Rolesync.Ownership.{SyncClaim}
use miniziti_operator.Openziti.{Identity}
use miniziti_operator.Rolesync.Plan.{PlanResult}
use miniziti_operator.Rolesync.Planner.{build_plan}
use miniziti_operator.Api.{ZitiEntraRoleSync}
use miniziti_operator.Controller.RoleSync.Effects.{
  Call, update_status, list_backend_identities, Env, Exec, handle,
}
use miniziti_operator.Controller.RoleSync.Reads.{
  Claims, Graph, same_role_set, validate_role_sync_spec, read_directory, read_graph, read_ownership,
  record_role_claims, record_claims_in, read_role_sync,
}
use miniziti_operator.Controller.RoleSync.Writes.Guards.{writes, writes-read_ownership}
use miniziti_operator.Controller.RoleSync.Writes.{write_role_plan}
use miniziti_operator.Controller.RoleSync.Writes.Bounded.{Writes, write_role_plan-bounded}
use miniziti_operator.Controller.RoleSync.Run.{
  SyncRunResult, failed_run, graph_run_failure, block_reason, plan_input, write_recorded, run_plan,
  run_sync,
}
use miniziti_operator.Controller.RoleSync.Run.Silent.{
  writes-read_directory, writes-read_graph, writes-record_role_claims,
}

-- The status update that succeeded is the last call.
abbrev Updated : Env → List String → List Call → Type 0
Updated env values t =
    (claimed : ZitiEntraRoleSync) × (version : String) × (earlier : List Call) × (t
      ≡ update_status claimed ∷ earlier)
    × (claimed.status.managed_attributes ≡ values)
    × (env.status_updated earlier claimed ≡ ok version)

-- The claims of the plan are recorded: its values are those that were claimed before, or the status
-- that holds them was accepted.
abbrev Recorded : Env → Claims → PlanResult → List Call → Type 0
Recorded env claims plan t =
    (same_role_set claims.self.managed_attributes plan.managed_values ≡ true)
    ⊎ Updated env plan.managed_values t

record_claims_in-Updated :
    (env : Env) (resource : ZitiEntraRoleSync) (self : SyncClaim) (values : List String)
    (current : ZitiEntraRoleSync) (t : List Call) (after : ZitiEntraRoleSync)
    → (record_claims_in env resource self values current t).0 ≡ ok after
    → Updated env values (record_claims_in env resource self values current t).1
unfolding record_claims_in
record_claims_in-Updated env resource self values current t after h =
    elim (Bool-cases (same_role_set current.status.managed_attributes self.managed_attributes)) [
      | inr n ↦ absurd (ground (n, arith))
      | inl e ↦
          let claimed : ZitiEntraRoleSync = record current {
            status = record (current.status) { managed_attributes = values };
          } in
          elim (Result-cases (env.status_updated t claimed)) [
            | inr (x, lost) ↦ absurd (ground (e, lost, arith))
            | inl (version, known) ↦ rw (e, known) (claimed, version, t, refl, refl, known)
          ]
    ]

record_role_claims-Recorded :
    (env : Env) (resource : ZitiEntraRoleSync) (claims : Claims) (plan : PlanResult) (t : List Call)
    (claimed : ZitiEntraRoleSync)
    → (record_role_claims env resource claims.self plan.managed_values t).0 ≡ ok claimed
    → Recorded env claims plan (record_role_claims env resource claims.self plan.managed_values t).1
unfolding record_role_claims
record_role_claims-Recorded env resource claims plan t claimed h =
    elim (Bool-cases (same_role_set claims.self.managed_attributes plan.managed_values)) [
      | inl e ↦ inl e
      | inr e ↦ elim (Result-cases (read_role_sync env resource t).0) [
        | inr (x, lost) ↦ absurd (ground (e, lost, arith))
        | inl (current, found) ↦
            let h' : (record_claims_in env resource claims.self plan.managed_values current
                  (read_role_sync env resource t).1).0
                ≡ ok claimed =
              ground (e, found, arith) in
            inr (
              rw (e, found)
                (record_claims_in-Updated env resource claims.self plan.managed_values current _
                  claimed h'))
      ]
    ]

no_reason :
    (conflict removes : Bool)
    → ((if conflict then "Conflict" else if removes then "WouldRemoveAll" else "") == "") ≡ true
    → (conflict ≡ false) × (removes ≡ false)
no_reason false false e = (refl, refl)
no_reason false true e = cc
no_reason true removes e = cc

-- Nothing blocks the plan.
unblocked :
    (plan : PlanResult)
    → (block_reason plan == "") ≡ true
    → (plan.ownership.conflicts ≡ []) × (plan.would_remove_all ≡ false)
unfolding block_reason
unblocked plan e =
    let free = no_reason (ltb 0 (length plan.ownership.conflicts)) plan.would_remove_all e in
    (ground (free.0, arith), free.1)

-- What a run ends with, and the calls it made.
abbrev Ended : Type 0
Ended = (SyncRunResult × ZitiEntraRoleSync) × List Call

module _ (env : Env) (resource : ZitiEntraRoleSync) where
  -- Nothing was written, and the result says so.
  abbrev Silent : List Call → Ended → Type 0
  Silent t r = (writes r.1 ≡ writes t) × (r.0.0.write_phase_started ≡ false)

  -- A plan that nothing blocks, its claims recorded from `t` on, and after them its writes only.
  abbrev Behind : Claims → PlanResult → List Call → Ended → Type 0
  Behind claims plan t r =
      let recording = record_role_claims env resource claims.self plan.managed_values t in
      (claimed : ZitiEntraRoleSync) × (r.0.0.write_phase_started ≡ true)
      × (r.0.0.plan ≡ some plan)
      × (plan.ownership.conflicts ≡ [])
      × (plan.would_remove_all ≡ false)
      × (recording.0 ≡ ok claimed)
      × (writes recording.1 ≡ writes t)
      × Recorded env claims plan recording.1
      × ((write_role_plan env claimed plan recording.1).1 ≡ r.1)
      × Writes env claimed plan plan.patches recording.1 r.1

  -- The run read the directory, the identities of the backend and the claims, one after the other; the
  -- plan is that of what it read.
  abbrev Planned : List Call → Ended → Type 0
  Planned t r =
      let t1 = (read_directory env resource t).1 in
      let t2 = (read_graph env resource t1).1 in
      let t3 = list_backend_identities ∷ t2 in
      let t4 = (read_ownership env resource t3).1 in
      (graph : Graph) × (identities : List Identity) × (claims : Claims) × (plan : PlanResult)
      × ((read_graph env resource t1).0 ≡ ok graph)
      × (env.backend_identities t2 ≡ ok identities)
      × ((read_ownership env resource t3).0 ≡ ok claims)
      × (build_plan env.tables (plan_input resource graph identities claims) ≡ ok plan)
      × (writes t4 ≡ writes t)
      × Behind claims plan t4 r

  pub Run : List Call → Ended → Type 0
  Run t r = Silent t r ⊎ Planned t r

  -- A part of the run that fails without a write, or is gone on from.
  Run-handle :
      {A : Type 0} (Q : Ended → Type 0) (r : Result A)
      (fail : Err → SyncRunResult × ZitiEntraRoleSync)
      (f : A → Exec (SyncRunResult × ZitiEntraRoleSync)) (t t' : List Call)
      → writes t' ≡ writes t
      → ((e : Err) → (fail e).0.write_phase_started ≡ false)
      → ((a : A) → r ≡ ok a → Silent t (f a t') ⊎ Q (f a t'))
      → Silent t (handle r fail f t') ⊎ Q (handle r fail f t')
  Run-handle Q (ok a) fail f t t' same off h = h a refl
  Run-handle Q (err e) fail f t t' same off h = inl (same, off e)

  run_plan-Behind :
      (plan : PlanResult) (claims : Claims) (t : List Call)
      → Silent t (run_plan env plan claims resource t)
        ⊎ Behind claims plan t (run_plan env plan claims resource t)
  unfolding run_plan write_recorded
  run_plan-Behind plan claims t = elim (Bool-cases (block_reason plan == "")) [
    | inr e ↦ rw e (inl (refl, refl))
    | inl e ↦
        let recording = record_role_claims env resource claims.self plan.managed_values t in
        let kept = writes-record_role_claims env resource claims.self plan.managed_values t in
        elim (Result-cases recording.0) [
          | inr (x, lost) ↦ rw (e, lost) (inl (kept, refl))
          | inl (claimed, known) ↦
              rw (e, known)
                (inr (
                  claimed,
                  refl,
                  refl,
                  (unblocked plan e).0,
                  (unblocked plan e).1,
                  refl,
                  kept,
                  record_role_claims-Recorded env resource claims plan t claimed known,
                  refl,
                  (write_role_plan-bounded env claimed plan recording.1).0,
                ))
        ]
  ]

  -- A run of the role sync writes to identities only when the plan that it built has neither a
  -- conflict nor removes every managed attribute, and only after the plan's values were recorded as
  -- claims: either the claims that it read held them already, or the status update with them was the
  -- last call and succeeded. The plan is that of the directory, the identities and the claims that this
  -- run read. It then takes the patches in order and writes each at most once, with the guards of a
  -- patch passed by what was read just before. In every other case nothing is written, and the result
  -- says that the write phase did not start.
  pub run_sync-Run : (t : List Call) → Run t (run_sync env resource t)
  unfolding run_sync Run graph_run_failure
  run_sync-Run t =
      let t1 = (read_directory env resource t).1 in
      let t2 = (read_graph env resource t1).1 in
      let t3 = list_backend_identities ∷ t2 in
      let t4 = (read_ownership env resource t3).1 in
      let same1 : writes t1 ≡ writes t = writes-read_directory env resource t in
      let same2 : writes t2 ≡ writes t = writes-read_graph env resource t1 ∙ same1 in
      let same4 : writes t4 ≡ writes t = writes-read_ownership env resource t3 ∙ same2 in
      let Q = Planned t in
      elim (Option-cases (validate_role_sync_spec env resource).1) [
        | inr (e, invalid) ↦ rw (invalid, run_sync) (inl (refl, refl))
        | inl valid ↦
            rw (valid, run_sync)
              (Run-handle Q (read_directory env resource t).0
                (λ e. (failed_run "InvalidSpec" e, resource)) _ t t1 same1 (λ e. refl)
                λ _ _.
                  Run-handle Q (read_graph env resource t1).0 (λ e. (graph_run_failure e, resource))
                    _ t t2 same2 (λ e. refl)
                    λ graph g.
                      Run-handle Q (env.backend_identities t2)
                        (λ e. (failed_run "ZitiError" e, resource)) _ t t3 same2 (λ e. refl)
                        λ identities i.
                          Run-handle Q (read_ownership env resource t3).0
                            (λ e. (failed_run "ZitiError" e, resource)) _ t t4 same4 (λ e. refl)
                            λ claims c.
                              Run-handle Q
                                (build_plan env.tables
                                  (plan_input resource graph identities claims))
                                (λ e. (graph_run_failure e, resource)) _ t t4 same4 (λ e. refl)
                                λ plan built. elim (run_plan-Behind plan claims t4) [
                                  | inl (kept, off) ↦ inl (kept ∙ same4, off)
                                  | inr behind ↦ inr (
                                    graph, identities, claims, plan, g, i, c, built, same4, behind,
                                  )
                                ])
      ]
