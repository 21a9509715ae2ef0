-- ===== src/Controller/RoleSync/Status/Reported.antt =====
-- Which counters and which unmatched members updateRoleSyncCounters reports.
use mathlib.Core.List.{map}
use miniziti_operator.Prelude.{
  ℕ, zero, suc, ◌≤◌, ◌≡◌, ap, refl, true, some, List, [], ◌∷◌, ◌++◌, arith, inl, inr, ◌⊎◌, length,
}
use miniziti_operator.Rolesync.Plan.{PlanResult, UnmatchedMember}
use miniziti_operator.Rolesync.Retirement.{Completion}
use miniziti_operator.Api.{ZitiEntraRoleSync, ZitiEntraRoleSyncStatus, EntraUnmatchedMember}
use miniziti_operator.Controller.RoleSync.Effects.{Env}
use miniziti_operator.Controller.RoleSync.Run.{SyncRunResult}
use miniziti_operator.Controller.RoleSync.Status.{
  unmatched_status, capped, with_completion, with_counters, update_role_sync_counters, next_status,
}

capped-prefix :
    (room : ℕ) (members : List UnmatchedMember)
    → (rest : List EntraUnmatchedMember) × (map unmatched_status members
        ≡ capped room members ++ rest)
      × (length (capped room members) ≤ room)
      × ((length (capped room members) ≡ room) ⊎ (rest ≡ []))
unfolding capped
capped-prefix zero members = (map unmatched_status members, refl, omega arith, inl refl)
capped-prefix (suc room) [] = ([], refl, omega arith, inr refl)
capped-prefix (suc room) (member ∷ members) =
    let (rest, e, short, full) = capped-prefix room members in
    (
      rest,
      ap (λ l. unmatched_status member ∷ l) e,
      omega arith,
      elim full [ inl f ↦ inl (omega arith) | inr f ↦ inr f ],
    )

-- For a run that started its writes and has a plan and a completion, the next status lists, in order, the first fifty of
-- the plan's unmatched members, and fewer only if there are no more, each with its own id, name, external
-- id and reason; and its counters are those of the plan and the completion.
pub next_status-first_fifty :
    (env : Env) (now : ℕ) (resource : ZitiEntraRoleSync) (result : SyncRunResult)
    (status : ZitiEntraRoleSyncStatus) (plan : PlanResult) (completion : Completion)
    → result.write_phase_started ≡ true
    → result.plan ≡ some plan
    → result.completion ≡ some completion
    → let after = next_status env now resource result status in
      ((rest : List EntraUnmatchedMember) × (map
            (λ (m : UnmatchedMember). record {
              id = m.id;
              display_name = m.display_name;
              external_id = m.external_id;
              reason = m.reason;
            })
            plan.unmatched_members
          ≡ after.unmatched_members ++ rest)
        × (length after.unmatched_members ≤ 50)
        × ((length after.unmatched_members ≡ 50) ⊎ (rest ≡ [])))
      × (after.matched_identities ≡ plan.matched_identities)
      × (after.identities_updated ≡ completion.identities_updated)
      × (after.members_without_identity ≡ plan.members_without_identity)
unfolding next_status with_counters with_completion update_role_sync_counters unmatched_status
next_status-first_fifty env now resource result status plan completion started planned completed =
    rw (started, planned, completed) (capped-prefix 50 plan.unmatched_members, refl, refl, refl)
