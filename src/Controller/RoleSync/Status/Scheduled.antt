-- ===== src/Controller/RoleSync/Status/Scheduled.antt =====
-- When the next run of a role sync comes.
use miniziti_operator.Prelude.{
  ℕ, ◌*◌, ◌≤◌, ◌<◌, String, ◌≡◌, ap, refl, false, ◌&&◌, ◌||◌, Option, none, some, List, ◌==◌, arith,
  Bool-cases, Option-cases, inl, inr, ◌⊎◌, eqb, ltb,
}
use miniziti_operator.Errors.{Err, ok, as_graph, as_token, is_directory_content_error}
use miniziti_operator.Rolesync.Ownership.{ResourceKey}
use miniziti_operator.Api.{ZitiEntraRoleSync}
use miniziti_operator.Controller.RoleSync.Effects.{Duration, nonneg, negative, Call, Env}
use miniziti_operator.Controller.RoleSync.Reads.{
  minute, default_interval, below_minute, validate_with, parsed_interval, validate_role_sync_spec,
}
use miniziti_operator.Controller.RoleSync.Run.{SyncRunResult, run_sync}
use miniziti_operator.Controller.RoleSync.Retry.{
  Requeue, after, retry_with, graph_retry, or_failed, retry_graph, waits, permanent_token, denied,
  status_of, retry_result,
}
use miniziti_operator.Controller.RoleSync.Status.{
  reported, persist_sync_result, reconcile_found, reconcile_unless_deleting, reconcile,
}

-- A duration of a minute or more.
abbrev pub AtLeastMinute : Duration → Type 0
AtLeastMinute d = (n : ℕ) × (d ≡ nonneg n) × (minute ≤ n)

not_below_minute : (d : Duration) → below_minute d ≡ false → AtLeastMinute d
unfolding below_minute
not_below_minute (nonneg n) h = (n, refl, ground arith)
not_below_minute (negative n) h = absurd (ground arith)

validate_with-AtLeastMinute :
    (resource : ZitiEntraRoleSync) (interval : Duration)
    → AtLeastMinute (validate_with resource interval).0
unfolding validate_with
validate_with-AtLeastMinute resource interval = elim (Bool-cases (below_minute interval)) [
  | inl e ↦ rw e (10 * minute, refl, omega arith)
  | inr e ↦ rw e (not_below_minute interval e)
]

pub validate_role_sync_spec-AtLeastMinute :
    (env : Env) (resource : ZitiEntraRoleSync)
    → AtLeastMinute (validate_role_sync_spec env resource).0
unfolding validate_role_sync_spec parsed_interval
validate_role_sync_spec-AtLeastMinute env resource =
    elim (Bool-cases (resource.spec.interval == "")) [
      | inl e ↦ rw e (validate_with-AtLeastMinute resource default_interval)
      | inr e ↦ elim (Option-cases (env.parse_duration resource.spec.interval)) [
        | inl n ↦ rw (e, n) (10 * minute, refl, omega arith)
        | inr (d, p) ↦ rw (e, p) (validate_with-AtLeastMinute resource d)
      ]
    ]

-- An error for the rate limiter to retry, or a later run after a positive time.
abbrev pub Scheduled : Requeue × Option Err → Type 0
Scheduled r = ((e : Err) × (r ≡ retry_with e)) ⊎ ((n : ℕ) × (r ≡ after (nonneg n)) × (0 < n))

after-Scheduled : (d : Duration) → AtLeastMinute d → Scheduled (after d)
after-Scheduled d (n, e, long) = inr (n, ap after e, omega arith)

or_failed-Scheduled : (reason : String) (error : Option Err) → Scheduled (or_failed reason error)
unfolding or_failed
or_failed-Scheduled reason none = inl (_, refl)
or_failed-Scheduled reason (some e) = inl (e, refl)

graph_retry-Scheduled :
    (interval : Duration) (e : Err) (retry_after : ℕ)
    → AtLeastMinute interval
    → Scheduled (graph_retry interval e retry_after)
unfolding graph_retry
graph_retry-Scheduled interval e retry_after long =
    let status = status_of (as_graph e) (as_token e) in
    elim (Bool-cases
      (is_directory_content_error e || (permanent_token (as_token e) || denied (as_graph e)))) [
        | inl permanent ↦ rw permanent (after-Scheduled interval long)
        | inr n ↦ elim (Bool-cases ((eqb status 429 || eqb status 503) && ltb 0 retry_after)) [
          | inl throttled ↦ rw (n, throttled) (inr (retry_after, refl, ground (throttled, arith)))
          | inr m ↦ rw (n, m) (inl (e, refl))
        ]
      ]

retry_graph-Scheduled :
    (interval : Duration) (error : Option Err) (retry_after : ℕ)
    → AtLeastMinute interval
    → Scheduled (retry_graph interval error retry_after)
unfolding retry_graph
retry_graph-Scheduled interval none retry_after long = or_failed-Scheduled "GraphError" none
retry_graph-Scheduled interval (some e) retry_after long =
    graph_retry-Scheduled interval e retry_after long

retry_result-Scheduled :
    (interval : Duration) (reason : String) (error : Option Err) (retry_after : ℕ)
    → AtLeastMinute interval
    → Scheduled (retry_result interval reason error retry_after)
unfolding retry_result
retry_result-Scheduled interval reason error retry_after long = elim (Bool-cases (waits reason)) [
  | inl e ↦ rw e (after-Scheduled interval long)
  | inr n ↦ elim (Bool-cases (reason == "GraphError")) [
    | inl e ↦ rw (n, e) (retry_graph-Scheduled interval error retry_after long)
    | inr m ↦ rw (n, m) (or_failed-Scheduled reason error)
  ]
]

reported-Scheduled :
    (env : Env) (interval : Duration) (result : SyncRunResult) (error : Option Err)
    → AtLeastMinute interval
    → Scheduled (reported env interval result error)
unfolding reported
reported-Scheduled env interval result none long =
    retry_result-Scheduled interval result.reason result.error result.retry_after long
reported-Scheduled env interval result (some e) long = inl (e, refl)

reconcile_unless_deleting-Scheduled :
    (env : Env) (deletion : Option ℕ) (resource : ZitiEntraRoleSync) (t : List Call)
    → deletion ≡ none
    → Scheduled (reconcile_unless_deleting env deletion resource t).0
unfolding reconcile_unless_deleting reconcile_found
reconcile_unless_deleting-Scheduled env (some d) resource t h = absurd (ground arith)
reconcile_unless_deleting-Scheduled env none resource t h =
    reported-Scheduled env (validate_role_sync_spec env resource).0 (run_sync env resource t).0.0
      (persist_sync_result env (run_sync env resource t).0.1 (run_sync env resource t).0.0
        (run_sync env resource t).1).0.0
      (validate_role_sync_spec-AtLeastMinute env resource)

-- A role sync that is there and not deleting is never dropped: however its run and the report of it
-- end, Reconcile returns an error, which the rate limiter retries, or asks for the next run after a
-- positive time.
pub reconcile-Scheduled :
    (env : Env) (key : ResourceKey) (t : List Call) (resource : ZitiEntraRoleSync)
    → env.cached t key ≡ ok resource
    → resource.meta.deletion_timestamp ≡ none
    → Scheduled (reconcile env key t).0
unfolding reconcile
reconcile-Scheduled env key t resource found alive =
    rw found
      (reconcile_unless_deleting-Scheduled env resource.meta.deletion_timestamp resource _ alive)
