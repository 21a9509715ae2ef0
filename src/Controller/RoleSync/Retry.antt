-- ===== src/Controller/RoleSync/Retry.antt =====
-- retryResult of zitientrarolesync_status.go: when a run is tried again.
use Prim.Native.String.{◌++◌}
use miniziti_operator.Prelude.{
  ℕ, String, Bool, false, not, ◌&&◌, ◌||◌, Option, none, some, ◌==◌, ltb, eqb, if◌then◌else◌,
}
use miniziti_operator.Errors.{
  Err, text, GraphError, TokenError, as_graph, as_token, is_transient, is_directory_content_error,
}
use miniziti_operator.Controller.RoleSync.Effects.{Duration, nonneg}

-- ctrl.Result, without the immediate Requeue, which this reconciler never asks for.
pub record Requeue : Type 0 where
  pub requeue_after : Option Duration

abbrev pub after : Duration → Requeue × Option Err
after d = (record { requeue_after = some d }, none)

-- The error that the rate limiter retries.
abbrev pub retry_with : Err → Requeue × Option Err
retry_with e = (record { requeue_after = none }, some e)

pub permanent_token : Option TokenError → Bool
unfolding is_transient
permanent_token none = false
permanent_token (some t) = not (is_transient t)

pub denied : Option GraphError → Bool
denied none = false
denied (some g) = eqb g.status_code 401 || eqb g.status_code 403

-- The status code: that of a GraphError, else that of a TokenError, else 0.
pub status_of : Option GraphError → Option TokenError → ℕ
status_of (some g) _ = g.status_code
status_of none (some t) = t.status_code
status_of none none = 0

unfoldable pub graph_retry : Duration → Err → ℕ → Requeue × Option Err
unfolding permanent_token denied status_of as_graph as_token is_directory_content_error
graph_retry interval e retry_after =
    let status = status_of (as_graph e) (as_token e) in
    if is_directory_content_error e || (permanent_token (as_token e) || denied (as_graph e))
    then after interval
    else if (eqb status 429 || eqb status 503) && ltb 0 retry_after
    then after (nonneg retry_after)
    else retry_with e

-- The end of retryResult.
unfoldable pub or_failed : String → Option Err → Requeue × Option Err
or_failed reason none = retry_with (text ("role sync failed: " ++ reason))
or_failed reason (some e) = retry_with e

unfoldable pub retry_graph : Duration → Option Err → ℕ → Requeue × Option Err
unfolding graph_retry or_failed
retry_graph interval none retry_after = or_failed "GraphError" none
retry_graph interval (some e) retry_after = graph_retry interval e retry_after

-- The reasons that wait for the next interval.
pub waits : String → Bool
waits reason =
    reason == "Synced"
    || (reason == "CleanupPending"
        || (reason == "InvalidSpec" || (reason == "Conflict" || reason == "WouldRemoveAll")))

unfoldable pub retry_result : Duration → String → Option Err → ℕ → Requeue × Option Err
unfolding waits retry_graph
retry_result interval reason error retry_after =
    if waits reason
    then after interval
    else if reason == "GraphError"
    then retry_graph interval error retry_after
    else or_failed reason error
