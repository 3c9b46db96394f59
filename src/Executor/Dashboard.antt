-- ===== src/Executor/Dashboard.antt =====
-- dashboard.go: the handlers of the dashboard's API, from a request to the response. Routing, headers
-- and the encoding of a response are net/http's and encoding/json's. Parsing a decimal number is a
-- parameter.
mod Messages
pub mod Retry
unfoldable pub use Messages.*
use durex.Prelude.{
  ℕ, ℤ, pos, pos_part, ltb_ℤ, String, Bool, true, false, not, ◌&&◌, ◌||◌, Option, none, some,
  is_some, List, [], ◌∷◌, map, length, take, Dict, lookup, ◌==◌, if◌then◌else◌,
}
use durex.Text.{Text}
use durex.Status.{
  status_text, Status, same, pending, started, completed, failed, expired, repeating, cancelled,
  dead_letter,
}
use durex.Event.{Event}
use durex.Instance.{Instance}
use durex.Storage.{Storage, StorageError, Reply, ok, err, Query, any_query}
use durex.Env.{Env}
use durex.Executor.{Executor, Error}
use durex.Executor.Schedule.{schedule}
use durex.Executor.Api.{done, refused, cancel, history}
use durex.Executor.Dlq.{Stats, stats, reset_for_replay}

module _ (env : Env) (st : Storage env.Any) where
  open env use {Any}

  unfoldable pub handle_api_stats : Executor Any st.State → Request → Response
  handle_api_stats e r =
      if r.method == "GET"
      then elim (stats env st e) [ err x ↦ error_of 500 (storage_error x) | ok s ↦ stats_of s ]
      else error_of 405 method_not_allowed

  -- the query of handleAPICommands
  found_commands :
      (st.State → Query → Reply (List (Instance Any)))
      → st.State
      → ℤ
      → String
      → Reply (List (Instance Any))
  found_commands find s limit status =
      let query = record any_query { limit = limit; order_by = "created_at"; order_desc = true } in
      if status == ""
      then find s query
      else find s (record query { status = some (status_text status) })

  -- a storage that answers no queries gives the first of its pending commands
  recent_commands : Executor Any st.State → ℤ → String → ℤ → Reply (List (Instance Any))
  unfolding found_commands
  recent_commands e limit status now = elim st.find [
    | some find ↦ found_commands find e.storage limit status
    | none ↦ elim (st.find_pending e.storage now) [
      | err x ↦ err x
      | ok l ↦ ok (take (pos_part limit) l)
    ]
  ]

  unfoldable pub handle_api_commands :
      (String → Option ℤ) → Executor Any st.State → Request → ℤ → Response
  unfolding recent_commands
  handle_api_commands atoi e r now =
      if r.method == "GET"
      then elim (recent_commands e (limit_of atoi (parameter r "limit")) (parameter r "status")
          now) [
            | err x ↦ error_of 500 (storage_error x)
            | ok l ↦ commands_of (map command_response l)
          ]
      else error_of 405 method_not_allowed

  abbrev health :
      Executor Any st.State → HealthStatus → Bool → ℕ → HealthMessage → ℤ → HealthResponse
  health e status storage_ok depth message now = record {
    status = status;
    started = e.started;
    storage_ok = storage_ok;
    worker_count = e.config.parallelism;
    queue_depth = depth;
    message = message;
    timestamp = now;
  }

  unfoldable pub handle_api_health : Executor Any st.State → Request → ℤ → Response
  handle_api_health e r now =
      if not (r.method == "GET")
      then error_of 405 method_not_allowed
      else if not e.started
      then health_of 503 (health e unhealthy false 0 not_started now)
      else if e.stopping
      then health_of 503 (health e degraded false 0 shutting_down now)
      else elim (st.count e.storage none) [
        | err x ↦ health_of 503 (health e unhealthy false 0 (storage_failing x) now)
        | ok n ↦ health_of 200 (health e healthy true (length e.queue) no_message now)
      ]

  -- the write of the command, its schedule and the answer
  unfoldable pub retry_instance :
      Executor Any st.State → String → Instance Any → ℤ → Response × Executor Any st.State
  retry_instance e id i now =
      if not (same i.status failed) && not (same i.status dead_letter)
      then (error_of 400 (not_retryable i.status), e)
      else (let (reply, s) = st.update e.storage (reset_for_replay i now) in
          elim reply [
            | err x ↦ (error_of 500 (storage_error x), record e { storage = s })
            | ok _ ↦
                (scheduled_of id, schedule (record e { storage = s }) (reset_for_replay i now) now)
          ])

  unfoldable pub handle_api_retry :
      Executor Any st.State → Request → ℤ → Response × Executor Any st.State
  handle_api_retry e r now =
      let id = parameter r "id" in
      if not (r.method == "POST")
      then (error_of 405 method_not_allowed, e)
      else if id == ""
      then (error_of 400 missing_id, e)
      else elim (st.get e.storage id) [
        | err x ↦ (error_of 404 (storage_error x), e)
        | ok i ↦ retry_instance e id i now
      ]

  unfoldable pub handle_api_cancel :
      Executor Any st.State → Request → ℤ → Response × Executor Any st.State
  handle_api_cancel e r now =
      let id = parameter r "id" in
      if not (r.method == "POST")
      then (error_of 405 method_not_allowed, e)
      else if id == ""
      then (error_of 400 missing_id, e)
      else (let (failure, e') = cancel env st e id now in
          elim failure [
            | some x ↦ (error_of 400 (executor_error x), e')
            | none ↦ (cancelled_of id, e')
          ])

  unfoldable pub handle_api_history : Executor Any st.State → Request → Response
  handle_api_history e r =
      let id = parameter r "id" in
      if not (r.method == "GET")
      then error_of 405 method_not_allowed
      else if id == ""
      then error_of 400 missing_id
      else elim (history env st e id) [
        | refused x ↦ error_of 404 (executor_error x)
        | done events ↦ history_of id events
      ]
