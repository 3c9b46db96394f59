-- ===== src/Executor/Handlers.antt =====
-- executor_handlers.go: what follows an execution. A step ends with `finished`, with the error of a
-- storage call that is returned, with a panic of user code that unwinds to safeExecute with the
-- instance as it is then, or `blocked` in the rate limiter.
mod Changes
pub mod Settles
pub mod Limiter
pub mod Children
unfoldable pub use Changes.*
use durex.Prelude.{
  ◌&&◌, ℤ, pos, ltb_ℤ, ◌+ℤ◌, ◌-ℤ◌, is_zero, String, Option, none, some, List, [], ◌∷◌, length, ◌==◌,
  if◌then◌else◌,
}
use durex.Text.{Text, empty_text, retries_left, next_run_in, next_run_at, cron_fallback, lit}
use durex.Status.{Status}
use durex.Event.{EventType}
use durex.Spec.{Spec, zero_spec}
use durex.Instance.{Instance, record_event, record_error}
use durex.Result.{Result}
use durex.Registry.{resolve}
use durex.Cron.{next_cron_time}
use durex.Storage.{Storage, StorageError, ok, err}
use durex.Env.{Env}
use durex.Executor.{
  Executor, Command, Outcome, Verdict, Config, user, barrier, barrier_command_name, second, metric,
  handle_error_call, command_retried,
}
use durex.Executor.Create.{create_instance}
use durex.Executor.Schedule.{schedule}
use durex.Executor.Api.{add_all}

pub data Flow (V : Type 0) : Type 0 where
  finished : Flow V
  fault : StorageError → Flow V
  panic : Instance V → Text → Flow V
  blocked : Flow V

module _ (env : Env) (st : Storage env.Any) where
  open env use {Any, of_int, of_string, of_strings, of_spec}

  -- if err := e.storage.Update(ctx, instance); err != nil { return err }
  unfoldable pub update_then :
      Executor Any st.State
      → Instance Any
      → (Executor Any st.State → Flow Any × Executor Any st.State)
      → Flow Any × Executor Any st.State
  update_then e i rest =
      let (reply, s) = st.update e.storage i in
      elim reply [
        | ok _ ↦ rest (record e { storage = s })
        | err x ↦ (fault x, record e { storage = s })
      ]

  -- storage.Create and scheduleFn of a child; `false` when one of them was not done
  spawn_created :
      Option (Instance Any)
      → String
      → Executor Any st.State
      → ℤ
      → Option String × Executor Any st.State
  spawn_created none parent_id e now = (none, e)
  spawn_created (some i) parent_id e now =
      let child : Instance Any = record i { parent_id = some parent_id } in
      let (reply, s) = st.create e.storage child in
      elim reply [
        | ok _ ↦ (some child.id, schedule (record e { storage = s }) child now)
        | err x ↦ (none, record e { storage = s })
      ]

  -- the id of the child, if it was created
  unfoldable pub spawn_child :
      Executor Any st.State → Instance Any → Spec Any → ℤ → Option String × Executor Any st.State
  unfolding spawn_created
  spawn_child e parent spec now =
      let (child, e') = create_instance env e spec now in spawn_created child parent.id e' now

  unfoldable pub spawn_children :
      Executor Any st.State
      → Instance Any
      → List (Spec Any)
      → ℤ
      → List String × Executor Any st.State
  spawn_children e parent [] now = ([], e)
  spawn_children e parent (spec ∷ specs) now =
      let (id, e') = spawn_child e parent (propagate_ids spec parent) now in
      let (ids, e'') = spawn_children e' parent specs now in
      (elim id [ none ↦ ids | some i ↦ i ∷ ids ], e'')

  unfoldable pub barrier_spec : Instance Any → Spec Any → List String → Spec Any
  barrier_spec parent continuation child_ids = record zero_spec {
    name = barrier_command_name;
    payload = some (
        ("coordinator_id", of_string parent.id)
        ∷ ("expected_count", of_int (pos (length child_ids)))
        ∷ ("continuation", of_spec continuation)
        ∷ ("child_ids", of_strings child_ids)
        ∷ []);
    trace_id = parent.trace_id;
    correlation_id = parent.correlation_id;
    delay = second;
  }

  -- failures to create the barrier are only logged
  unfoldable pub spawn_barrier :
      Executor Any st.State → Instance Any → Spec Any → List String → ℤ → Executor Any st.State
  spawn_barrier e parent continuation child_ids now =
      (spawn_child e parent (barrier_spec parent continuation child_ids) now).1

  -- a continuation is dropped when no child was created
  unfoldable pub continue_with :
      Executor Any st.State
      → Instance Any
      → Option (Spec Any)
      → List String
      → ℤ
      → Executor Any st.State
  continue_with e i none child_ids now = e
  continue_with e i (some c) [] now = e
  continue_with e i (some c) (id ∷ ids) now = spawn_barrier e i (propagate_ids c i) (id ∷ ids) now

  unfoldable pub complete :
      Executor Any st.State → Instance Any → Result Any → ℤ → Flow Any × Executor Any st.State
  complete e i result now =
      let (child_ids, e') = spawn_children e i result.commands now in
      update_then (continue_with e' i result.continuation child_ids now) (as_completed i now)
        (λ e''. (finished, e''))

  unfoldable pub handle_result :
      Executor Any st.State → Instance Any → Result Any → ℤ → Flow Any × Executor Any st.State
  handle_result e i result now =
      if result.repeat
      then update_then e (as_repeating env e.config i now)
          (λ e'. (finished, schedule e' (as_repeating env e.config i now) now))
      else if result.retry && ltb_ℤ (pos 0) i.retries
      then update_then (metric e (command_retried i.name i.attempt)) (as_retrying i now)
          (λ e'. (finished, schedule e' (as_retrying i now) now))
      else complete e i result now

  -- the commands that Recover or Expired returns; their own errors are only logged
  abbrev pub follow_verdict :
      Executor Any st.State → Instance Any → Verdict Any → ℤ → Flow Any × Executor Any st.State
  follow_verdict e i (Verdict.returned r) now = (finished, add_all env st e r.commands now)
  follow_verdict e i (Verdict.failed t) now = (finished, e)
  follow_verdict e i (Verdict.panicked t) now = (panic i t, e)

  -- `none` is a handler that does not implement the interface
  unfoldable pub follow_up :
      Executor Any st.State → Option (Outcome Any) → ℤ → Flow Any × Executor Any st.State
  follow_up e none now = (finished, e)
  follow_up e (some o) now = follow_verdict e o.instance_after o.verdict now

  abbrev pub recover_of : Command Any → Instance Any → Text → Option (Outcome Any)
  recover_of barrier i failure = none
  recover_of (user h) i failure = elim h.recover [ none ↦ none | some f ↦ some (f i failure) ]

  abbrev pub expired_of : Option (Command Any) → Instance Any → Option (Outcome Any)
  expired_of none i = none
  expired_of (some barrier) i = none
  expired_of (some (user h)) i = elim h.expired [ none ↦ none | some f ↦ some (f i) ]

  unfoldable pub handle_error :
      Executor Any st.State
      → Instance Any
      → Command Any
      → Text
      → ℤ
      → Flow Any × Executor Any st.State
  handle_error e i handler failure now =
      if ltb_ℤ (pos 0) i.retries
      then update_then (metric e (command_retried i.name i.attempt))
          (as_backing_off e.config i failure now)
          (λ e'. (finished, schedule e' (as_backing_off e.config i failure now) now))
      else update_then e (as_failed e.config i failure now) (λ e'.
        follow_up (handle_error_call e' (as_failed e.config i failure now) failure)
          (recover_of handler (as_failed e.config i failure now) failure) now)

  unfoldable pub handle_expired :
      Executor Any st.State → Instance Any → ℤ → Flow Any × Executor Any st.State
  handle_expired e i now =
      update_then e (as_expired i now)
        (λ e'. follow_up e' (expired_of (resolve e'.registry i.name) (as_expired i now)) now)
