-- ===== src/Executor/Handlers/Changes.antt =====
-- executor_handlers.go: how an instance is changed before it is written, and the specifications of
-- children.
use durex.Prelude.{ℤ, pos, ◌+ℤ◌, ◌-ℤ◌, is_zero, none, some, ◌==◌, if◌then◌else◌}
use durex.Text.{Text, empty_text, retries_left, next_run_in, next_run_at, cron_fallback, lit}
use durex.Status.{Status}
use durex.Event.{EventType}
use durex.Spec.{Spec}
use durex.Instance.{Instance, record_event, record_error}
use durex.Cron.{next_cron_time}
use durex.Env.{Env}
use durex.Executor.{Config}

module _ {V : Type 0} where
  unfoldable pub propagate_ids : Spec V → Instance V → Spec V
  propagate_ids spec parent = record spec {
    trace_id = if spec.trace_id == "" then parent.trace_id else spec.trace_id;
    correlation_id =
        if spec.correlation_id == ""
        then (if parent.correlation_id == "" then parent.id else parent.correlation_id)
        else spec.correlation_id;
  }

  unfoldable pub period_of : Config V → Instance V → ℤ
  period_of c i = if is_zero i.period then c.default_repeat_interval else i.period

module _ (env : Env) where
  open env use {Any}

  -- cron before period; an expression with no next time falls back to the period
  unfoldable pub next_run : Config Any → Instance Any → ℤ → ℤ × Text
  next_run c i now =
      if i.cron == ""
      then (now +ℤ period_of c i, next_run_in (period_of c i))
      else elim (next_cron_time env i.cron now) [
        | none ↦ (now +ℤ period_of c i, cron_fallback (period_of c i))
        | some t ↦ (t, next_run_at t i.cron)
      ]

  unfoldable pub as_repeating : Config Any → Instance Any → ℤ → Instance Any
  unfolding record_event
  as_repeating c i now =
      let (ready_at, message) = next_run c i now in
      record_event (record i { status = Status.repeating; ready_at = ready_at }) EventType.repeating
        now message

module _ {V : Type 0} where
  unfoldable pub as_retrying : Instance V → ℤ → Instance V
  unfolding record_event
  as_retrying i now =
      record_event (record i { retries = i.retries -ℤ pos 1; status = Status.pending })
        EventType.retrying now (retries_left (i.retries -ℤ pos 1))

  unfoldable pub as_completed : Instance V → ℤ → Instance V
  unfolding record_event
  as_completed i now =
      record_event (record i { status = Status.completed; completed_at = some now })
        EventType.completed now empty_text

  unfoldable pub as_backing_off : Config V → Instance V → Text → ℤ → Instance V
  unfolding record_error
  as_backing_off c i failure now =
      record_error
        (record i {
          retries = i.retries -ℤ pos 1;
          status = Status.pending;
          error = failure;
          ready_at = now +ℤ c.backoff i.attempt;
        })
        EventType.retrying now failure

  unfoldable pub as_failed : Config V → Instance V → Text → ℤ → Instance V
  unfolding record_error
  as_failed c i failure now =
      record (if c.dead_letter_enabled
        then record_error (record i { status = Status.dead_letter }) EventType.recovered now failure
        else record_error (record i { status = Status.failed }) EventType.failed now failure) {
          error = failure;
          completed_at = some now;
        }

  unfoldable pub as_expired : Instance V → ℤ → Instance V
  unfolding record_event
  as_expired i now =
      record_event (record i { status = Status.expired; completed_at = some now }) EventType.expired
        now (lit "deadline exceeded")
