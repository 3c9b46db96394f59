-- ===== src/Cli/Retry.antt =====
-- cmd/durex/commands/retry.go: `durex retry`.
pub mod Reset
use durex.Prelude.{ℤ, pos, String, not, ◌&&◌, none, if◌then◌else◌}
use durex.Text.{Text, lit, empty_text}
use durex.Status.{Status, same, pending}
use durex.Event.{EventType}
use durex.Instance.{Instance, record_event}
use durex.Storage.{Storage, ok, err}
use durex.Cli.{
  Dialect, Answer, printed, failed, failed_to, not_retryable, get_command, update_command,
  on_storage,
}

-- what is printed before the reset
pub record Retried : Type 0 where
  pub id : String
  pub name : String
  pub previous_status : Status
  pub previous_error : Text

unfoldable pub reset_for_retry : {V : Type 0} → Instance V → ℤ → Instance V
unfolding record_event
reset_for_retry i now =
    record_event
      (record i {
        status = pending;
        error = empty_text;
        started_at = none;
        completed_at = none;
        attempt = pos 0;
        ready_at = i.created_at;
      })
      EventType.retrying now (lit "manual retry via CLI")

module _ {V : Type 0} (st : Storage V) where
  -- Run after the connection
  unfoldable pub retry_command : String → ℤ → st.State → Answer Retried × st.State
  unfolding reset_for_retry
  retry_command id now s = elim (st.get s id) [
    | err x ↦ (failed (failed_to get_command x), s)
    | ok i ↦
        if not (same i.status Status.failed) && not (same i.status Status.dead_letter)
        then (failed (not_retryable i.status), s)
        else (let (reply, s') = st.update s (reset_for_retry i now) in
            elim reply [
              | err x ↦ (failed (failed_to update_command x), s')
              | ok _ ↦ (printed (retried i), s')
            ])
  ]
    where
      retried : Instance V → Retried
      retried i = record {
        id = i.id;
        name = i.name;
        previous_status = i.status;
        previous_error = i.error;
      }

  unfoldable pub run : Answer Dialect → String → ℤ → st.State → Answer Retried × st.State
  unfolding retry_command
  run connected id now s = on_storage connected s (retry_command id now)
