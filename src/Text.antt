-- ===== src/Text.antt =====
-- Texts that the executor composes with fmt.Sprintf and fmt.Errorf (executor_handlers.go,
-- executor_worker.go, barrier.go, registry.go, cmd/durex): the format with its arguments, not yet printed.
-- The text of a plain string is `lit`.
use durex.Prelude.{ℤ, String, List}

pub data Text : Type 0 where
  lit : String → Text
  retries_left : ℤ → Text
  next_run_in : ℤ → Text
  cron_fallback : ℤ → Text
  next_run_at : ℤ → String → Text
  no_handler : String → Text
  timed_out : ℤ → Text
  panicked : Text → Text
  cancelled_by_tag cancelled_by_cli : String → Text
  barrier_decode : Text
  barrier_missing : List String → Text
  barrier_child_failed : String → Text

abbrev pub empty_text : Text
empty_text = lit ""
