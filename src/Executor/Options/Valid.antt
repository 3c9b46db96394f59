-- ===== src/Executor/Options/Valid.antt =====
-- What holds of an executor's configuration whatever its options are.
use durex.Prelude.{◌<◌, pos, ◌≤ℤ◌, ◌<ℤ◌, List, [], ◌∷◌, arith}
use durex.Executor.{Config}
use durex.Executor.Run.{new_executor}
use durex.Executor.Options.{
  Settings, ExecutorOption, default_settings, apply, apply_all, with_parallelism, with_queue_size,
  with_default_retries, with_default_timeout, with_default_period, with_max_delay,
  with_cleanup_interval, with_cleanup_age, with_stuck_command_recovery, with_graceful_shutdown,
  with_dashboard, with_dead_letter_queue, with_metrics, with_middleware, with_permanent_commands,
  with_error_handler, with_backoff, with_poll_interval, with_claim_batch_size, with_rate_limiter,
  with_rate_limit, with_global_rate_limit,
}

-- The sizes and durations that the executor's loops rely on are positive, the defaults of retries
-- and of the timeout not negative.
pub record IsValid {V : Type 0} (c : Config V) : Type 0 where
  pub workers : 0 < c.parallelism
  pub capacity : 0 < c.queue_size
  pub retries : pos 0 ≤ℤ c.default_retries
  pub timeout : pos 0 ≤ℤ c.default_timeout
  pub interval : pos 0 <ℤ c.default_repeat_interval
  pub delay : pos 0 <ℤ c.max_delay
  pub age : pos 0 <ℤ c.cleanup_age
  pub shutdown : pos 0 <ℤ c.shutdown_timeout
  pub poll : pos 0 <ℤ c.poll_interval
  pub batch : pos 0 <ℤ c.claim_batch_size
  pub stuck : pos 0 <ℤ c.stuck_threshold

module _ {V : Type 0} where
  default_settings-IsValid : IsValid {V = V} default_settings.config
  default_settings-IsValid = record {
    workers = omega arith;
    capacity = omega arith;
    retries = omega arith;
    timeout = omega arith;
    interval = omega arith;
    delay = omega arith;
    age = omega arith;
    shutdown = omega arith;
    poll = omega arith;
    batch = omega arith;
    stuck = omega arith;
  }

  apply-IsValid :
      (o : ExecutorOption V) (s : Settings V) → IsValid s.config → IsValid (apply o s).config
  unfolding apply with_parallelism with_queue_size with_default_retries with_default_timeout
      with_default_period with_max_delay with_cleanup_interval with_cleanup_age
      with_stuck_command_recovery with_graceful_shutdown with_dashboard with_dead_letter_queue
      with_metrics with_middleware with_permanent_commands with_error_handler with_backoff
      with_poll_interval with_claim_batch_size with_rate_limiter with_rate_limit
      with_global_rate_limit
  apply-IsValid o s v = record {
    workers = ground arith;
    capacity = ground arith;
    retries = ground arith;
    timeout = ground arith;
    interval = ground arith;
    delay = ground arith;
    age = ground arith;
    shutdown = ground arith;
    poll = ground arith;
    batch = ground arith;
    stuck = ground arith;
  }

  apply_all-IsValid :
      (opts : List (ExecutorOption V)) (s : Settings V)
      → IsValid s.config
      → IsValid (apply_all opts s).config
  unfolding apply_all
  apply_all-IsValid [] s v = v
  apply_all-IsValid (o ∷ opts) s v = apply_all-IsValid opts (apply o s) (apply-IsValid o s v)

-- Whatever options New is given, and in whatever order: the executor has at least one worker and
-- room in its queue, its default retries and timeout are not negative, and its default period, its
-- largest delay, the age of Cleanup, the time for a shutdown, the interval of polling, the size of
-- a batch and the threshold of stuck commands are positive.
pub new_executor-IsValid :
    {V S : Type 0} (storage : S) (opts : List (ExecutorOption V))
    → IsValid (new_executor storage opts).config
new_executor-IsValid storage opts = apply_all-IsValid opts default_settings default_settings-IsValid
