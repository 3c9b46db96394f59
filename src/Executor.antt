-- ===== src/Executor.antt =====
-- executor.go, command.go: the executor's state. Its operations are in the modules below, each over
-- a storage `st` and the environment `env`, with the clock's reading as an argument. The queue, the
-- timers and the storage are the shared state; a pointer that is queued is a value here, since the
-- code that queued it does not touch it again.
pub mod Create
pub mod Schedule
pub mod Api
pub mod Dlq
pub mod Barrier
pub mod Handlers
pub mod Worker
pub mod Maintenance
pub mod Options
pub mod Run
pub mod Dashboard
pub mod RateLimited
use durex.Prelude.{
  ℕ, ℤ, pos, String, Bool, true, false, Option, none, some, List, [], ◌∷◌, ◌++◌, Dict,
  if◌then◌else◌,
}
use durex.Text.{Text}
use durex.Status.{Status}
use durex.Spec.{Spec, zero_spec}
use durex.Instance.{Instance}
use durex.Result.{Result, empty}
use durex.Registry.{Registry}
use durex.RateLimiter.{RateLimiter}
use durex.Storage.{StorageError}

-- How a call of user code ends: a Result, an error, or a panic.
pub data Verdict (V : Type 0) : Type 0 where
  returned : Result V → Verdict V
  failed : Text → Verdict V
  panicked : Text → Verdict V

-- The instance is passed by pointer, so user code may leave it changed.
pub record Outcome (V : Type 0) : Type 0 where
  pub instance_after : Instance V
  pub verdict : Verdict V

-- A user's handler: Command, with Recoverable, Expirable and Defaulter where it implements them.
-- Default() is taken to make its map anew at each call, since mergeSpecs writes into it; Spec has
-- what becomes of a map that is not.
pub record Handler (V : Type 0) : Type 0 where
  pub name : String
  pub execute : Instance V → Outcome V
  pub recover : Option (Instance V → Text → Outcome V)
  pub expired : Option (Instance V → Outcome V)
  pub default : Option (Spec V)

-- Empty() and no error, the instance as it was
abbrev finished_empty : {V : Type 0} → Instance V → Outcome V
finished_empty i = record { instance_after = i; verdict = Verdict.returned empty }

-- BaseCommand, which a user's handler may embed; it implements every interface
unfoldable pub base_command : {V : Type 0} → Handler V
base_command = record {
  name = "";
  execute = finished_empty;
  recover = some (λ i failure. finished_empty i);
  expired = some finished_empty;
  default = some zero_spec;
}

-- What the registry holds: a user's handler, or the executor's own barrier command.
pub data Command (V : Type 0) : Type 0 where
  user : Handler V → Command V
  barrier : Command V

abbrev pub barrier_command_name : String
barrier_command_name = "__durex_barrier"

abbrev pub second : ℤ
second = pos 1000000000

abbrev pub name_of : {V : Type 0} → Command V → String
name_of (user h) = h.name
name_of barrier = barrier_command_name

-- Default() of a command that has one; the barrier's is in barrier.go
abbrev pub default_of : {V : Type 0} → Command V → Option (Spec V)
default_of (user h) = h.default
default_of barrier = some (record zero_spec { name = barrier_command_name; period = second })

-- A middleware takes the instance of its context, and the rest of the chain as a function of the
-- instance that it is left with.
abbrev pub Middleware : Type 0 → Type 0
Middleware V = (Instance V → Outcome V) → Instance V → Outcome V

pub record Config (V : Type 0) : Type 0 where
  pub parallelism : ℕ
  pub queue_size : ℕ
  pub default_retries : ℤ
  pub default_timeout : ℤ
  pub default_repeat_interval : ℤ
  pub max_delay : ℤ
  pub cleanup_interval : ℤ
  pub cleanup_age : ℤ
  pub shutdown_timeout : ℤ
  pub permanent_commands : List String
  pub backoff : ℤ → ℤ
  pub poll_interval : ℤ
  pub claim_batch_size : ℤ
  pub stuck_check_interval : ℤ
  pub stuck_threshold : ℤ
  pub dashboard_addr : String
  pub dead_letter_enabled : Bool
  pub middleware : List (Middleware V)
  pub has_metrics : Bool
  pub has_error_handler : Bool

-- Calls of the metrics collector and of the error handler, newest last.
pub data Observed (V : Type 0) : Type 0 where
  command_started : String → Observed V
  command_completed : String → ℤ → Observed V
  command_failed : String → Text → Observed V
  command_retried : String → ℤ → Observed V
  error_handled : Instance V → Text → Observed V

pub record Timer (V : Type 0) : Type 0 where
  pub fires_at : ℤ
  pub instance_due : Instance V

-- The values of scheduleFn: the no-op before Start, the no-op of polling mode, queueSchedule.
pub data ScheduleFn : Type 0 where
  unset polling queueing : ScheduleFn

pub record Executor (V S : Type 0) : Type 0 where
  pub config : Config V
  pub registry : Registry (Command V)
  pub storage : S
  pub rate_limiter : Option RateLimiter
  pub queue : List (Instance V)
  pub delayed_timers : Dict (Timer V)
  pub schedule_fn : ScheduleFn
  pub started : Bool
  pub stopping : Bool
  pub generated : ℕ
  pub observed : List (Observed V)

-- The errors of the executor's methods.
pub data Error : Type 0 where
  executor_not_ready name_required duplicate_command no_tag_queries : Error
  unique_check_failed persist_failed storage_failed : StorageError → Error
  cannot_cancel not_dead_lettered : Status → Error
  no_handler : String → Error

module _ {V S : Type 0} where
  abbrev pub metric : Executor V S → Observed V → Executor V S
  metric e o = if e.config.has_metrics then record e { observed = e.observed ++ o ∷ [] } else e

  abbrev pub handle_error_call : Executor V S → Instance V → Text → Executor V S
  handle_error_call e i err =
      if e.config.has_error_handler
      then record e { observed = e.observed ++ error_handled i err ∷ [] }
      else e
