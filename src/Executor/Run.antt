-- ===== src/Executor/Run.antt =====
-- executor.go: New, Start and Stop. The goroutines that Start launches are the rounds of
-- Executor/Worker.antt and Executor/Maintenance.antt; the dashboard is not modelled.
pub mod Replay
use durex.Prelude.{
  ℤ, pos, String, true, false, Option, none, some, List, [], ◌∷◌, is_some, if◌then◌else◌,
}
use durex.Spec.{Spec, zero_spec}
use durex.Registry.{new_registry, register, overwrite, resolve, RegisterError}
use durex.RateLimiter.{RateLimiter}
use durex.Storage.{Storage, ok, err}
use durex.Env.{Env}
use durex.Executor.{
  Executor, Config, Command, Error, name_of, default_of, barrier, unset, polling, queueing,
  no_handler, storage_failed,
}
use durex.Executor.Options.{ExecutorOption, apply_all, default_settings}
use durex.Executor.Schedule.{schedule_all, cancel_delayed_timers}
use durex.Executor.Api.{done, refused, add}

-- New; the loop over the options runs before the queue is made
abbrev pub new_executor : {V S : Type 0} → S → List (ExecutorOption V) → Executor V S
new_executor storage opts =
    let settings = apply_all opts default_settings in
    record {
      config = settings.config;
      registry = new_registry;
      storage = storage;
      rate_limiter = settings.rate_limiter;
      queue = [];
      delayed_timers = [];
      schedule_fn = unset;
      started = false;
      stopping = false;
      generated = 0;
      observed = [];
    }

module _ {V S : Type 0} where
  -- MustRegister; an error is the panic
  unfoldable pub register_command : Executor V S → Command V → Option RegisterError × Executor V S
  register_command e cmd =
      let (failure, r) = register name_of e.registry cmd in (failure, record e { registry = r })

  -- the name of the barrier is not empty, so Overwrite does not panic
  unfoldable pub register_barrier_command : Executor V S → Executor V S
  register_barrier_command e = elim (overwrite name_of e.registry barrier) [
    | none ↦ e
    | some r ↦ record e { registry = r }
  ]

  -- a start after a stop: a new context, an empty queue, no timers
  unfoldable pub reinitialize : Executor V S → Executor V S
  reinitialize e =
      if e.stopping then record e { stopping = false; queue = []; delayed_timers = [] } else e

  -- the wait for the workers is not part of the step
  unfoldable pub stop : Executor V S → Executor V S
  stop e =
      if e.started
      then (if e.stopping
          then e
          else record (cancel_delayed_timers (record e { stopping = true })) { started = false })
      else e

module _ (env : Env) (st : Storage env.Any) where
  open env use {Any}

  unfoldable pub start_permanent_command :
      Executor Any st.State → String → ℤ → Option Error × Executor Any st.State
  start_permanent_command e name now = elim (resolve e.registry name) [
    | none ↦ (some (no_handler name), e)
    | some handler ↦
        let spec : Spec Any = elim (default_of handler) [ none ↦ zero_spec | some d ↦ d ] in
        let (answer, e') = add env st e (record spec { name = name }) now in
        (elim answer [ done i ↦ none | refused x ↦ some x ], e')
  ]

  -- errors are only logged
  start_each : Executor Any st.State → List String → ℤ → Executor Any st.State
  start_each e [] now = e
  start_each e (name ∷ names) now = start_each (start_permanent_command e name now).1 names now

  unfoldable pub replay : Executor Any st.State → ℤ → Option Error × Executor Any st.State
  replay e now = elim (st.find_pending e.storage now) [
    | err x ↦ (some (storage_failed x), e)
    | ok commands ↦ (none, schedule_all e commands now)
  ]

  abbrev launch : Executor Any st.State → ℤ → Executor Any st.State
  launch e now = start_each (record e { started = true }) e.config.permanent_commands now

  -- polling mode with a LockingStorage, else queue mode with a replay
  unfoldable pub start : Executor Any st.State → ℤ → Option Error × Executor Any st.State
  unfolding start_each
  start e now =
      if e.started
      then (none, e)
      else (let e' = register_barrier_command (reinitialize e) in
          if is_some st.claim_pending
          then (none, launch (record e' { schedule_fn = polling }) now)
          else (let (failure, e'') = replay (record e' { schedule_fn = queueing }) now in
              elim failure [ some x ↦ (some x, e'') | none ↦ (none, launch e'' now) ]))
