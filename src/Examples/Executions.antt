-- ===== src/Examples/Executions.antt =====
-- Executions of `job`.
use durex.Prelude.{
  All, ◌≤ℤ◌, ℤ, pos, ◌+ℤ◌, ◌-ℤ◌, lookup, insert, remove, String, ◌≡◌, ◌≢◌, refl, true, false,
  Option, none, some, [], ◌∷◌, ◌++◌, ◌&&◌, ◌==◌, if◌then◌else◌, arith,
}
use durex.Text.{panicked, lit, empty_text}
use durex.Event.{EventType, plain_event}
use durex.Status.{Status, is_terminal, is_active}
use durex.Instance.{Instance, clone, deep_copy_map, record_event, is_overdue}
use durex.Registry.{resolve}
use durex.RateLimiter.{RateLimiter, attempt, release, remove_waiter}
use durex.Storage.{is_ok}
use durex.Storage.Memory.{Memory, update, get}
use durex.Storage.Memory.Map.{memory, memory_laws}
use durex.Executor.{Executor, Command, Handler, user, error_handled}
use durex.Executor.Schedule.{schedule}
use durex.Executor.Api.{cancel}
use durex.Executor.Handlers.Children.{IsChild, spawn_children-IsChild}
use durex.Executor.Handlers.{
  Flow, finished, blocked, update_then, handle_result, handle_error, as_completed, as_backing_off,
  as_failed, complete, spawn_children, continue_with, follow_up,
}
use durex.Executor.Handlers.Settles.{settled}
use durex.Executor.Worker.{
  execute_with_middleware, exceeded, release_slot, conclude, run_handler, start_handler, with_slot,
  execute, safe_execute, recover_panic, worker, as_started,
}
use durex.Executor.Worker.Settles.{KeepsId, execute-settled, safe_execute-panic}
use durex.Executor.Worker.Slots.{slots, all_slots, safe_execute-Balanced}
use durex.Executor.Worker.Runs.{
  completed_run, Accepts, Runnable, worker_completes, cancelled_command_completes,
}
use durex.Executor.RateLimited.{retry_later, rate_limit_middleware}
use durex.Executor.RateLimited.Unrun.{unrun_completes}
use durex.Executor.Worker.Retries.{Failing, Exhausted, rounds, retries-Exhausted}
use durex.Examples.Data.{named, Value, env, job, succeeding, failing, panicking, executor, limiter}

-- one execution of `job` in queue mode, from 1 to 2
unfoldable ran : Handler Value → Option RateLimiter → Flow Value × Executor Value (Memory Value)
unfolding execute is_overdue resolve with_slot start_handler update_then run_handler
    execute_with_middleware conclude exceeded handle_result handle_error complete spawn_children
    continue_with follow_up schedule as_started as_completed as_backing_off as_failed update get
    record_event clone deep_copy_map lookup insert remove attempt release release_slot ◌+ℤ◌ ◌-ℤ◌
    is_terminal is_active
ran h limits = execute env (memory env) (executor h limits) job false false (pos 1) (pos 2)

succeeding-KeepsId :
    (handler : Command Value)
    → resolve (executor succeeding none).registry "work" ≡ some handler
    → KeepsId env (memory env) (memory_laws env) (executor succeeding none) handler
unfolding resolve lookup execute_with_middleware
succeeding-KeepsId handler h s i = ground arith

execute-settled_example :
    settled env
      (memory env)
      (memory_laws env)
      (execute env (memory env) (executor succeeding none) job false false (pos 1) (pos 2)).1
      "job"
    ≡ true
unfolding ran
execute-settled_example =
    execute-settled env (memory env) (memory_laws env) (executor succeeding none) job false (pos 1)
      (pos 2) succeeding-KeepsId refl refl refl

safe_execute-panic_example :
    let e = executor panicking none in
    let e' = (execute env (memory env) e job false false (pos 1) (pos 2)).1 in
    let p = safe_execute env (memory env) e job false false (pos 1) (pos 2) in
    let dead = record (as_started job (pos 1)) {
      status = Status.failed;
      error = panicked (lit "boom");
      completed_at = some (pos 2);
    } in
    (p.0 ≡ finished)
    × ((k : String)
        → (memory_laws env).view p.1.storage k ≡ (
            if is_ok (update env e'.storage dead).0 && ("job" == k)
            then some ((memory_laws env).stored dead)
            else (memory_laws env).view e'.storage k))
    × (p.1.observed ≡ (
        if e'.config.has_error_handler
        then e'.observed ++ error_handled dead (panicked (lit "boom")) ∷ []
        else e'.observed))
unfolding ran
safe_execute-panic_example =
    safe_execute-panic env (memory env) (memory_laws env) (executor panicking none) job
      (as_started job (pos 1)) (lit "boom") false false (pos 1) (pos 2) refl

finishes :
    (safe_execute env
      (memory env)
      (executor panicking (some limiter))
      job
      false
      false
      (pos 1)
      (pos 2)).0
    ≡ finished
unfolding ran safe_execute recover_panic
finishes = refl

not_blocked :
    (safe_execute env
      (memory env)
      (executor panicking (some limiter))
      job
      false
      false
      (pos 1)
      (pos 2)).0
    ≢ blocked
not_blocked = ground (arith, finishes)

safe_execute-Balanced_example :
    let e = executor panicking (some limiter) in
    let p = safe_execute env (memory env) e job false false (pos 1) (pos 2) in
    ((name : String)
      → slots env (memory env) p.1.rate_limiter name ≡ slots env (memory env) e.rate_limiter name)
    × (all_slots env (memory env) p.1.rate_limiter ≡ all_slots env (memory env) e.rate_limiter)
safe_execute-Balanced_example =
    safe_execute-Balanced env (memory env) (executor panicking (some limiter)) job false false
      (pos 1) (pos 2) not_blocked

succeeding-Runnable :
    (now : ℤ) → pos 0 ≤ℤ now → Runnable (executor succeeding none) job succeeding now
unfolding resolve lookup is_overdue
succeeding-Runnable now h = record {
  going = refl;
  plain = refl;
  unlimited = refl;
  in_time = ground arith;
  ready = ground arith;
  handled = refl;
}

memory-Accepts : Accepts env (memory env) (memory_laws env)
unfolding update memory_laws
memory-Accepts s i h = ground arith

worker_completes_example :
    let p = worker env (memory env) (executor succeeding none) false (pos 1) (pos 2) in
    (p.0 ≡ finished)
    × ((memory_laws env).view p.1.storage "job"
        ≡ some ((memory_laws env).stored (completed_run job (pos 1) (pos 2))))
unfolding ran memory_laws
worker_completes_example =
    worker_completes env (memory env) (memory_laws env) (executor succeeding none) job [] succeeding
      (pos 1) (pos 2) (succeeding-Runnable (pos 1) (omega arith)) refl (refl, refl) memory-Accepts
      refl

cancelled_command_completes_example :
    let cancelled = cancel env (memory env) (executor succeeding none) "job" (pos 0) in
    let p = worker env (memory env) cancelled.1 false (pos 1) (pos 2) in
    (cancelled.0 ≡ none)
    × ((memory_laws env).view cancelled.1.storage "job"
        ≡ some (
            (memory_laws env).stored (record job {
              status = Status.cancelled;
              completed_at = some (pos 0);
              history = plain_event EventType.cancelled (pos 0) (pos 0) empty_text ∷ [];
            })))
    × (p.0 ≡ finished)
    × ((memory_laws env).view p.1.storage "job"
        ≡ some ((memory_laws env).stored (completed_run job (pos 1) (pos 2))))
unfolding ran
cancelled_command_completes_example =
    cancelled_command_completes env (memory env) (memory_laws env) (executor succeeding none) job
      job [] succeeding (pos 0) (pos 1) (pos 2) (succeeding-Runnable (pos 1) (omega arith)) refl
      (refl, refl) memory-Accepts refl refl refl

failing-Failing :
    Failing env
      (memory env)
      (memory_laws env)
      (executor failing none)
      job
      failing
      (lit "boom")
      (pos 1)
unfolding resolve lookup is_overdue
failing-Failing = record {
  runnable = record {
    going = refl;
    plain = refl;
    unlimited = refl;
    in_time = refl;
    ready = refl;
    handled = refl;
  };
  mode = refl;
  alone = refl;
  no_deadline = refl;
  no_backoff = λ attempt. refl;
  fails = λ j. refl;
  no_recover = refl;
}

retries-Exhausted_example :
    Exhausted env
      (memory env)
      (memory_laws env)
      (rounds env (memory env) (memory_laws env) 3 (executor failing none) (pos 1))
      "job"
      (lit "boom")
      false
      (pos 3)
unfolding lookup memory_laws
retries-Exhausted_example =
    retries-Exhausted env (memory env) (memory_laws env) 2 (executor failing none) job failing
      (lit "boom") (pos 1) 0 failing-Failing memory-Accepts refl refl refl (omega arith)

spawn_children-IsChild_example :
    All
      (IsChild env
        (memory env)
        (memory_laws env)
        (spawn_children env
          (memory env)
          (executor succeeding none)
          job
          (named "work" ∷ [])
          (pos 3)).1.storage
        job)
      (spawn_children env (memory env) (executor succeeding none) job (named "work" ∷ []) (pos 3)).0
spawn_children-IsChild_example =
    spawn_children-IsChild env (memory env) (memory_laws env) (executor succeeding none) job
      (named "work" ∷ []) (pos 3) refl ((refl, refl), tt)

-- `job` with no retries
abbrev once : Instance Value
once = record job { retries = pos 0 }

-- the only slot of `work` is taken, and the middleware waits from 1 to 2
unrun_completes_example :
    let r = (attempt limiter "work").1 in
    (rate_limit_middleware r (pos 1) true once (λ r'. (succeeding.execute once, r'))
      ≡ some (retry_later once, remove_waiter (attempt r "work").1 "work" 0))
    × ((memory_laws env).view
          (conclude env
            (memory env)
            (executor succeeding none)
            once
            (user succeeding)
            (retry_later once)
            (pos 1)
            (pos 2)).1.storage
          "job"
        ≡ some (
            (memory_laws env).stored (record once {
              status = Status.completed;
              completed_at = some (pos 2);
              history = plain_event EventType.completed (pos 2) (pos 0) empty_text ∷ [];
            })))
unfolding ran
unrun_completes_example =
    unrun_completes env (memory env) (memory_laws env) (executor succeeding none) once
      (user succeeding) (attempt limiter "work").1 (attempt (attempt limiter "work").1 "work").1
      "work" 0 (pos 1) (pos 1) (pos 2) (λ r'. (succeeding.execute once, r')) refl refl refl refl
      refl
