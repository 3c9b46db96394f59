-- ===== src/Executor/Worker.antt =====
-- executor_worker.go: one execution of a command, with panic recovery, and the rounds of the
-- workers. `now` is the clock at the start and `finish` after the handler. `cancelled` says that
-- the executor's context ends while the command waits for a slot.
pub mod Settles
pub mod Runs
pub mod Retries
pub mod Slots
use durex.Prelude.{
  ℤ, pos, ltb_ℤ, ◌+ℤ◌, ◌-ℤ◌, int64, String, Bool, true, false, not, ◌&&◌, none, some, List, [], ◌∷◌,
  if◌then◌else◌,
}
use durex.Text.{Text, empty_text, no_handler, timed_out, panicked}
use durex.Status.{Status}
use durex.Event.{EventType}
use durex.Instance.{Instance, record_event, is_overdue}
use durex.Registry.{resolve}
use durex.RateLimiter.{RateLimiter, Attempt, acquired, waits, attempt, release, remove_waiter}
use durex.Storage.{Storage, ok, err}
use durex.Env.{Env}
use durex.Executor.{
  Executor, Command, Outcome, Verdict, Middleware, user, barrier, metric, handle_error_call,
  command_started, command_completed, command_failed,
}
use durex.Executor.Schedule.{schedule_delayed}
use durex.Executor.Barrier.{barrier_execute}
use durex.Executor.Handlers.{
  Flow, finished, panic, blocked, update_then, handle_result, handle_error, handle_expired,
}

module _ {V : Type 0} where
  -- the first middleware is the outermost
  unfoldable pub execute_with_middleware :
      List (Middleware V) → (Instance V → Outcome V) → Instance V → Outcome V
  execute_with_middleware [] handler = handler
  execute_with_middleware (mw ∷ rest) handler = mw (execute_with_middleware rest handler)

  unfoldable pub as_started : Instance V → ℤ → Instance V
  unfolding record_event
  as_started i now =
      record_event
        (record i {
          status = Status.started;
          started_at = some now;
          attempt = int64 (i.attempt +ℤ pos 1);
        })
        EventType.started now empty_text

  -- the context of the execution has passed its timeout
  unfoldable pub exceeded : Instance V → ℤ → ℤ → Bool
  exceeded i now finish = ltb_ℤ (pos 0) i.timeout && not (ltb_ℤ finish (now +ℤ i.timeout))

  unfoldable pub as_unresolved : Instance V → Instance V
  as_unresolved i = record i { status = Status.failed; error = no_handler i.name }

  unfoldable pub as_panicked : Instance V → Text → ℤ → Instance V
  as_panicked i t now = record i {
    status = Status.failed;
    error = panicked t;
    completed_at = some now;
  }

module _ {V S : Type 0} where
  -- the deferred call of the release function
  unfoldable pub release_slot : Flow V × Executor V S → String → Flow V × Executor V S
  release_slot (flow, e) name = (
    flow,
    record e {
      rate_limiter = elim e.rate_limiter [ none ↦ none | some r ↦ some (release r name) ];
    },
  )

module _ (env : Env) (st : Storage env.Any) where
  open env use {Any}

  abbrev run_command : st.State → Command Any → Instance Any → Outcome Any
  run_command s (user h) i = h.execute i
  run_command s barrier i = barrier_execute env st s i

  -- the handler's result, turned into an error if the timeout has passed
  abbrev conclude_verdict :
      Executor Any st.State
      → Instance Any
      → Command Any
      → Instance Any
      → Verdict Any
      → ℤ
      → ℤ
      → Flow Any × Executor Any st.State
  conclude_verdict e i handler after (Verdict.panicked t) now finish = (panic after t, e)
  conclude_verdict e i handler after (Verdict.failed t) now finish =
      handle_error env st (metric e (command_failed after.name t)) after handler t finish
  conclude_verdict e i handler after (Verdict.returned r) now finish =
      if exceeded i now finish
      then handle_error env st (metric e (command_failed after.name (timed_out after.timeout)))
          after handler (timed_out after.timeout) finish
      else handle_result env st (metric e (command_completed after.name (finish -ℤ now))) after r
          finish

  unfoldable pub conclude :
      Executor Any st.State
      → Instance Any
      → Command Any
      → Outcome Any
      → ℤ
      → ℤ
      → Flow Any × Executor Any st.State
  conclude e i handler o now finish =
      conclude_verdict e i handler o.instance_after o.verdict now finish

  unfoldable pub run_handler :
      Executor Any st.State → Instance Any → Command Any → ℤ → ℤ → Flow Any × Executor Any st.State
  run_handler e i handler now finish =
      conclude (metric e (command_started i.name)) i handler
        (execute_with_middleware e.config.middleware (run_command e.storage handler) i) now finish

  -- queue mode marks the command as started; ClaimPending has done so in polling mode
  unfoldable pub start_handler :
      Executor Any st.State
      → Instance Any
      → Bool
      → Command Any
      → ℤ
      → ℤ
      → Flow Any × Executor Any st.State
  start_handler e i true handler now finish = run_handler e i handler now finish
  start_handler e i false handler now finish =
      update_then env st e (as_started i now)
        (λ e'. run_handler e' (as_started i now) handler now finish)

  -- a wait for a slot that the end of the context cuts short
  unfoldable pub give_up_slot :
      Executor Any st.State → Instance Any → Bool → ℤ → Flow Any × Executor Any st.State
  give_up_slot e i true now =
      update_then env st e (record i { status = Status.pending }) (λ e'. (finished, e'))
  give_up_slot e i false now = (finished, schedule_delayed e i now)

  limited :
      Executor Any st.State
      → Instance Any
      → Bool
      → Command Any
      → Bool
      → ℤ
      → ℤ
      → Attempt × RateLimiter
      → Flow Any × Executor Any st.State
  limited e i claimed handler cancelled now finish (acquired, r) =
      release_slot (start_handler (record e { rate_limiter = some r }) i claimed handler now finish)
        i.name
  limited e i claimed handler cancelled now finish (waits key ch, r) =
      if cancelled
      then give_up_slot (record e { rate_limiter = some (remove_waiter r key ch) }) i claimed now
      else (blocked, record e { rate_limiter = some r })

  unfoldable pub with_slot :
      Executor Any st.State
      → Instance Any
      → Bool
      → Command Any
      → Bool
      → ℤ
      → ℤ
      → Flow Any × Executor Any st.State
  unfolding limited
  with_slot e i claimed handler cancelled now finish = elim e.rate_limiter [
    | none ↦ start_handler e i claimed handler now finish
    | some r ↦ limited e i claimed handler cancelled now finish (attempt r i.name)
  ]

  unfoldable pub execute :
      Executor Any st.State → Instance Any → Bool → Bool → ℤ → ℤ → Flow Any × Executor Any st.State
  execute e i claimed cancelled now finish =
      if e.stopping
      then (finished, e)
      else if is_overdue i now
      then handle_expired env st e i now
      else if not claimed && ltb_ℤ now i.ready_at
      then (finished, schedule_delayed e i now)
      else elim (resolve e.registry i.name) [
        | none ↦ update_then env st e (as_unresolved i) (λ e'. (finished, e'))
        | some handler ↦ with_slot e i claimed handler cancelled now finish
      ]

  -- the deferred recover() of safeExecute; a failing update is only logged
  unfoldable pub recover_panic :
      Executor Any st.State → Instance Any → Text → ℤ → Executor Any st.State
  recover_panic e i t now =
      let (reply, s) = st.update e.storage (as_panicked i t now) in
      handle_error_call (record e { storage = s }) (as_panicked i t now) (panicked t)

  abbrev unwind : Flow Any × Executor Any st.State → ℤ → Flow Any × Executor Any st.State
  unwind (panic i t, e) now = (finished, recover_panic e i t now)
  unwind (flow, e) now = (flow, e)

  unfoldable pub safe_execute :
      Executor Any st.State → Instance Any → Bool → Bool → ℤ → ℤ → Flow Any × Executor Any st.State
  safe_execute e i claimed cancelled now finish =
      unwind (execute e i claimed cancelled now finish) finish

  -- one round of a worker's loop in queue mode: nothing to do, or the command at the head
  unfoldable pub worker : Executor Any st.State → Bool → ℤ → ℤ → Flow Any × Executor Any st.State
  worker e cancelled now finish = elim e.queue [
    | [] ↦ (finished, e)
    | i ∷ rest ↦ safe_execute (record e { queue = rest }) i false cancelled now finish
  ]

  unfoldable pub execute_each :
      Executor Any st.State → List (Instance Any) → ℤ → ℤ → Executor Any st.State
  execute_each e [] now finish = e
  execute_each e (i ∷ is) now finish =
      if e.stopping
      then e
      else execute_each (safe_execute e i true false now finish).1 is now finish

  -- one tick of a polling worker; with no ClaimPending there are no polling workers
  unfoldable pub claim_and_execute : Executor Any st.State → ℤ → ℤ → Executor Any st.State
  claim_and_execute e now finish = elim st.claim_pending [
    | none ↦ e
    | some claim ↦
        if e.stopping
        then e
        else (let (reply, s) = claim e.storage now e.config.claim_batch_size in
            elim reply [
              | err x ↦ record e { storage = s }
              | ok commands ↦ execute_each (record e { storage = s }) commands now finish
            ])
  ]
