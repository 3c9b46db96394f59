-- ===== src/Executor/Worker/Settles.antt =====
-- One execution in queue mode: the command is settled when it ends, or its panic is recorded.
use durex.Prelude.{
  String, ◌&&◌, ◌==◌, if◌then◌else◌, ◌++◌, ◌∷◌, [], ℤ, ◌-ℤ◌, ◌≡◌, inl, inr, Bool, true, false,
  Option-cases, some, arith,
}
use durex.Text.{Text, timed_out, panicked}
use mathlib.Core.Path.{subst}
use durex.Status.{Status, is_terminal}
use durex.Instance.{Instance}
use durex.Registry.{resolve}
use durex.RateLimiter.{RateLimiter, Attempt, acquired, waits, attempt, remove_waiter}
use durex.Env.{Env}
use durex.Storage.{Storage, is_ok}
use durex.Storage.Laws.{StorageLaws}
use durex.Executor.{
  Executor, Command, Verdict, queueing, metric, command_started, command_failed, command_completed,
  error_handled,
}
use durex.Executor.Handlers.{finished, panic, update_then}
use durex.Executor.Handlers.Settles.{
  settled, settled-update, settled-rate_limiter, schedule_delayed-settled, handle_expired-settled,
  handle_error-settled, handle_result-settled,
}
use durex.Executor.Worker.{
  as_started, as_unresolved, as_panicked, release_slot, run_command, conclude, conclude_verdict,
  run_handler, start_handler, give_up_slot, limited, with_slot, execute, execute_with_middleware,
  recover_panic, safe_execute,
}

module _ (env : Env) (st : Storage env.Any) (laws : StorageLaws st) where
  open env use {Any}

  -- Whatever the storage holds, the handler and the middleware leave the command's id alone.
  abbrev pub KeepsId : Executor Any st.State → Command Any → Type 0
  KeepsId e handler =
      (s : st.State) (i : Instance Any)
      → (execute_with_middleware e.config.middleware (run_command env st s handler)
          i).instance_after.id
        ≡ i.id

  conclude_verdict-settled :
      (e : Executor Any st.State) (i : Instance Any) (handler : Command Any) (after : Instance Any)
      (v : Verdict Any) (now finish : ℤ)
      → e.schedule_fn ≡ queueing
      → e.stopping ≡ false
      → (conclude_verdict env st e i handler after v now finish).0 ≡ finished
      → settled env st laws (conclude_verdict env st e i handler after v now finish).1 after.id
        ≡ true
  conclude_verdict-settled e i handler after (Verdict.panicked t) now finish m s h = cc
  conclude_verdict-settled e i handler after (Verdict.failed t) now finish m s h =
      handle_error-settled env st laws (metric e (command_failed after.name t)) after handler t
        finish (ground arith) (ground arith) h
  conclude_verdict-settled e i handler after (Verdict.returned r) now finish m s h =
      let late = metric e (command_failed after.name (timed_out after.timeout)) in
      let in_time = metric e (command_completed after.name (finish -ℤ now)) in
      ground (
        arith,
        handle_error-settled env st laws late after handler (timed_out after.timeout) finish
            (ground arith) (ground arith),
        handle_result-settled env st laws in_time after r finish (ground arith) (ground arith),
      )

  run_handler-settled :
      (e : Executor Any st.State) (i : Instance Any) (handler : Command Any) (now finish : ℤ)
      → KeepsId e handler
      → e.schedule_fn ≡ queueing
      → e.stopping ≡ false
      → (run_handler env st e i handler now finish).0 ≡ finished
      → settled env st laws (run_handler env st e i handler now finish).1 i.id ≡ true
  unfolding run_handler conclude
  run_handler-settled e i handler now finish k m s h =
      let o =
        execute_with_middleware e.config.middleware (run_command env st e.storage handler) i in
      subst (λ id. settled env st laws (run_handler env st e i handler now finish).1 id ≡ true)
        (k e.storage i)
        (conclude_verdict-settled (metric e (command_started i.name)) i handler o.instance_after
          o.verdict now finish (ground arith) (ground arith) h)

  start_handler-settled :
      (e : Executor Any st.State) (i : Instance Any) (handler : Command Any) (now finish : ℤ)
      → KeepsId e handler
      → e.schedule_fn ≡ queueing
      → e.stopping ≡ false
      → (start_handler env st e i false handler now finish).0 ≡ finished
      → settled env st laws (start_handler env st e i false handler now finish).1 i.id ≡ true
  unfolding start_handler update_then as_started
  start_handler-settled e i handler now finish k m s h =
      let i' = as_started i now in
      ground (
        arith,
        run_handler-settled (record e { storage = (st.update e.storage i').1 }) i' handler now
            finish k m s,
      )

  limited-settled :
      (e : Executor Any st.State) (i : Instance Any) (handler : Command Any) (cancelled : Bool)
      (now finish : ℤ) (a : Attempt × RateLimiter)
      → KeepsId e handler
      → e.schedule_fn ≡ queueing
      → e.stopping ≡ false
      → (limited env st e i false handler cancelled now finish a).0 ≡ finished
      → settled env st laws (limited env st e i false handler cancelled now finish a).1 i.id ≡ true
  unfolding limited release_slot give_up_slot
  limited-settled e i handler cancelled now finish (acquired, r) k m s h =
      let (flow, e') =
        start_handler env st (record e { rate_limiter = some r }) i false handler now finish in
      settled-rate_limiter env st laws e' _ i.id
        (start_handler-settled (record e { rate_limiter = some r }) i handler now finish k m s h)
  limited-settled e i handler cancelled now finish (waits key ch, r) k m s h = ground (
    arith,
    schedule_delayed-settled env st laws (record e { rate_limiter = some (remove_waiter r key ch) })
        i now,
  )

  with_slot-settled :
      (e : Executor Any st.State) (i : Instance Any) (handler : Command Any) (cancelled : Bool)
      (now finish : ℤ)
      → KeepsId e handler
      → e.schedule_fn ≡ queueing
      → e.stopping ≡ false
      → (with_slot env st e i false handler cancelled now finish).0 ≡ finished
      → settled env st laws (with_slot env st e i false handler cancelled now finish).1 i.id ≡ true
  unfolding with_slot
  with_slot-settled e i handler cancelled now finish k m s h = elim (Option-cases e.rate_limiter) [
    | inl p ↦ ground (arith, start_handler-settled e i handler now finish k m s)
    | inr (r, p) ↦
        ground (arith, limited-settled e i handler cancelled now finish (attempt r i.name) k m s)
  ]

  -- Queue mode loses no command. If the executor is running, and the command's handler keeps the id, then
  -- after an execution that ends with no storage error and no panic and without blocking, the
  -- command is in a terminal state in the storage, or it waits in the queue or for a timer.
  pub execute-settled :
      (e : Executor Any st.State) (i : Instance Any) (cancelled : Bool) (now finish : ℤ)
      → ((handler : Command Any) → resolve e.registry i.name ≡ some handler → KeepsId e handler)
      → e.schedule_fn ≡ queueing
      → e.stopping ≡ false
      → (execute env st e i false cancelled now finish).0 ≡ finished
      → settled env st laws (execute env st e i false cancelled now finish).1 i.id ≡ true
  unfolding execute update_then as_unresolved is_terminal
  execute-settled e i cancelled now finish k m s h =
      elim (Option-cases (resolve e.registry i.name)) [
        | inl p ↦ ground (
          arith,
          handle_expired-settled env st laws e i now,
          schedule_delayed-settled env st laws e i now,
          settled-update env st laws e (as_unresolved i),
        )
        | inr (handler, p) ↦ ground (
          arith,
          handle_expired-settled env st laws e i now,
          schedule_delayed-settled env st laws e i now,
          with_slot-settled e i handler cancelled now finish (k handler p) m s,
        )
      ]

  -- If user code panics in an execution, safeExecute ends it all the same: unless the storage refuses
  -- the write, the command is stored as it was at the panic, but FAILED, with the panic as its error
  -- and the time as its completion; every other command is stored as before, and the error handler,
  -- if there is one, is told of that command and the panic.
  pub safe_execute-panic :
      (e : Executor Any st.State) (i j : Instance Any) (t : Text) (claimed cancelled : Bool)
      (now finish : ℤ)
      → (execute env st e i claimed cancelled now finish).0 ≡ panic j t
      → let e' = (execute env st e i claimed cancelled now finish).1 in
        let ended = safe_execute env st e i claimed cancelled now finish in
        let dead = record j {
          status = Status.failed;
          error = panicked t;
          completed_at = some finish;
        } in
        (ended.0 ≡ finished)
        × ((k : String)
            → laws.view ended.1.storage k ≡ (
                if is_ok (st.update e'.storage dead).0 && (j.id == k)
                then some (laws.stored dead)
                else laws.view e'.storage k))
        × (ended.1.observed ≡ (
            if e'.config.has_error_handler
            then e'.observed ++ error_handled dead (panicked t) ∷ []
            else e'.observed))
  unfolding safe_execute recover_panic as_panicked
  safe_execute-panic e i j t claimed cancelled now finish h =
      let e' = (execute env st e i claimed cancelled now finish).1 in
      (
        ground arith,
        λ k. ground (arith, laws.update_view e'.storage (as_panicked j t finish) k),
        ground arith,
      )
