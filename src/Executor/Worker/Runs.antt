-- ===== src/Executor/Worker/Runs.antt =====
-- One execution in queue mode of a user's handler that returns or fails: what the storage holds.
use durex.Prelude.{
  is_some, true, false, ℤ, pos, ◌-ℤ◌, ◌+ℤ◌, int64, ◌++◌, ltb_ℤ, ◌≡◌, refl, none, some, List, [],
  ◌∷◌, arith, eq_iff, eq_refl,
}
use durex.Status.{Status, is_terminal}
use durex.Event.{EventType, plain_event}
use durex.Text.{empty_text}
use durex.Result.{empty}
use durex.Instance.{Instance, is_overdue}
use durex.Registry.{resolve}
use durex.Env.{Env}
use durex.Storage.{is_ok, Storage, ok}
use durex.Storage.Laws.{StorageLaws}
use durex.Executor.{Executor, Handler, Verdict, user, metric, command_started, command_completed}
use durex.Executor.Api.{cancel, write, cancelled_at}
use durex.Executor.Handlers.{
  finished, update_then, handle_result, complete, spawn_children, continue_with, as_completed,
}
use durex.Executor.Worker.{
  as_started, exceeded, conclude, run_handler, start_handler, with_slot, execute, unwind,
  safe_execute, worker, execute_with_middleware,
}

-- The fields of a stored command that succeeded at `finish`: COMPLETED, with its times, one attempt
-- more, and the two events last in its history.
abbrev pub completed_run : {V : Type 0} → Instance V → ℤ → ℤ → Instance V
completed_run i now finish =
    let attempt = int64 (i.attempt +ℤ pos 1) in
    record i {
      status = Status.completed;
      started_at = some now;
      completed_at = some finish;
      attempt = attempt;
      history =
          (i.history ++ plain_event EventType.started now attempt empty_text ∷ [])
          ++ plain_event EventType.completed finish attempt empty_text ∷ [];
    }

module _ {V S : Type 0} where
  -- The command at the head of the queue may run at `now`: the executor is not stopping and has no
  -- middleware and no rate limiter, the command is ready and not overdue, and has a user's handler.
  pub record Runnable (e : Executor V S) (i : Instance V) (h : Handler V) (now : ℤ) : Type 0 where
    pub going : e.stopping ≡ false
    pub plain : e.config.middleware ≡ []
    pub unlimited : e.rate_limiter ≡ none
    pub in_time : is_overdue i now ≡ false
    pub ready : ltb_ℤ now i.ready_at ≡ false
    pub handled : resolve e.registry i.name ≡ some (user h)

module _ (env : Env) (st : Storage env.Any) where
  open env use {Any}

  -- such an execution is the start, the handler, and what follows its verdict
  pub worker-start_handler :
      (e : Executor Any st.State) (i : Instance Any) (rest : List (Instance Any)) (h : Handler Any)
      (now finish : ℤ)
      → Runnable e i h now
      → e.queue ≡ i ∷ rest
      → worker env st e false now finish
        ≡ unwind env st
            (start_handler env st (record e { queue = rest }) i false (user h) now finish)
            finish
  unfolding worker safe_execute execute with_slot
  worker-start_handler e i rest h now finish r q = ground arith

  handle_result-empty :
      (e : Executor Any st.State) (i : Instance Any) (now : ℤ)
      → handle_result env st e i empty now
        ≡ update_then env st e (as_completed i now) (λ e'. (finished, e'))
  unfolding handle_result complete spawn_children continue_with
  handle_result-empty e i now = refl

  -- the handler returns an empty result in time and leaves the instance as it is
  abbrev pub Succeeds : Handler Any → Instance Any → ℤ → ℤ → Type 0
  Succeeds h i now finish =
      (h.execute (as_started i now)
        ≡ record { instance_after = as_started i now; verdict = Verdict.returned empty })
      × (exceeded (as_started i now) now finish ≡ false)

  run_handler-empty :
      (e : Executor Any st.State) (i : Instance Any) (h : Handler Any) (now finish : ℤ)
      → e.config.middleware ≡ []
      → Succeeds h i now finish
      → run_handler env st e (as_started i now) (user h) now finish
        ≡ update_then env st
            (metric
              (metric e (command_started (as_started i now).name))
              (command_completed (as_started i now).name (finish -ℤ now)))
            (as_completed (as_started i now) finish)
            (λ e'. (finished, e'))
  unfolding run_handler conclude execute_with_middleware
  run_handler-empty e i h now finish p s =
      let i' = as_started i now in
      ground (
        arith,
        handle_result-empty
            (metric (metric e (command_started i'.name))
              (command_completed i'.name (finish -ℤ now)))
            i' finish,
      )

  module _ (laws : StorageLaws st) where
    -- the storage accepts a write of a command that it holds
    abbrev pub Accepts : Type 0
    Accepts =
        (s : st.State) (i : Instance Any)
        → is_some (laws.view s i.id) ≡ true
        → is_ok (st.update s i).0 ≡ true

    -- A ready command at the head of the queue, with a handler that returns an empty result in time
    -- and leaves the instance as it is, is stored as COMPLETED by one round of the worker: what is
    -- stored is the queued instance after its start and its completion, whatever status the storage
    -- had for it. The executor is running, without middleware and rate limiter, and the storage
    -- holds the command and accepts writes of commands that it holds.
    pub worker_completes :
        (e : Executor Any st.State) (i : Instance Any) (rest : List (Instance Any))
        (h : Handler Any) (now finish : ℤ)
        → Runnable e i h now
        → e.queue ≡ i ∷ rest
        → Succeeds h i now finish
        → Accepts
        → is_some (laws.view e.storage i.id) ≡ true
        → ((worker env st e false now finish).0 ≡ finished)
          × (laws.view (worker env st e false now finish).1.storage i.id
              ≡ some (laws.stored (completed_run i now finish)))
    unfolding start_handler update_then as_completed as_started
    worker_completes e i rest h now finish r q s acc v =
        let e₀ = record e { queue = rest } in
        let e₁ = record e₀ { storage = (st.update e₀.storage (as_started i now)).1 } in
        let i' = as_started i now in
        let e₂ =
          metric (metric e₁ (command_started i'.name))
            (command_completed i'.name (finish -ℤ now)) in
        let started = acc e.storage i' v in
        let known : is_some (laws.view (st.update e.storage i').1 i.id) ≡ true =
          ground (arith, eq_refl i.id, started, laws.update_view e.storage i' i.id) in
        let completed = acc e₂.storage (as_completed i' finish) (ground (arith, known)) in
        ground (
          arith,
          eq_refl i.id,
          started,
          completed,
          worker-start_handler e i rest h now finish r q,
          run_handler-empty e₁ i h now finish r.plain s,
          laws.update_view e₂.storage (as_completed i' finish) i.id,
        )

    -- Cancel does not stop a command that already stands in the queue: Cancel succeeds and the
    -- storage holds the command as CANCELLED, and then a round of the worker runs its handler all
    -- the same and stores the command as COMPLETED. The command is ready, with a handler that
    -- returns an empty result in time and leaves the instance as it is; the executor is running,
    -- without middleware and rate limiter; the storage reads the command under its id, not
    -- terminal, and accepts writes of commands that it holds.
    pub cancelled_command_completes :
        (e : Executor Any st.State) (i c : Instance Any) (rest : List (Instance Any))
        (h : Handler Any) (at now finish : ℤ)
        → Runnable e i h now
        → e.queue ≡ i ∷ rest
        → Succeeds h i now finish
        → Accepts
        → st.get e.storage i.id ≡ ok c
        → c.id ≡ i.id
        → is_terminal c.status ≡ false
        → ((cancel env st e i.id at).0 ≡ none)
          × (laws.view (cancel env st e i.id at).1.storage i.id
              ≡ some (
                  laws.stored (record c {
                    status = Status.cancelled;
                    completed_at = some at;
                    history =
                        c.history ++ plain_event EventType.cancelled at c.attempt empty_text ∷ [];
                  })))
          × ((worker env st (cancel env st e i.id at).1 false now finish).0 ≡ finished)
          × (laws.view (worker env st (cancel env st e i.id at).1 false now finish).1.storage i.id
              ≡ some (laws.stored (completed_run i now finish)))
    unfolding cancel write cancelled_at as_completed as_started
    cancelled_command_completes e i c rest h at now finish r q s acc g same_id active =
        (ground (arith, accepted), held, ran.0, ran.1)
      where
        accepted : is_ok (st.update e.storage (cancelled_at c at empty_text)).0 ≡ true
        accepted =
            acc e.storage (cancelled_at c at empty_text)
              (ground (arith, laws.get_view e.storage i.id c g))

        held :
            laws.view (cancel env st e i.id at).1.storage i.id
            ≡ some (laws.stored (cancelled_at c at empty_text))
        held = ground (
          arith,
          accepted,
          eq_iff c.id i.id,
          laws.update_view e.storage (cancelled_at c at empty_text) i.id,
        )

        runnable : Runnable (cancel env st e i.id at).1 i h now
        runnable = record {
          going = ground arith;
          plain = ground arith;
          unlimited = ground arith;
          in_time = r.in_time;
          ready = r.ready;
          handled = ground arith;
        }

        ran :
            ((worker env st (cancel env st e i.id at).1 false now finish).0 ≡ finished)
            × (laws.view (worker env st (cancel env st e i.id at).1 false now finish).1.storage i.id
                ≡ some (laws.stored (completed_run i now finish)))
        ran =
            worker_completes (cancel env st e i.id at).1 i rest h now finish runnable (ground arith)
              s acc (ground (arith, held))
