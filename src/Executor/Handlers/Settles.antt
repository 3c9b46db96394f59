-- ===== src/Executor/Handlers/Settles.antt =====
-- In queue mode no command is lost: after a step of the executor that reports no error, the command
-- is terminal in the storage, or it waits in the queue or for a timer.
use durex.Prelude.{
  ℕ, suc, ℤ, String, ◌≡◌, ap, Bool, true, false, ◌||◌, Option, none, some, List, [], ◌∷◌, ◌++◌,
  lookup-insert, arith, eq_iff, eq_refl,
}
use durex.Text.{Text}
use durex.Status.{is_terminal}
use durex.Spec.{Spec}
use durex.Result.{Result}
use durex.Instance.{Instance}
use durex.RateLimiter.{RateLimiter}
use durex.Env.{Env}
use durex.Storage.{Storage, is_ok}
use durex.Storage.Laws.{StorageLaws}
use durex.Executor.{
  Executor, Command, Outcome, Verdict, Observed, queueing, metric, handle_error_call,
  command_retried, error_handled,
}
use durex.Registry.{resolve}
use durex.Executor.Create.{create_instance, new_instance, with_defaults}
use durex.Executor.Schedule.{schedule, schedule_delayed, timer_for}
use durex.Executor.Api.{add, add_all, persist}
use durex.Executor.Handlers.{
  finished, update_then, handle_result, handle_error, handle_expired, complete, spawn_children,
  continue_with, follow_up, follow_verdict, expired_of, recover_of, as_repeating, as_retrying,
  as_completed, as_backing_off, as_failed, as_expired,
}
use durex.Executor.Schedule.Waiting.{
  waiting, waiting-schedule, waiting-schedule_mono, storage-schedule,
}

abbrev pub ended : {V : Type 0} → Option (Instance V) → Bool
ended none = false
ended (some c) = is_terminal c.status

module _ (env : Env) (st : Storage env.Any) (laws : StorageLaws st) where
  open env use {Any}
  open laws use {view, stored, stored_rest, create_view, create_fresh, update_view}

  -- terminal in the storage, or waiting in the queue or for a timer
  pub settled : Executor Any st.State → String → Bool
  unfolding waiting
  settled e id = waiting e id || ended (view e.storage id)

  ended-create :
      (s : st.State) (i : Instance Any) (id : String)
      → ended (view s id) ≡ true
      → ended (view (st.create s i).1 id) ≡ true
  ended-create s i id h = ground (arith, create_view s i id, create_fresh s i, eq_iff i.id id)

  settled-schedule :
      (e : Executor Any st.State) (i : Instance Any) (now : ℤ) (id : String)
      → settled e id ≡ true
      → settled (schedule e i now) id ≡ true
  unfolding settled
  settled-schedule e i now id h =
      ground (arith, waiting-schedule_mono e i now id, storage-schedule e i now)

  -- a new storage in which the command is as it was, or is terminal
  settled-storage :
      (e : Executor Any st.State) (s : st.State) (id : String)
      → (ended (view e.storage id) ≡ true → ended (view s id) ≡ true)
      → settled e id ≡ true
      → settled (record e { storage = s }) id ≡ true
  unfolding settled waiting
  settled-storage e s id k h = ground arith

  settled-persist :
      (e : Executor Any st.State) (i : Instance Any) (now : ℤ) (id : String)
      → settled e id ≡ true
      → settled (persist env st e i now).1 id ≡ true
  unfolding persist
  settled-persist e i now id h =
      let kept = settled-storage e (st.create e.storage i).1 id (ended-create e.storage i id) h in
      ground
        (arith, kept, settled-schedule (record e { storage = (st.create e.storage i).1 }) i now id)

  pub settled-rate_limiter :
      (e : Executor Any st.State) (r : Option RateLimiter) (id : String)
      → settled e id ≡ true
      → settled (record e { rate_limiter = r }) id ≡ true
  unfolding settled waiting
  settled-rate_limiter e r id h = h

  pub schedule_delayed-settled :
      (e : Executor Any st.State) (i : Instance Any) (now : ℤ)
      → settled (schedule_delayed e i now) i.id ≡ true
  unfolding settled waiting schedule_delayed
  schedule_delayed-settled e i now =
      ground (arith, eq_refl i.id, lookup-insert i.id i.id (timer_for e i now) e.delayed_timers)

  settled-generated :
      (e : Executor Any st.State) (n : ℕ) (id : String)
      → settled e id ≡ true
      → settled (record e { generated = n }) id ≡ true
  unfolding settled waiting
  settled-generated e n id h = h

  pub settled-observed :
      (e : Executor Any st.State) (o : List (Observed Any)) (id : String)
      → settled e id ≡ true
      → settled (record e { observed = o }) id ≡ true
  unfolding settled waiting
  settled-observed e o id h = h

  settled-add :
      (e : Executor Any st.State) (spec : Spec Any) (now : ℤ) (id : String)
      → settled e id ≡ true
      → settled (add env st e spec now).1 id ≡ true
  unfolding add create_instance
  settled-add e spec now id h = ground (
    arith,
    settled-generated e (suc e.generated) id h,
    settled-persist (record e { generated = suc e.generated })
        (new_instance e (with_defaults e spec) (env.generated e.generated) now) now id,
  )

  settled-add_all :
      (e : Executor Any st.State) (specs : List (Spec Any)) (now : ℤ) (id : String)
      → settled e id ≡ true
      → settled (add_all env st e specs now) id ≡ true
  unfolding add_all
  settled-add_all e [] now id h = h
  settled-add_all e (spec ∷ specs) now id h =
      settled-add_all (add env st e spec now).1 specs now id (settled-add e spec now id h)

  settled-follow_verdict :
      (e : Executor Any st.State) (i : Instance Any) (v : Verdict Any) (now : ℤ) (id : String)
      → settled e id ≡ true
      → settled (follow_verdict env st e i v now).1 id ≡ true
  settled-follow_verdict e i (Verdict.returned r) now id h = settled-add_all e r.commands now id h
  settled-follow_verdict e i (Verdict.failed t) now id h = h
  settled-follow_verdict e i (Verdict.panicked t) now id h = h

  settled-follow_up :
      (e : Executor Any st.State) (o : Option (Outcome Any)) (now : ℤ) (id : String)
      → settled e id ≡ true
      → settled (follow_up env st e o now).1 id ≡ true
  unfolding follow_up
  settled-follow_up e none now id h = h
  settled-follow_up e (some o) now id h =
      settled-follow_verdict e o.instance_after o.verdict now id h

  -- a write of a terminal status that the storage accepts
  pub settled-update :
      (e : Executor Any st.State) (i : Instance Any)
      → is_ok (st.update e.storage i).0 ≡ true
      → is_terminal i.status ≡ true
      → settled (record e { storage = (st.update e.storage i).1 }) i.id ≡ true
  unfolding settled
  settled-update e i a h = ground (
    arith,
    eq_refl i.id,
    update_view e.storage i i.id,
    ap (λ (x : Instance Any). x.status) (stored_rest i),
  )

  -- a command that has been scheduled in queue mode
  pub scheduled-settled :
      (e : Executor Any st.State) (i : Instance Any) (now : ℤ)
      → e.schedule_fn ≡ queueing
      → e.stopping ≡ false
      → settled (schedule e i now) i.id ≡ true
  unfolding settled
  scheduled-settled e i now m s = ground (arith, waiting-schedule e i now m s)

  pub handle_expired-settled :
      (e : Executor Any st.State) (i : Instance Any) (now : ℤ)
      → (handle_expired env st e i now).0 ≡ finished
      → settled (handle_expired env st e i now).1 i.id ≡ true
  unfolding handle_expired update_then as_expired is_terminal
  handle_expired-settled e i now h =
      let i' = as_expired i now in
      let e' = record e { storage = (st.update e.storage i').1 } in
      ground (
        arith,
        settled-update e i',
        settled-follow_up e' (expired_of env st (resolve e'.registry i.name) i') now i.id,
      )

  pub handle_error-settled :
      (e : Executor Any st.State) (i : Instance Any) (handler : Command Any) (t : Text) (now : ℤ)
      → e.schedule_fn ≡ queueing
      → e.stopping ≡ false
      → (handle_error env st e i handler t now).0 ≡ finished
      → settled (handle_error env st e i handler t now).1 i.id ≡ true
  unfolding handle_error update_then as_failed as_backing_off is_terminal
  handle_error-settled e i handler t now m s h =
      let retried = as_backing_off e.config i t now in
      let failed = as_failed e.config i t now in
      let e₁ = metric e (command_retried i.name i.attempt) in
      let e₂ = handle_error_call (record e { storage = (st.update e.storage failed).1 }) failed t in
      ground (
        arith,
        scheduled-settled (record e₁ { storage = (st.update e₁.storage retried).1 }) retried now,
        settled-update e failed,
        settled-observed (record e { storage = (st.update e.storage failed).1 })
            ((record e { storage = (st.update e.storage failed).1 }).observed
              ++ error_handled failed t ∷ [])
            i.id,
        settled-follow_up e₂ (recover_of env st handler failed t) now i.id,
      )

  pub complete-settled :
      (e : Executor Any st.State) (i : Instance Any) (result : Result Any) (now : ℤ)
      → (complete env st e i result now).0 ≡ finished
      → settled (complete env st e i result now).1 i.id ≡ true
  unfolding complete update_then as_completed is_terminal
  complete-settled e i result now h =
      let (child_ids, e') = spawn_children env st e i result.commands now in
      ground (
        arith,
        settled-update (continue_with env st e' i result.continuation child_ids now)
            (as_completed i now),
      )

  pub handle_result-settled :
      (e : Executor Any st.State) (i : Instance Any) (result : Result Any) (now : ℤ)
      → e.schedule_fn ≡ queueing
      → e.stopping ≡ false
      → (handle_result env st e i result now).0 ≡ finished
      → settled (handle_result env st e i result now).1 i.id ≡ true
  unfolding handle_result update_then as_repeating as_retrying
  handle_result-settled e i result now m s h =
      let repeated = as_repeating env e.config i now in
      let retried = as_retrying i now in
      let e₁ = metric e (command_retried i.name i.attempt) in
      ground (
        arith,
        scheduled-settled (record e { storage = (st.update e.storage repeated).1 }) repeated now,
        scheduled-settled (record e₁ { storage = (st.update e₁.storage retried).1 }) retried now,
        complete-settled e i result now,
      )
