-- ===== src/Executor/Worker/Retries.antt =====
-- A command whose handler always fails uses up its retries and then ends.
use durex.Prelude.{
  ℕ, zero, suc, ◌+◌, ◌<◌, ℤ, pos, ◌+ℤ◌, ◌-ℤ◌, ◌<ℤ◌, String, ◌≡◌, ap, Bool, true, false, none, some,
  is_some, [], ◌∷◌, arith, eq_refl,
}
use mathlib.Core.Path.{subst}
use native.Mathlib.Nat.{add-zero}
use durex.Text.{Text}
use durex.Status.{Status}
use durex.Instance.{Instance, is_overdue}
use durex.Env.{Env}
use durex.Storage.{Storage, is_ok}
use durex.Storage.Laws.{StorageLaws}
use durex.Executor.{
  Config, Executor, Handler, Verdict, user, metric, command_started, command_failed,
  command_retried, queueing,
}
use durex.Executor.Schedule.{schedule}
use durex.Executor.Handlers.{update_then, handle_error, as_backing_off, as_failed, follow_up}
use durex.Executor.Worker.{
  as_started, conclude, run_handler, start_handler, unwind, worker, execute_with_middleware,
}
use durex.Executor.Worker.Runs.{Accepts, Runnable, worker-start_handler}

module _ (env : Env) (st : Storage env.Any) (laws : StorageLaws st) where
  open env use {Any}

  -- A running executor in queue mode with nothing else queued, no backoff, and a command with no
  -- deadline whose handler fails with `t`, changes nothing, and has no Recover.
  pub record Failing (e : Executor Any st.State) (i : Instance Any) (h : Handler Any) (t : Text)
      (now : ℤ) : Type 0 where
    pub runnable : Runnable e i h now
    pub mode : e.schedule_fn ≡ queueing
    pub alone : e.queue ≡ i ∷ []
    pub no_deadline : i.deadline_at ≡ none
    pub no_backoff : (attempt : ℤ) → e.config.backoff attempt ≡ pos 0
    pub fails :
        (j : Instance Any) → h.execute j ≡ record { instance_after = j; verdict = Verdict.failed t }
    pub no_recover : h.recover ≡ none

  run_handler-fails :
      (e : Executor Any st.State) (i : Instance Any) (h : Handler Any) (t : Text) (now : ℤ)
      → e.config.middleware ≡ []
      → h.execute i ≡ record { instance_after = i; verdict = Verdict.failed t }
      → run_handler env st e i (user h) now now
        ≡ handle_error env st
            (metric (metric e (command_started i.name)) (command_failed i.name t))
            i
            (user h)
            t
            now
  unfolding run_handler conclude execute_with_middleware
  run_handler-fails e i h t now p f = ground arith

  abbrev pub step : Executor Any st.State → ℤ → Executor Any st.State
  step e now = (worker env st e false now now).1

  abbrev next_try : Executor Any st.State → Instance Any → Text → ℤ → Instance Any
  next_try e i t now = as_backing_off e.config (as_started i now) t now

  held-update :
      (s : st.State) (i : Instance Any) (id : String)
      → is_some (laws.view s id) ≡ true
      → is_some (laws.view (st.update s i).1 id) ≡ true
  held-update s i id h = ground (arith, laws.update_view s i id)

  -- the executor when the failing handler has returned
  abbrev after_run : Executor Any st.State → Instance Any → Text → ℤ → Executor Any st.State
  after_run e i t now =
      let i' = as_started i now in
      metric
        (metric (record e { queue = []; storage = (st.update e.storage i').1 })
          (command_started i'.name))
        (command_failed i'.name t)

  -- one round of the worker is the start, and handleError on the started command
  step-handle_error :
      (e : Executor Any st.State) (i : Instance Any) (h : Handler Any) (t : Text) (now : ℤ)
      → Failing e i h t now
      → is_ok (st.update e.storage (as_started i now)).0 ≡ true
      → worker env st e false now now
        ≡ unwind env st
            (handle_error env st (after_run e i t now) (as_started i now) (user h) t now)
            now
  unfolding start_handler update_then
  step-handle_error e i h t now f a =
      let e₁ = record e { queue = []; storage = (st.update e.storage (as_started i now)).1 } in
      ground (
        arith,
        worker-start_handler env st e i [] h now now f.runnable f.alone,
        run_handler-fails e₁ (as_started i now) h t now f.runnable.plain
            (f.fails (as_started i now)),
      )

  -- with retries left, the next try is stored and scheduled
  step-retry :
      (e : Executor Any st.State) (i : Instance Any) (h : Handler Any) (t : Text) (now : ℤ)
      → Failing e i h t now
      → Accepts env st laws
      → is_some (laws.view e.storage i.id) ≡ true
      → pos 0 <ℤ i.retries
      → let e' = metric (after_run e i t now) (command_retried i.name (as_started i now).attempt) in
        step e now
        ≡ schedule
            (record e' { storage = (st.update e'.storage (next_try e i t now)).1 })
            (next_try e i t now)
            now
  unfolding handle_error update_then as_started as_backing_off
  step-retry e i h t now f a v r = ground (
    arith,
    step-handle_error e i h t now f (a e.storage (as_started i now) v),
    a (st.update e.storage (as_started i now)).1 (next_try e i t now)
        (held-update e.storage (as_started i now) i.id v),
  )

  retry_round :
      (e : Executor Any st.State) (i : Instance Any) (h : Handler Any) (t : Text) (now : ℤ) (n : ℕ)
      → Failing e i h t now
      → Accepts env st laws
      → is_some (laws.view e.storage i.id) ≡ true
      → i.retries ≡ pos (suc n)
      → Failing (step e now) (next_try e i t now) h t now
        × ((next_try e i t now).retries ≡ pos n)
        × (is_some (laws.view (step e now).storage i.id) ≡ true)
        × ((step e now).config ≡ e.config)
  unfolding schedule as_started as_backing_off is_overdue ◌-ℤ◌ ◌+ℤ◌
  retry_round e i h t now n f a v r =
      let p = step-retry e i h t now f a v (ground arith) in
      rw p (
        record {
          runnable = record {
            going = ground (arith, f.no_backoff (as_started i now).attempt);
            plain = ground (arith, f.no_backoff (as_started i now).attempt);
            unlimited = ground (arith, f.no_backoff (as_started i now).attempt);
            in_time = ground arith;
            ready = ground (arith, f.no_backoff (as_started i now).attempt);
            handled = ground (arith, f.no_backoff (as_started i now).attempt);
          };
          mode = ground (arith, f.no_backoff (as_started i now).attempt);
          alone = ground (arith, f.no_backoff (as_started i now).attempt);
          no_deadline = f.no_deadline;
          no_backoff = λ k. ground (arith, f.no_backoff (as_started i now).attempt, f.no_backoff k);
          fails = f.fails;
          no_recover = f.no_recover;
        },
        ground (arith, f.no_backoff (as_started i now).attempt),
        ground (
          arith,
          f.no_backoff (as_started i now).attempt,
          held-update e.storage (as_started i now) i.id v,
          held-update (st.update e.storage (as_started i now)).1 (next_try e i t now) i.id,
        ),
        ground (arith, f.no_backoff (as_started i now).attempt),
      )

  last_round :
      (e : Executor Any st.State) (i : Instance Any) (h : Handler Any) (t : Text) (now : ℤ)
      → Failing e i h t now
      → Accepts env st laws
      → is_some (laws.view e.storage i.id) ≡ true
      → i.retries ≡ pos 0
      → ((step e now).queue ≡ [])
        × (laws.view (step e now).storage i.id
            ≡ some (laws.stored (as_failed e.config (as_started i now) t now)))
  unfolding handle_error update_then follow_up as_started as_failed
  last_round e i h t now f a v r =
      let i' = as_started i now in
      let last = as_failed e.config i' t now in
      let s = (st.update e.storage i').1 in
      let eq = step-handle_error e i h t now f (a e.storage i' v) in
      let ok_last = a s last (ground (arith, held-update e.storage i' i.id v)) in
      (
        ground (arith, eq, ok_last, f.no_recover),
        ground (arith, eq, ok_last, f.no_recover, eq_refl i.id, laws.update_view s last i.id),
      )

  pub rounds : ℕ → Executor Any st.State → ℤ → Executor Any st.State
  rounds zero e now = e
  rounds (suc n) e now = rounds n (step e now) now

  -- the status of a command that failed for good
  abbrev pub final_status : Bool → Status
  final_status true = Status.dead_letter
  final_status false = Status.failed

  abbrev pub Exhausted : Executor Any st.State → String → Text → Bool → ℤ → Type 0
  Exhausted e id t dead_letter_enabled attempt =
      (e.queue ≡ [])
      × ((c : Instance Any) × (laws.view e.storage id ≡ some c)
          × (c.status ≡ final_status dead_letter_enabled)
          × (c.attempt ≡ attempt)
          × (c.retries ≡ pos 0)
          × (c.error ≡ t))

  Exhausted-at_last :
      (e : Executor Any st.State) (i : Instance Any) (h : Handler Any) (t : Text) (now : ℤ) (a : ℕ)
      → Failing e i h t now
      → Accepts env st laws
      → is_some (laws.view e.storage i.id) ≡ true
      → i.retries ≡ pos 0
      → i.attempt ≡ pos a
      → a + 1 < 0x8000000000000000
      → Exhausted (step e now) i.id t e.config.dead_letter_enabled (pos (a + 1))
  unfolding as_started as_failed ◌+ℤ◌
  Exhausted-at_last e i h t now a f acc v r k small =
      let last = as_failed e.config (as_started i now) t now in
      let rest = laws.stored_rest last in
      let (empty_queue, held) = last_round e i h t now f acc v r in
      (
        empty_queue,
        (
          laws.stored last,
          held,
          ground (arith, ap (λ (x : Instance Any). x.status) rest),
          ground (arith, ap (λ (x : Instance Any). x.attempt) rest),
          ground (arith, ap (λ (x : Instance Any). x.retries) rest),
          ground (arith, ap (λ (x : Instance Any). x.error) rest),
        ),
      )

  -- A command with n retries left whose handler always fails is run n + 1 times and no more: after
  -- n + 1 rounds of the worker the queue is empty and the storage holds the command as FAILED, or
  -- as DEAD_LETTER where that queue is enabled, with n + 1 more attempts, no retries left and the
  -- handler's error. This is for an executor that runs nothing else, without backoff, at one
  -- reading of the clock, over a storage that accepts the writes.
  pub retries-Exhausted :
      (n : ℕ) (e : Executor Any st.State) (i : Instance Any) (h : Handler Any) (t : Text) (now : ℤ)
      (a : ℕ)
      → Failing e i h t now
      → Accepts env st laws
      → is_some (laws.view e.storage i.id) ≡ true
      → i.retries ≡ pos n
      → i.attempt ≡ pos a
      → a + n + 1 < 0x8000000000000000
      → Exhausted (rounds (suc n) e now) i.id t e.config.dead_letter_enabled (pos (a + n + 1))
  unfolding rounds as_started as_backing_off ◌+ℤ◌
  retries-Exhausted zero e i h t now a f acc v r k small =
      rw add-zero (Exhausted-at_last e i h t now a f acc v r k (omega arith))
  retries-Exhausted (suc n) e i h t now a f acc v r k small =
      let (f', r', v', c') = retry_round e i h t now n f acc v r in
      let i' = next_try e i t now in
      let e' = rounds (suc n) (step e now) now in
      let ih =
        retries-Exhausted n (step e now) i' h t now (a + 1) f' acc v' r' (ground arith)
          (omega arith) in
      subst (λ b. Exhausted e' i.id t b (pos (a + suc n + 1)))
        (ap (λ (c : Config Any). c.dead_letter_enabled) c')
        (subst (λ m. Exhausted e' i.id t (step e now).config.dead_letter_enabled (pos m))
          (omega arith) ih)
