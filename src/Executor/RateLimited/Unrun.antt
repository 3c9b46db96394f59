-- ===== src/Executor/RateLimited/Unrun.antt =====
-- What becomes of a command that RateLimitMiddleware holds back until its timeout.
use durex.Prelude.{
  ℕ, ℤ, pos, ltb_ℤ, ◌-ℤ◌, String, ◌≡◌, true, false, some, [], ◌∷◌, ◌++◌, arith, eq_refl,
}
use durex.Text.{empty_text}
use durex.Status.{Status}
use durex.Event.{EventType, plain_event}
use durex.Result.{retry}
use durex.Instance.{Instance}
use durex.Env.{Env}
use durex.RateLimiter.{RateLimiter, waits, attempt, remove_waiter}
use durex.Storage.{Storage, is_ok}
use durex.Storage.Laws.{StorageLaws}
use durex.Executor.{Executor, Command, Outcome, metric, command_completed}
use durex.Executor.Handlers.{
  complete, handle_result, spawn_children, continue_with, update_then, as_completed,
}
use durex.Executor.Worker.{conclude, exceeded}
use durex.Executor.RateLimited.{retry_later, rate_limit_middleware}

module _ (env : Env) (st : Storage env.Any) (laws : StorageLaws st) where
  open env use {Any}

  complete-retry :
      (e : Executor Any st.State) (i : Instance Any) (now : ℤ)
      → is_ok (st.update e.storage (as_completed i now)).0 ≡ true
      → laws.view (complete env st e i retry now).1.storage i.id
        ≡ some (laws.stored (as_completed i now))
  unfolding complete spawn_children continue_with update_then as_completed
  complete-retry e i now a =
      ground (arith, laws.update_view e.storage (as_completed i now) i.id, eq_refl i.id)

  retry_completed :
      (e : Executor Any st.State) (i : Instance Any) (now finish : ℤ)
      → is_ok (st.update e.storage (as_completed i finish)).0 ≡ true
      → laws.view
          (complete env st
            (metric e (command_completed i.name (finish -ℤ now)))
            i
            retry
            finish).1.storage
          i.id
        ≡ some (laws.stored (as_completed i finish))
  retry_completed e i now finish a =
      complete-retry (metric e (command_completed i.name (finish -ℤ now))) i finish
        (ground (arith, a))

  -- A command that is to run, with no retries left, while its rate limit is reached until the
  -- middleware's timeout: the middleware answers without a call of the rest of the chain, whatever
  -- that is, and the executor, which has no retry to use and finds no timeout of the command passed,
  -- stores the command as COMPLETED if the storage takes the write. The command has not run.
  pub unrun_completes :
      (e : Executor Any st.State) (i : Instance Any) (handler : Command Any) (r r' : RateLimiter)
      (key : String) (ch : ℕ) (timeout now finish : ℤ)
      (next : RateLimiter → Outcome Any × RateLimiter)
      → attempt r i.name ≡ (waits key ch, r')
      → ltb_ℤ (pos 0) timeout ≡ true
      → ltb_ℤ (pos 0) i.retries ≡ false
      → exceeded i now finish ≡ false
      → let completed = record i {
        status = Status.completed;
        completed_at = some finish;
        history = i.history ++ plain_event EventType.completed finish i.attempt empty_text ∷ [];
      } in
        is_ok (st.update e.storage completed).0 ≡ true
        → (rate_limit_middleware r timeout true i next
            ≡ some (retry_later i, remove_waiter r' key ch))
          × (laws.view (conclude env st e i handler (retry_later i) now finish).1.storage i.id
              ≡ some (laws.stored completed))
  unfolding rate_limit_middleware conclude handle_result as_completed
  unrun_completes e i handler r r' key ch timeout now finish next w t n x a =
      (ground (arith, w, t), ground (arith, n, x, retry_completed e i now finish a))
