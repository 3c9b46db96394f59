-- ===== src/Executor/Run/Replay.antt =====
-- The replay at a start in queue mode over the in-memory storage.
use durex.Prelude.{
  ℤ, ◌≡◌, refl, sym, ap, ltb_ℤ, Bool, false, not, ◌&&◌, none, List, [], ◌∷◌, ◌++◌, map, select,
  values, All, arith,
}
use durex.Status.{is_active}
use durex.Instance.{Instance, clone}
use durex.Env.{Env}
use durex.Storage.Memory.{Memory, find_pending}
use durex.Storage.Memory.Map.{memory}
use durex.Executor.{Executor, queueing}
use durex.Executor.Schedule.{schedule, schedule_all}
use durex.Executor.Run.{replay}

append_nil : {V : Type 0} (xs : List V) → xs ++ [] ≡ xs
append_nil [] = refl
append_nil (x ∷ xs) = ground (arith, append_nil xs)

append_assoc : {V : Type 0} (xs ys zs : List V) → (xs ++ ys) ++ zs ≡ xs ++ (ys ++ zs)
append_assoc [] ys zs = refl
append_assoc (x ∷ xs) ys zs = ground (arith, append_assoc xs ys zs)

-- ready instances are queued in their order, and nothing else changes
schedule_all-ready :
    {V S : Type 0} (e : Executor V S) (is : List (Instance V)) (now : ℤ)
    → e.schedule_fn ≡ queueing
    → e.stopping ≡ false
    → All (λ i. ltb_ℤ now i.ready_at ≡ false) is
    → schedule_all e is now ≡ record e { queue = e.queue ++ is }
unfolding schedule_all schedule
schedule_all-ready e [] now m s r = ap (λ q. record e { queue = q }) (sym (append_nil e.queue))
schedule_all-ready e (i ∷ is) now m s r =
    ground (arith, schedule_all-ready (schedule e i now) is now, append_assoc e.queue (i ∷ []) is)

module _ (env : Env) where
  open env use {Any}

  -- active, and ready at `now`
  abbrev pub due : ℤ → Instance Any → Bool
  due now c = is_active c.status && not (ltb_ℤ now c.ready_at)

  ready_of_due :
      (now : ℤ) (cs : List (Instance Any))
      → All (λ i. ltb_ℤ now i.ready_at ≡ false) (map (clone env) (select (due now) cs))
  unfolding select clone
  ready_of_due now [] = tt
  ready_of_due now (c ∷ cs) = ground (arith, ready_of_due now cs)

  -- The replay of a start in queue mode, over an open in-memory storage, queues every stored command
  -- that is active and ready, each once, and does nothing else: a command that is ready only later
  -- is neither queued nor given a timer.
  pub replay-find_pending :
      (e : Executor Any (Memory Any)) (now : ℤ)
      → e.schedule_fn ≡ queueing
      → e.stopping ≡ false
      → e.storage.closed ≡ false
      → replay env (memory env) e now ≡ (
        none,
        record e {
          queue = e.queue ++ map (clone env) (select (due now) (values e.storage.commands));
        },
      )
  unfolding replay find_pending
  replay-find_pending e now m s o =
      let is = map (clone env) (select (due now) (values e.storage.commands)) in
      ground (arith, schedule_all-ready e is now m s (ready_of_due now (values e.storage.commands)))
