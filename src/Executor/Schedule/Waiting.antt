-- ===== src/Executor/Schedule/Waiting.antt =====
-- Which commands wait in the queue or for a timer, and that scheduling forgets none of them.
use durex.Prelude.{
  ℤ, String, ◌≡◌, Bool, true, false, ◌||◌, is_some, List, [], ◌∷◌, ◌++◌, lookup, lookup-insert,
  arith, ◌==◌, eq_refl,
}
use durex.Instance.{Instance}
use durex.Executor.{Executor, queueing}
use durex.Executor.Schedule.{schedule, timer_for}

module _ {V : Type 0} where
  queued : String → List (Instance V) → Bool
  queued id [] = false
  queued id (i ∷ is) = i.id == id || queued id is

  queued-append :
      (id : String) (is : List (Instance V)) (i : Instance V)
      → queued id (is ++ i ∷ []) ≡ queued id is || i.id == id
  unfolding queued
  queued-append id [] i = ground arith
  queued-append id (j ∷ is) i = ground (arith, queued-append id is i)

module _ {V S : Type 0} where
  unfoldable pub waiting : Executor V S → String → Bool
  unfolding queued
  waiting e id = queued id e.queue || is_some (lookup id e.delayed_timers)

  pub waiting-schedule :
      (e : Executor V S) (i : Instance V) (now : ℤ)
      → e.schedule_fn ≡ queueing
      → e.stopping ≡ false
      → waiting (schedule e i now) i.id ≡ true
  unfolding waiting schedule
  waiting-schedule e i now m s = ground (
    arith,
    eq_refl i.id,
    queued-append i.id e.queue i,
    lookup-insert i.id i.id (timer_for e i now) e.delayed_timers,
  )

  pub waiting-schedule_mono :
      (e : Executor V S) (i : Instance V) (now : ℤ) (id : String)
      → waiting e id ≡ true
      → waiting (schedule e i now) id ≡ true
  unfolding waiting schedule
  waiting-schedule_mono e i now id h = ground (
    arith,
    queued-append id e.queue i,
    lookup-insert i.id id (timer_for e i now) e.delayed_timers,
  )

  pub storage-schedule :
      (e : Executor V S) (i : Instance V) (now : ℤ) → (schedule e i now).storage ≡ e.storage
  unfolding schedule
  storage-schedule e i now = ground arith
