-- ===== src/Executor/Schedule/Delays.antt =====
-- The timers of queue mode: how long they wait, and that an instance which is scheduled is not lost.
use durex.Prelude.{
  ℤ, ◌+ℤ◌, ◌≤ℤ◌, ltb_ℤ, ◌≡◌, true, false, none, [], ◌∷◌, ◌++◌, lookup, insert, lookup-insert,
  lookup-remove, arith, eq_refl,
}
use durex.Instance.{Instance}
use durex.Executor.{Executor, queueing}
use durex.Executor.Schedule.{delay_for, schedule, timer_for, fire}

module _ {V S : Type 0} (e : Executor V S) (i : Instance V) (now : ℤ) where
  -- In queue mode, while the executor runs, a scheduled instance that is ready stands at the end of
  -- the queue at once. One that is not gets a timer; when that fires, at any time after its delay, it
  -- is removed and the instance is queued.
  pub fire-schedule :
      (later : ℤ)
      → e.schedule_fn ≡ queueing
      → e.stopping ≡ false
      → now +ℤ delay_for e.config.max_delay i.ready_at now ≤ℤ later
      → (ltb_ℤ now i.ready_at ≡ false → (schedule e i now).queue ≡ e.queue ++ i ∷ [])
        × (ltb_ℤ now i.ready_at ≡ true
            → ((schedule e i now).queue ≡ e.queue)
              × ((fire (schedule e i now) i.id later).queue ≡ e.queue ++ i ∷ [])
              × (lookup i.id (fire (schedule e i now) i.id later).delayed_timers ≡ none))
  unfolding schedule fire
  fire-schedule later m s h = (
    λ r. ground arith,
    λ r. ground (
      arith,
      eq_refl i.id,
      lookup-insert i.id i.id (timer_for e i now) e.delayed_timers,
      lookup-remove i.id i.id (insert i.id (timer_for e i now) e.delayed_timers),
    ),
  )
