-- ===== src/Executor/Schedule.antt =====
-- executor_schedule.go: the queue and the timers of queue mode. A send to the queue is taken to
-- find room; once the context is cancelled it is taken to be dropped.
pub mod Delays
pub mod Waiting
use durex.Prelude.{
  ℤ, pos, ltb_ℤ, ◌+ℤ◌, ◌-ℤ◌, String, none, some, List, [], ◌∷◌, ◌++◌, lookup, insert, remove,
  if◌then◌else◌,
}
use durex.Instance.{Instance}
use durex.Executor.{Executor, Timer, queueing}

-- the wait until an instance is ready, at most maxDelay and at least 0
unfoldable pub delay_for : ℤ → ℤ → ℤ → ℤ
delay_for max_delay ready_at now =
    let delay = ready_at -ℤ now in
    let capped = if ltb_ℤ max_delay delay then max_delay else delay in
    if ltb_ℤ capped (pos 0) then pos 0 else capped

module _ {V S : Type 0} where
  -- select { case e.queue <- instance: case <-e.ctx.Done(): }
  unfoldable pub send : Executor V S → Instance V → Executor V S
  send e i = if e.stopping then e else record e { queue = e.queue ++ i ∷ [] }

  abbrev pub timer_for : Executor V S → Instance V → ℤ → Timer V
  timer_for e i now = record {
    fires_at = now +ℤ delay_for e.config.max_delay i.ready_at now;
    instance_due = i;
  }

  unfoldable pub schedule_delayed : Executor V S → Instance V → ℤ → Executor V S
  schedule_delayed e i now = record e {
    delayed_timers = insert i.id (timer_for e i now) e.delayed_timers;
  }

  unfoldable pub queue_schedule : Executor V S → Instance V → ℤ → Executor V S
  unfolding send schedule_delayed
  queue_schedule e i now = if ltb_ℤ now i.ready_at then schedule_delayed e i now else send e i

  unfoldable pub schedule : Executor V S → Instance V → ℤ → Executor V S
  unfolding queue_schedule
  schedule e i now = elim e.schedule_fn [ queueing ↦ queue_schedule e i now | _ ↦ e ]

  -- the callback of the timer, once its time has come
  unfoldable pub fire : Executor V S → String → ℤ → Executor V S
  unfolding send
  fire e id now = elim (lookup id e.delayed_timers) [
    | none ↦ e
    | some timer ↦
        if ltb_ℤ now timer.fires_at
        then e
        else send (record e { delayed_timers = remove id e.delayed_timers }) timer.instance_due
  ]

  unfoldable pub cancel_delayed_timers : Executor V S → Executor V S
  cancel_delayed_timers e = record e { delayed_timers = [] }

  -- the loop of replay, recovery and spawning: schedule each instance in turn
  unfoldable pub schedule_all : Executor V S → List (Instance V) → ℤ → Executor V S
  schedule_all e [] now = e
  schedule_all e (i ∷ is) now = schedule_all (schedule e i now) is now
