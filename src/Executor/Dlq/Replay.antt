-- ===== src/Executor/Dlq/Replay.antt =====
-- ReplayFromDLQ, on every branch after the read.
use durex.Prelude.{
  ℤ, pos, String, ◌≡◌, true, false, none, some, [], ◌∷◌, ◌++◌, arith, ◌==◌, if◌then◌else◌,
}
use durex.Text.{empty_text}
use durex.Status.{Status, dead_letter, same}
use durex.Instance.{Instance}
use durex.Env.{Env}
use durex.Storage.{Storage, ok, is_ok}
use durex.Storage.Laws.{StorageLaws}
use durex.Executor.{Executor, not_dead_lettered, queueing}
use durex.Executor.Schedule.{schedule}
use durex.Executor.Api.{write}
use durex.Executor.Dlq.{replay_from_dlq, reset_for_replay}

-- For a command that the storage returns under its id: if it is not dead-lettered, a replay is
-- refused with its status and changes nothing. If it is, and the storage accepts the write, the
-- stored command is the one read, pending, ready now, with no error, times or attempts; every other
-- stored command is as before; and in queue mode, while running, the command is queued at once.
pub replay_from_dlq_lem :
    (env : Env) (st : Storage env.Any) (laws : StorageLaws st) (e : Executor env.Any st.State)
    (i : Instance env.Any) (now : ℤ)
    → st.get e.storage i.id ≡ ok i
    → let reset = record i {
      status = Status.pending;
      error = empty_text;
      started_at = none;
      completed_at = none;
      attempt = pos 0;
      ready_at = now;
    } in
      (same i.status dead_letter ≡ false
        → replay_from_dlq env st e i.id now ≡ (some (not_dead_lettered i.status), e))
      × (same i.status dead_letter ≡ true
          → is_ok (st.update e.storage reset).0 ≡ true
          → ((replay_from_dlq env st e i.id now).0 ≡ none)
            × ((j : String)
                → laws.view (replay_from_dlq env st e i.id now).1.storage j
                  ≡ (if i.id == j then some (laws.stored reset) else laws.view e.storage j))
            × (e.schedule_fn ≡ queueing
                → e.stopping ≡ false
                → (replay_from_dlq env st e i.id now).1.queue ≡ e.queue ++ reset ∷ []))
unfolding replay_from_dlq write reset_for_replay schedule
replay_from_dlq_lem env st laws e i now g = (
  λ t. ground arith,
  λ t a. (
    ground arith,
    λ j. ground (arith, laws.update_view e.storage (reset_for_replay i now) j),
    λ m s. ground arith,
  ),
)
