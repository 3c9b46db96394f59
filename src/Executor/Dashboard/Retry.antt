-- ===== src/Executor/Dashboard/Retry.antt =====
-- The dashboard's retry of a command, on every branch after the read, over a storage that keeps the
-- contract.
use durex.Prelude.{
  ℤ, pos, none, String, ◌≡◌, Bool, true, false, ◌&&◌, ◌||◌, some, [], ◌∷◌, ◌++◌, arith, ◌==◌,
  if◌then◌else◌,
}
use durex.Text.{empty_text}
use durex.Status.{Status, failed, dead_letter, same}
use durex.Instance.{Instance}
use durex.Env.{Env}
use durex.Storage.{Storage, ok, is_ok}
use durex.Storage.Laws.{StorageLaws}
use durex.Executor.{Executor, queueing}
use durex.Executor.Schedule.{schedule, queue_schedule, send}
use durex.Executor.Dlq.{reset_for_replay}
use durex.Executor.Dashboard.{
  Request, Response, scheduled_of, parameter, retry_instance, handle_api_retry,
}

abbrev pub is_scheduled : Response → Bool
is_scheduled (scheduled_of id) = true
is_scheduled _ = false

-- A request to retry a command, which the storage returns under its id, in queue mode while the
-- executor runs: it is answered with success exactly if it is a POST, the command is FAILED or
-- dead-lettered, and the storage accepts the write. Then the command is stored as it was read, but
-- pending, ready now and with no error, times or attempts, and it is queued; in every other case
-- the stored commands and the queue are as before.
pub handle_api_retry_lem :
    (env : Env) (st : Storage env.Any) (laws : StorageLaws st) (e : Executor env.Any st.State)
    (r : Request) (i : Instance env.Any) (now : ℤ)
    → (i.id == "") ≡ false
    → parameter r "id" ≡ i.id
    → st.get e.storage i.id ≡ ok i
    → e.schedule_fn ≡ queueing
    → e.stopping ≡ false
    → let reset = record i {
      status = Status.pending;
      error = empty_text;
      started_at = none;
      completed_at = none;
      attempt = pos 0;
      ready_at = now;
    } in
      let (answer, e') = handle_api_retry env st e r now in
      let accepted =
        (r.method == "POST")
        && ((same i.status failed || same i.status dead_letter)
            && is_ok (st.update e.storage reset).0) in
      (is_scheduled answer ≡ accepted)
      × ((j : String)
          → laws.view e'.storage j
            ≡ (if accepted && (i.id == j) then some (laws.stored reset) else laws.view e.storage j))
      × (e'.queue ≡ (if accepted then e.queue ++ reset ∷ [] else e.queue))
unfolding handle_api_retry retry_instance reset_for_replay schedule queue_schedule send
handle_api_retry_lem env st laws e r i now n p g m s = (
  ground arith,
  λ j. ground (arith, laws.update_view e.storage (reset_for_replay i now) j),
  ground arith,
)
