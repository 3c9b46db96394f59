-- ===== src/Examples/Storages.antt =====
-- The storages, and the operations of the executor that write to them, on a few commands.
use durex.Prelude.{
  map, select, pos, ◌-ℤ◌, tally, values, lookup, String, ◌≡◌, refl, not, true, false, none, some,
  [], ◌∷◌, ◌++◌, length, ◌+◌, arith, eq_iff, Distinct, ◌==◌, ◌&&◌, if◌then◌else◌, is_some,
}
use durex.Text.{empty_text}
use durex.Event.{EventType, plain_event}
use durex.Status.{Status, started, pending, completed, dead_letter, is_terminal, is_active, same}
use durex.Instance.{Instance, clone, deep_copy_map}
use durex.Storage.{ok, err, is_ok, not_found, storage_closed}
use durex.Storage.Memory.{Memory, create, update, delete, get, cleanup}
use durex.Storage.Memory.Map.{memory, memory_laws, memory_is_map, view}
use durex.Storage.Memory.Sweep.{is_over, dropped, lookup-cleanup}
use durex.Storage.Hooked.{
  run, run-hooked_storage, hooked_storage, all_hooks, creates, updates, deletes,
}
use durex.Executor.{Executor, cannot_cancel, not_dead_lettered, queueing}
use durex.Executor.Api.{add, cancel}
use durex.Executor.Api.Cancel.{cancel_lem}
use durex.Executor.Api.Unique.{UniqueKeys, add-UniqueKeys}
use durex.Executor.Run.{replay}
use durex.Executor.Run.Replay.{due, replay-find_pending}
use durex.Executor.Api.{done}
use durex.Executor.Maintenance.{recover_stuck_commands}
use durex.Executor.Maintenance.Recovery.{unstuck, lookup-recover_stuck_commands}
use durex.Executor.Dlq.Purge.{is_purged, unpurged, lookup-purge_dlq}
use durex.Executor.Dlq.{purge_dlq, replay_from_dlq}
use durex.Executor.Dlq.Replay.{replay_from_dlq_lem}
use durex.Examples.Data.{Value, env, job, a_command, named, succeeding, executor}

abbrev old : Instance Value
old = record (a_command "old" completed) { completed_at = some (pos 5) }

abbrev keyed : Instance Value
keyed = record (a_command "keyed" pending) { unique_key = "k" }

abbrev dead : Instance Value
dead = a_command "dead" dead_letter

abbrev store : Memory Value
store = record {
  commands = ("job", job) ∷ ("old", old) ∷ ("keyed", keyed) ∷ ("dead", dead) ∷ [];
  closed = false;
}

store-Distinct : Distinct store.commands
unfolding lookup
store-Distinct = (refl, (refl, (refl, (refl, tt))))

memory_is_map_example :
    ((is_ok (create env store keyed).0
        ≡ (not store.closed && not (is_some (view env store "keyed"))))
      × (view env (create env store keyed).1 "job" ≡ (
          if is_ok (create env store keyed).0 && ("keyed" == "job")
          then some (clone env (clone env keyed))
          else view env store "job")))
    × ((is_ok (update env store keyed).0 ≡ is_some (view env store "keyed"))
        × (view env (update env store keyed).1 "job" ≡ (
            if is_ok (update env store keyed).0 && ("keyed" == "job")
            then some (clone env (clone env keyed))
            else view env store "job")))
    × ((is_ok (delete env store "old").0 ≡ not store.closed)
        × (view env (delete env store "old").1 "job" ≡ (
            if is_ok (delete env store "old").0 && ("old" == "job")
            then none
            else view env store "job")))
    × (get env store "old" ≡ (
        if store.closed
        then err storage_closed
        else elim (view env store "old") [ none ↦ err not_found | some c ↦ ok c ]))
memory_is_map_example = memory_is_map env store keyed "old" "job"

lookup-cleanup_example :
    ((id : String)
      → lookup id (cleanup env store (pos 20) (pos 10)).1.commands
        ≡ dropped (pos 20 -ℤ pos 10) (lookup id store.commands))
    × ((cleanup env store (pos 20) (pos 10)).0
        ≡ ok (tally (is_over (pos 20 -ℤ pos 10)) (values store.commands)))
lookup-cleanup_example = lookup-cleanup env store (pos 20) (pos 10) refl store-Distinct

run-hooked_storage_example :
    let ws = creates keyed ∷ updates old ∷ deletes "keyed" ∷ [] in
    ((run (hooked_storage all_hooks (memory env)) (store, []) ws).0 ≡ (run (memory env) store ws).0)
    × ((run (hooked_storage all_hooks (memory env)) (store, []) ws).1.0
        ≡ (run (memory env) store ws).1)
    × (all_hooks ≡ all_hooks
        → length (run (hooked_storage all_hooks (memory env)) (store, []) ws).1.1 ≡ 0 + 3)
run-hooked_storage_example =
    run-hooked_storage all_hooks (memory env) (creates keyed ∷ updates old ∷ deletes "keyed" ∷ [])
      store []

store-UniqueKeys : UniqueKeys store.commands
unfolding lookup is_active
store-UniqueKeys a b c d l r ac ad n k = ground (
  arith,
  eq_iff "job" a,
  eq_iff "old" a,
  eq_iff "keyed" a,
  eq_iff "dead" a,
  eq_iff "job" b,
  eq_iff "old" b,
  eq_iff "keyed" b,
  eq_iff "dead" b,
)

abbrev stored_executor : Executor Value (Memory Value)
stored_executor = record (executor succeeding none) { storage = store }

add-UniqueKeys_example :
    UniqueKeys
      (add env
        (memory env)
        stored_executor
        (record (named "work") { unique_key = "k" })
        (pos 3)).1.storage.commands
add-UniqueKeys_example =
    add-UniqueKeys env stored_executor (record (named "work") { unique_key = "k" }) (pos 3) refl
      store-UniqueKeys

abbrev cancelled_job : Instance Value
cancelled_job = record job {
  status = Status.cancelled;
  completed_at = some (pos 3);
  history = plain_event EventType.cancelled (pos 3) (pos 0) empty_text ∷ [];
}

cancel_lem_example :
    let e = executor succeeding none in
    (is_terminal job.status ≡ true
      → cancel env (memory env) e "job" (pos 3) ≡ (some (cannot_cancel job.status), e))
    × (is_terminal job.status ≡ false
        → is_ok (update env e.storage cancelled_job).0 ≡ true
        → ((cancel env (memory env) e "job" (pos 3)).0 ≡ none)
          × ((j : String)
              → (memory_laws env).view (cancel env (memory env) e "job" (pos 3)).1.storage j ≡ (
                  if "job" == j
                  then some ((memory_laws env).stored cancelled_job)
                  else (memory_laws env).view e.storage j)))
unfolding get lookup clone deep_copy_map
cancel_lem_example =
    cancel_lem env (memory env) (memory_laws env) (executor succeeding none) job (pos 3) refl

abbrev replayed : Instance Value
replayed = record dead {
  status = Status.pending;
  error = empty_text;
  started_at = none;
  completed_at = none;
  attempt = pos 0;
  ready_at = pos 3;
}

replay_from_dlq_lem_example :
    let e = stored_executor in
    (same dead.status dead_letter ≡ false
      → replay_from_dlq env (memory env) e "dead" (pos 3)
        ≡ (some (not_dead_lettered dead.status), e))
    × (same dead.status dead_letter ≡ true
        → is_ok (update env e.storage replayed).0 ≡ true
        → ((replay_from_dlq env (memory env) e "dead" (pos 3)).0 ≡ none)
          × ((j : String)
              → (memory_laws env).view
                  (replay_from_dlq env (memory env) e "dead" (pos 3)).1.storage
                  j
                ≡ (if "dead" == j
                    then some ((memory_laws env).stored replayed)
                    else (memory_laws env).view e.storage j))
          × (e.schedule_fn ≡ queueing
              → e.stopping ≡ false
              → (replay_from_dlq env (memory env) e "dead" (pos 3)).1.queue
                ≡ e.queue ++ replayed ∷ []))
unfolding get lookup clone deep_copy_map
replay_from_dlq_lem_example =
    replay_from_dlq_lem env (memory env) (memory_laws env) stored_executor dead (pos 3) refl

-- `job` is due, `later` is not
abbrev later : Instance Value
later = record (a_command "later" pending) { ready_at = pos 9 }

abbrev restarted : Executor Value (Memory Value)
restarted = record (executor succeeding none) {
  storage = record { commands = ("job", job) ∷ ("later", later) ∷ []; closed = false };
  queue = [];
}

replay-find_pending_example : replay env (memory env) restarted (pos 3) ≡ (
  none,
  record restarted { queue = [] ++ map (clone env) (select (due env (pos 3)) (job ∷ later ∷ [])) },
)
replay-find_pending_example = replay-find_pending env restarted (pos 3) refl refl refl

abbrev stale : Instance Value
stale = record (a_command "stale" dead_letter) { completed_at = some (pos 5) }

abbrev purged_executor : Executor Value (Memory Value)
purged_executor = record (executor succeeding none) {
  storage = record {
    commands = ("job", job) ∷ ("stale", stale) ∷ ("dead", dead) ∷ [];
    closed = false;
  };
}

purged_executor-Distinct : Distinct purged_executor.storage.commands
unfolding lookup
purged_executor-Distinct = (refl, (refl, (refl, tt)))

lookup-purge_dlq_example :
    ((id : String)
      → lookup id (purge_dlq env (memory env) purged_executor (pos 10) (pos 20)).1.storage.commands
        ≡ unpurged (pos 20 -ℤ pos 10) (lookup id purged_executor.storage.commands))
    × ((purge_dlq env (memory env) purged_executor (pos 10) (pos 20)).0
        ≡ done (tally (is_purged (pos 20 -ℤ pos 10)) (values purged_executor.storage.commands)))
lookup-purge_dlq_example =
    lookup-purge_dlq env purged_executor (pos 10) (pos 20) refl purged_executor-Distinct
      (refl, (refl, (refl, tt)))

abbrev slow : Instance Value
slow = record (a_command "slow" started) { started_at = some (pos 5) }

abbrev slow_executor : Executor Value (Memory Value)
slow_executor = record (executor succeeding none) {
  storage = record { commands = ("job", job) ∷ ("slow", slow) ∷ []; closed = false };
}

slow_executor-Distinct : Distinct slow_executor.storage.commands
unfolding lookup
slow_executor-Distinct = (refl, (refl, tt))

lookup-recover_stuck_commands_example :
    lookup "slow"
      (recover_stuck_commands env (memory env) slow_executor (pos 400000000000)).storage.commands
    ≡ unstuck env slow_executor.config
        (pos 400000000000)
        (lookup "slow" slow_executor.storage.commands)
lookup-recover_stuck_commands_example =
    lookup-recover_stuck_commands env slow_executor (pos 400000000000) "slow" refl
      slow_executor-Distinct (refl, (refl, tt))
