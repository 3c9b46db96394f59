-- ===== src/Examples/Cli.antt =====
-- The commands of the tool at concrete inputs, over the in-memory storage.
use durex.Prelude.{
  ◌≢◌, ◌≡◌, refl, ◌∙◌, ap, sym, Bool-cases, eq_iff, insert, pos, ◌≤ℤ◌, String, Bool, false, none,
  some, List, [], ◌∷◌, lookup, Distinct, tally, select, map, arith, ltb, ◌-ℤ◌, ◌==◌, if◌then◌else◌,
  inl, inr,
}
use text.Mathlib.Text.{starts_with}
use durex.Text.{empty_text, no_handler, Text, lit}
use durex.Event.{EventType, plain_event}
use durex.Status.{Status, pending, failed, completed, same}
use durex.Instance.{Instance, clone, deep_copy_map}
use durex.Storage.Memory.{Memory, get, update, find_by_status}
use durex.Storage.Memory.Map.{memory}
use durex.Cli.{
  Connection, FlagSet, connect_storage, parse_id, sqlite, printed, Drivers, db_required,
}
use durex.Cli.Retry
use durex.Cli.Retry.{reset_for_retry}
use durex.Cli.Listing.{ListOptions, list_commands_of, fallback}
use durex.Cli.Listing.Words
use durex.Cli.Listing.Words.{list_commands-text_of}
use durex.Cli.Stats.{group_by_name, measure_each, no_durations, quotient}
use durex.Cli.Stats.Groups.{tallies, lookup-group_by_name}
use durex.Cli.Stats.Averages.{is_completed, has_failed, measure_each-averages}
use durex.Cli.Main.{
  FlagSets, exit_code, main, error, no_connection, new_list_command, new_stats_command,
  new_cancel_command, new_dashboard_command, new_get_command,
}
use durex.Cli.Main.Usage
use durex.Cli.Details
use durex.Cli.Serve.{options}
use durex.Executor.Run.{new_executor, start}
use durex.Cli.Main.Usage.{StopsAtArguments, IdCommand, word_of, main-id_first}
use durex.Executor.{Executor}
use durex.Storage.Sql.Sqlite.{sqlite as sqlite_storage}
use durex.Storage.Sql.Postgres.Queries.{postgres}
use durex.Examples.Sql.{engine, table}
use durex.Examples.Data.{a_command, Value, env}

abbrev lost : Instance Value
lost = a_command "lost" failed

abbrev store : List (Instance Value) → Memory Value
store cmds = record { commands = map (λ c. (c.id, c)) cmds; closed = false }

abbrev retried : Instance Value
retried = record lost {
  status = Status.pending;
  error = empty_text;
  started_at = none;
  completed_at = none;
  attempt = pos 0;
  ready_at = lost.created_at;
  history = plain_event EventType.retrying (pos 7) (pos 0) (lit "manual retry via CLI") ∷ [];
}

abbrev tagged : List (Instance Value)
tagged =
    record (a_command "a" pending) { tags = "old" ∷ [] }
    ∷ record (a_command "b" completed) { tags = "old" ∷ [] }
    ∷ []

abbrev listed_options : ListOptions
listed_options = record { status = "failed"; name = ""; tag = ""; limit = pos 50; format = "table" }

list_commands-text_of_example :
    (list_commands_of (sqlite_storage env engine) listed_options (pos 7) table ≡ printed [])
    × (list_commands_of (postgres env engine) listed_options (pos 7) table ≡ printed [])
    × (fallback (memory env) listed_options (pos 7) (store (lost ∷ [])) ≡ printed (lost ∷ []))
unfolding find_by_status select clone deep_copy_map same
list_commands-text_of_example =
    list_commands-text_of env engine table (memory env) (store (lost ∷ [])) listed_options (pos 7)
      Words.failed (lost ∷ []) refl refl refl

lookup-group_by_name_example :
    (lookup "work" (group_by_name [] tagged)
      ≡ (let t = tallies "work" tagged in if ltb 0 t.total then some t else none))
    × Distinct (group_by_name [] tagged)
lookup-group_by_name_example = lookup-group_by_name "work" tagged

abbrev timed : List (Instance Value)
timed =
    record (a_command "a" completed) {
      started_at = some (pos 1000000);
      completed_at = some (pos 8000000);
    }
    ∷ record (a_command "b" completed) {
      started_at = some (pos 1000000);
      completed_at = some (pos 6000000);
    }
    ∷ lost
    ∷ []

measure_each-averages_example :
    let d = measure_each no_durations timed in
    (d.success_count ≡ tally is_completed timed)
    × (d.failure_count ≡ tally has_failed timed)
    × (d.min_duration ≤ℤ quotient d.total_duration d.success_count)
    × (quotient d.total_duration d.success_count ≤ℤ d.max_duration)
unfolding tally same ◌-ℤ◌
measure_each-averages_example =
    measure_each-averages timed (omega arith)
      (inr (7, refl, omega arith), (inr (5, refl, omega arith), (inl refl, tt))) (omega arith)

abbrev quick : Instance Value
quick = a_command "quick" pending

-- the executor that the tool has started on the database with that command
abbrev served : Executor Value (Memory Value)
served =
    (start env (memory env)
      (new_executor (store (quick ∷ [])) (options env (memory env) "localhost" "8080")) (pos 7)).1

abbrev unhandled : Instance Value
unhandled = record quick { status = Status.failed; error = no_handler "work" }

-- a flag set that reads `--db PATH` at the head of the arguments, and no other flag
abbrev with_db {ℓ} : {A : Type ℓ} → (String → A) → A → FlagSet A
with_db set defaults [] = some (defaults, [])
with_db set defaults (a ∷ []) = some (defaults, a ∷ [])
with_db set defaults (a ∷ path ∷ rest) =
    if a == "--db" then some (set path, rest) else some (defaults, a ∷ path ∷ rest)

starts_false : ◌≢◌ {A = Bool} (starts_with "--db" "-") false
starts_false h = cc

with_db_stops {ℓ} :
    {A : Type ℓ} (set : String → A) (defaults : A) (a : String) (rest : List String)
    → starts_with a "-" ≡ false
    → with_db set defaults (a ∷ rest) ≡ some (defaults, a ∷ rest)
with_db_stops set defaults a [] h = refl
with_db_stops set defaults a (path ∷ rest) h = elim (Bool-cases (a == "--db")) [
  | inl e ↦
      absurd
        (starts_false (ap (λ (t : String). starts_with t "-") (sym ((eq_iff a "--db").0 e)) ∙ h))
  | inr e ↦ rw e refl
]

abbrev at : String → Connection
at path = record { db_path = path; db_type = "sqlite" }

abbrev some_flags : FlagSets
some_flags = record {
  list = with_db (λ p. record new_list_command { connection = at p }) new_list_command;
  stats = with_db (λ p. record new_stats_command { connection = at p }) new_stats_command;
  retry = with_db at no_connection;
  cancel = with_db (λ p. record new_cancel_command { connection = at p }) new_cancel_command;
  dashboard =
      with_db (λ p. record new_dashboard_command { connection = at p }) new_dashboard_command;
  get = with_db (λ p. record new_get_command { connection = at p }) new_get_command;
}

some_flags-StopsAtArguments : StopsAtArguments some_flags
some_flags-StopsAtArguments = record {
  retry_stops = with_db_stops at no_connection;
  cancel_stops =
      with_db_stops (λ p. record new_cancel_command { connection = at p }) new_cancel_command;
  get_stops = with_db_stops (λ p. record new_get_command { connection = at p }) new_get_command;
}

abbrev working_drivers : Drivers
working_drivers = record { is_missing = λ p. false; open_database = λ d p. none; ping = λ p. none }

abbrev plain_text : Text → String
plain_text (lit s) = s
plain_text _ = ""

main-id_first_example :
    main env
      (memory env)
      working_drivers
      some_flags
      plain_text
      (λ i. Details.marshalled "{}")
      ("retry" ∷ "cmd_abc123" ∷ "--db" ∷ "durex.db" ∷ [])
      (pos 7)
      (store (lost ∷ []))
    ≡ (error db_required, store (lost ∷ []))
main-id_first_example =
    main-id_first env (memory env) working_drivers some_flags plain_text
      (λ i. Details.marshalled "{}") Usage.retry "cmd_abc123" ("--db" ∷ "durex.db" ∷ []) (pos 7)
      (store (lost ∷ [])) some_flags-StopsAtArguments refl

-- with the flag first, the same command is found
retry_after_flag :
    exit_code 2
      (main env
        (memory env)
        working_drivers
        some_flags
        plain_text
        (λ i. Details.marshalled "{}")
        ("retry" ∷ "--db" ∷ "durex.db" ∷ "lost" ∷ [])
        (pos 7)
        (store (lost ∷ []))).0
    ≡ 0
unfolding exit_code main parse_id connect_storage Retry.run get update lookup insert clone
    deep_copy_map same
retry_after_flag = refl
