-- ===== src/Cli/Main.antt =====
-- cmd/durex/main.go: the dispatch of the arguments to a command, with the exit code; and the
-- constructors of the commands, which give the flags their defaults. The flag package is the record
-- `FlagSets`: one FlagSet.Parse for each command.
pub mod Usage
use durex.Prelude.{
  ℕ, ℤ, pos, String, Bool, false, ◌||◌, Option, none, some, List, [], ◌∷◌, ◌==◌, if◌then◌else◌,
}
use durex.Text.{Text}
use durex.Env.{Env}
use durex.Storage.{Storage}
use durex.Instance.{Instance}
use durex.Executor.{Executor}
use durex.Cli.{
  CliError, Answer, printed, failed, Drivers, Connection, FlagSet, connect_storage, parse_id,
}
use durex.Cli.Retry
use durex.Cli.Retry.{Retried}
use durex.Cli.Cancel
use durex.Cli.Cancel.{Cancelled}
use durex.Cli.Listing
use durex.Cli.Listing.{ListOptions, Listed}
use durex.Cli.Details
use durex.Cli.Details.{Shown, Marshalled}
use durex.Cli.Stats
use durex.Cli.Stats.{StatsOutput}
use durex.Cli.Serve.{Serving, serve}

pub record ListFlags : Type 0 where
  pub connection : Connection
  pub options : ListOptions

pub record StatsFlags : Type 0 where
  pub connection : Connection
  pub command : String
  pub detailed : Bool

pub record CancelFlags : Type 0 where
  pub connection : Connection
  pub tag : String

pub record ServeFlags : Type 0 where
  pub connection : Connection
  pub port : String
  pub host : String

pub record GetFlags : Type 0 where
  pub connection : Connection
  pub format : String
  pub history : Bool

abbrev pub no_connection : Connection
no_connection = record { db_path = ""; db_type = "sqlite" }

abbrev pub new_list_command : ListFlags
new_list_command = record {
  connection = no_connection;
  options = record { status = ""; name = ""; tag = ""; limit = pos 50; format = "table" };
}

abbrev pub new_stats_command : StatsFlags
new_stats_command = record { connection = no_connection; command = ""; detailed = false }

abbrev pub new_cancel_command : CancelFlags
new_cancel_command = record { connection = no_connection; tag = "" }

abbrev pub new_dashboard_command : ServeFlags
new_dashboard_command = record { connection = no_connection; port = "8080"; host = "localhost" }

abbrev pub new_get_command : GetFlags
new_get_command = record { connection = no_connection; format = "table"; history = false }

-- FlagSet.Parse of each command, which starts from its defaults
pub record FlagSets : Type 0 where
  pub list : FlagSet ListFlags
  pub stats : FlagSet StatsFlags
  pub retry : FlagSet Connection
  pub cancel : FlagSet CancelFlags
  pub dashboard : FlagSet ServeFlags
  pub get : FlagSet GetFlags

pub data Output (E V : Type 0) : Type 0 where
  -- the flag package has ended the process
  exited : Output E V
  usage : ℕ → Output E V
  version : Output E V
  unknown_command : String → Output E V
  error : CliError → Output E V
  listed : Listed → Output E V
  stats : StatsOutput → Output E V
  retried : Retried → Output E V
  cancelled : Cancelled → Output E V
  details : Shown V → Output E V
  dashboard : Serving E → Output E V

-- an error is printed, with exit code 1
abbrev ended {ℓ} : {E V S : Type 0} {A : Type ℓ} → (A → Output E V) → Answer A × S → Output E V × S
ended show (printed a, s) = (show a, s)
ended show (failed x, s) = (error x, s)

-- os.Exit; a process that serves ends with 0 after the signal
unfoldable pub exit_code : {E V : Type 0} → ℕ → Output E V → ℕ
exit_code flag_exit exited = flag_exit
exit_code flag_exit (usage code) = code
exit_code flag_exit (unknown_command name) = 1
exit_code flag_exit (error x) = 1
exit_code flag_exit (dashboard (Serving.refused x)) = 1
exit_code flag_exit (dashboard (Serving.start_failed x)) = 1
exit_code flag_exit _ = 0

module _ (env : Env) (st : Storage env.Any) (drivers : Drivers) (flags : FlagSets)
    (shown : Text → String) (marshal : Instance env.Any → Marshalled) where
  open env use {Any}

  abbrev Result : Type 0
  Result = Output (Executor Any st.State) Any × st.State

  abbrev list_command : List String → ℤ → st.State → Result
  list_command arguments now s = elim (flags.list arguments) [
    | none ↦ (exited, s)
    | some (f, rest) ↦
        ended listed (Listing.run st shown (connect_storage drivers f.connection) f.options now s)
  ]

  abbrev stats_command : List String → st.State → Result
  stats_command arguments s = elim (flags.stats arguments) [
    | none ↦ (exited, s)
    | some (f, rest) ↦
        ended Output.stats
          (Stats.run st (connect_storage drivers f.connection) f.detailed f.command s)
  ]

  abbrev retry_command : List String → ℤ → st.State → Result
  retry_command arguments now s = elim (parse_id flags.retry arguments) [
    | none ↦ (exited, s)
    | some (failed x) ↦ (error x, s)
    | some (printed (c, id)) ↦ ended retried (Retry.run st (connect_storage drivers c) id now s)
  ]

  abbrev cancel_command : List String → ℤ → st.State → Result
  cancel_command arguments now s = elim (flags.cancel arguments) [
    | none ↦ (exited, s)
    | some (f, rest) ↦ elim (Cancel.options_of f.tag rest) [
      | failed x ↦ (error x, s)
      | printed o ↦
          ended Output.cancelled (Cancel.run st (connect_storage drivers f.connection) o now s)
    ]
  ]

  abbrev dashboard_command : List String → ℤ → st.State → Result
  dashboard_command arguments now s = elim (flags.dashboard arguments) [
    | none ↦ (exited, s)
    | some (f, rest) ↦ (
      Output.dashboard (serve env st (connect_storage drivers f.connection) f.host f.port s now),
      s,
    )
  ]

  abbrev get_command : List String → st.State → Result
  get_command arguments s = elim (parse_id flags.get arguments) [
    | none ↦ (exited, s)
    | some (failed x) ↦ (error x, s)
    | some (printed (f, id)) ↦ ended details (
        Details.run st shown marshal (connect_storage drivers f.connection) f.format f.history id s)
  ]

  unfoldable pub main : List String → ℤ → st.State → Result
  main [] now s = (usage 1, s)
  main (cmd ∷ arguments) now s =
      if cmd == "list" || cmd == "ls"
      then list_command arguments now s
      else if cmd == "stats"
      then stats_command arguments s
      else if cmd == "retry"
      then retry_command arguments now s
      else if cmd == "cancel"
      then cancel_command arguments now s
      else if cmd == "dashboard"
      then dashboard_command arguments now s
      else if cmd == "get"
      then get_command arguments s
      else if cmd == "version" || (cmd == "-v" || cmd == "--version")
      then (version, s)
      else if cmd == "help" || (cmd == "-h" || cmd == "--help")
      then (usage 0, s)
      else (unknown_command cmd, s)
