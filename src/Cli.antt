-- ===== src/Cli.antt =====
-- cmd/durex: the command-line tool. This file is common.go's ConnectStorage with what the commands
-- share; one module for each command. The flag package, the drivers of the databases and the screen
-- are outside: parsed flags and the drivers are arguments, and what is printed is returned as data.
pub mod Format
pub mod Retry
pub mod Cancel
pub mod Listing
pub mod Details
pub mod Stats
pub mod Serve
pub mod Main
use durex.Prelude.{
  String, Bool, true, false, ◌||◌, Option, none, some, List, [], ◌∷◌, ◌==◌, if◌then◌else◌,
}
use durex.Text.{Text}
use durex.Status.{Status}
use durex.Storage.{StorageError}

-- what a command was doing when the storage failed
pub data Task : Type 0 where
  get_command update_command cancel_command find_commands query_commands list_commands : Task
  count_commands fetch_commands : Task

pub data CliError : Type 0 where
  db_required id_required id_or_tag_required tags_need_queries : CliError
  file_missing unsupported_type unknown_format : String → CliError
  open_failed connect_failed : Text → CliError
  failed_to : Task → StorageError → CliError
  not_retryable already_terminal : Status → CliError
  marshal_failed : Text → CliError

-- what a command prints, or the error that it returns
pub data Answer {ℓ} (A : Type ℓ) : Type ℓ where
  printed : A → Answer A
  failed : CliError → Answer A

abbrev pub is_printed {ℓ} : {A : Type ℓ} → Answer A → Bool
is_printed (printed a) = true
is_printed (failed e) = false

infixl 5 ◌>>=◌
abbrev pub ◌>>=◌ {ℓ κ} : {A : Type ℓ} {B : Type κ} → Answer A → (A → Answer B) → Answer B
printed a >>= f = f a
failed e >>= f = failed e

-- the storages that the tool opens
pub data Dialect : Type 0 where
  sqlite postgres : Dialect

-- os.Stat on the database's file, sql.Open and Ping, with the errors that they return
pub record Drivers : Type 0 where
  pub is_missing : String → Bool
  pub open_database : Dialect → String → Option Text
  pub ping : String → Option Text

-- the flags --db and --db-type, which every command has
pub record Connection : Type 0 where
  pub db_type : String
  pub db_path : String

unfoldable pub connect_storage : Drivers → Connection → Answer Dialect
connect_storage drivers c =
    if c.db_path == ""
    then failed db_required
    else if c.db_type == "sqlite" || c.db_type == "sqlite3"
    then (if drivers.is_missing c.db_path
        then failed (file_missing c.db_path)
        else elim (drivers.open_database sqlite c.db_path) [
          | some t ↦ failed (open_failed t)
          | none ↦ printed sqlite
        ])
    else if c.db_type == "postgres" || c.db_type == "postgresql"
    then elim (drivers.open_database postgres c.db_path) [
      | some t ↦ failed (open_failed t)
      | none ↦ elim (drivers.ping c.db_path) [
        | some t ↦ failed (connect_failed t)
        | none ↦ printed postgres
      ]
    ]
    else failed (unsupported_type c.db_type)

-- the head of every Run: the command on the storage, once that is open
abbrev pub on_storage {ℓ} :
    {S : Type 0} {A : Type ℓ} → Answer Dialect → S → (S → Answer A × S) → Answer A × S
on_storage (failed e) s run = (failed e, s)
on_storage (printed d) s run = run s

-- FlagSet.Parse leaves the process on an error (`none`), else it gives the flags and the arguments
-- after them. A command that takes an id takes the first of those.
abbrev pub FlagSet {ℓ} : Type ℓ → Type ℓ
FlagSet A = List String → Option (A × List String)

abbrev pub first_argument {ℓ} : {A : Type ℓ} → A → List String → Answer (A × String)
first_argument flags [] = failed id_required
first_argument flags (id ∷ rest) = printed (flags, id)

-- Parse of `get` and `retry`
unfoldable pub parse_id {ℓ} : {A : Type ℓ} → FlagSet A → List String → Option (Answer (A × String))
parse_id flags arguments = elim (flags arguments) [
  | none ↦ none
  | some (options, remaining) ↦ some (first_argument options remaining)
]
