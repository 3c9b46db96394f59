-- ===== src/Cli/Main/Usage.antt =====
-- The command lines with an id before the flags, as the usage text and the README write them.
use text.Mathlib.Text.{starts_with}
use durex.Prelude.{ℤ, String, ◌≡◌, false, some, List, ◌∷◌, arith}
use durex.Text.{Text}
use durex.Env.{Env}
use durex.Instance.{Instance}
use durex.Storage.{Storage}
use durex.Cli.{Drivers, db_required, connect_storage, parse_id}
use durex.Cli.Retry
use durex.Cli.Cancel
use durex.Cli.Details
use durex.Cli.Details.{Marshalled}
use durex.Cli.Main.{FlagSets, error, main, no_connection, new_cancel_command, new_get_command}

-- What the flag package says of FlagSet.Parse: "Flag parsing stops just before the first non-flag
-- argument"; a flag begins with a dash, and one that is not given keeps its default.
pub record StopsAtArguments (flags : FlagSets) : Type 0 where
  pub retry_stops :
      (argument : String) (rest : List String)
      → starts_with argument "-" ≡ false
      → flags.retry (argument ∷ rest) ≡ some (no_connection, argument ∷ rest)
  pub cancel_stops :
      (argument : String) (rest : List String)
      → starts_with argument "-" ≡ false
      → flags.cancel (argument ∷ rest) ≡ some (new_cancel_command, argument ∷ rest)
  pub get_stops :
      (argument : String) (rest : List String)
      → starts_with argument "-" ≡ false
      → flags.get (argument ∷ rest) ≡ some (new_get_command, argument ∷ rest)

-- the commands that take an id
pub data IdCommand : Type 0 where
  retry cancel get : IdCommand

abbrev pub word_of : IdCommand → String
word_of retry = "retry"
word_of cancel = "cancel"
word_of get = "get"

-- `durex retry ID ...`, `durex cancel ID ...` and `durex get ID ...`, with any arguments after an id
-- that does not begin with a dash, `--db` among them: the answer is that --db is required, and the
-- storage is as before.
pub main-id_first :
    (env : Env) (st : Storage env.Any) (drivers : Drivers) (flags : FlagSets)
    (shown : Text → String) (marshal : Instance env.Any → Marshalled) (c : IdCommand) (id : String)
    (rest : List String) (now : ℤ) (s : st.State)
    → StopsAtArguments flags
    → starts_with id "-" ≡ false
    → main env st drivers flags shown marshal (word_of c ∷ id ∷ rest) now s ≡ (error db_required, s)
unfolding main connect_storage parse_id Retry.run Cancel.run Cancel.options_of Details.run
main-id_first env st drivers flags shown marshal retry id rest now s f h =
    ground (arith, f.retry_stops id rest h)
main-id_first env st drivers flags shown marshal cancel id rest now s f h =
    ground (arith, f.cancel_stops id rest h)
main-id_first env st drivers flags shown marshal get id rest now s f h =
    ground (arith, f.get_stops id rest h)
