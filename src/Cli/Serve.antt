-- ===== src/Cli/Serve.antt =====
-- cmd/durex/commands/dashboard.go: `durex dashboard`, up to the wait for a signal: it connects by
-- the steps of ConnectStorage, and starts an executor. Once a signal comes, it calls Stop.
pub mod Unhandled
use Prim.Native.String.{◌++◌}
use durex.Prelude.{ℤ, String, Option, none, some, List, [], ◌∷◌}
use durex.Storage.{Storage}
use durex.Env.{Env}
use durex.Executor.{Executor, Error}
use durex.Executor.Options.{ExecutorOption, dashboard}
use durex.Executor.Run.{new_executor, start, stop}
use durex.Cli.{CliError, Dialect, Answer, printed, failed}

-- how Run goes on
pub data Serving {ℓ} (E : Type ℓ) : Type ℓ where
  refused : CliError → Serving E
  start_failed : Error → Serving E
  serving : E → Serving E

module _ (env : Env) (st : Storage env.Any) where
  open env use {Any}

  abbrev pub options : String → String → List (ExecutorOption Any)
  options host port = dashboard (host ++ (":" ++ port)) ∷ []

  abbrev as_serving : Option Error × Executor Any st.State → Serving (Executor Any st.State)
  as_serving (none, e) = serving e
  as_serving (some x, e) = start_failed x

  unfoldable pub serve :
      Answer Dialect → String → String → st.State → ℤ → Serving (Executor Any st.State)
  serve (failed x) host port s now = refused x
  serve (printed d) host port s now =
      as_serving (start env st (new_executor s (options host port)) now)

-- the end of Run
unfoldable pub shut_down : {V S : Type 0} → Executor V S → Executor V S
shut_down e = stop e
