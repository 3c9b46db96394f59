-- ===== src/Cli/Serve/Unhandled.antt =====
-- What the executor of `durex dashboard` does with the commands of the database: it has workers, and
-- no handler but that of barriers.
use durex.Prelude.{String, ◌≡◌, false, none, []}
use durex.Status.{Status}
use durex.Instance.{Instance}
use durex.Env.{Env}
use durex.Registry.{resolve}
use durex.Storage.{Storage}
use durex.Executor.{Executor}

module _ {V S : Type 0} (name : String) where
  -- running, with no handler of that name and nothing to start by itself
  abbrev IsBare : Executor V S → Type 0
  IsBare e =
      (resolve e.registry name ≡ none) × (e.stopping ≡ false) × (e.config.permanent_commands ≡ [])
