-- ===== src/Executor/Maintenance.antt =====
-- executor_maintenance.go: the rounds of the cleanup loop and of the recovery of stuck commands.
pub mod Recovery
use durex.Prelude.{ℤ, ltb_ℤ, ◌-ℤ◌, Bool, true, false, none, some, List, [], ◌∷◌, if◌then◌else◌}
use durex.Status.{named, Status, started}
use durex.Instance.{Instance}
use durex.Storage.{Storage, ok, err}
use durex.Env.{Env}
use durex.Executor.{Executor, Config}
use durex.Executor.Schedule.{schedule}

-- started at a known time, at least the threshold ago
unfoldable pub is_stuck : {V : Type 0} → Config V → Instance V → ℤ → Bool
is_stuck c i now = elim i.started_at [
  | none ↦ false
  | some t ↦ if ltb_ℤ (now -ℤ t) c.stuck_threshold then false else true
]

unfoldable pub as_recovered : {V : Type 0} → Instance V → Instance V
as_recovered i = record i { status = Status.pending; started_at = none }

module _ (env : Env) (st : Storage env.Any) where
  open env use {Any}

  -- one command of the loop; a failing update leaves the command out
  unfoldable pub recover_one : Executor Any st.State → Instance Any → ℤ → Executor Any st.State
  recover_one e i now =
      if is_stuck e.config i now
      then (let (reply, s) = st.update e.storage (as_recovered i) in
          elim reply [
            | ok _ ↦ schedule (record e { storage = s }) (as_recovered i) now
            | err x ↦ record e { storage = s }
          ])
      else e

  unfoldable pub recover_each :
      Executor Any st.State → List (Instance Any) → ℤ → Executor Any st.State
  recover_each e [] now = e
  recover_each e (i ∷ is) now = recover_each (recover_one e i now) is now

  unfoldable pub recover_stuck_commands : Executor Any st.State → ℤ → Executor Any st.State
  recover_stuck_commands e now = elim (st.find_by_status e.storage (named started)) [
    | err x ↦ e
    | ok commands ↦ recover_each e commands now
  ]

  -- one tick of the cleanup loop; its error is only logged
  unfoldable pub cleanup_tick : Executor Any st.State → ℤ → Executor Any st.State
  cleanup_tick e now =
      let (reply, s) = st.cleanup e.storage now e.config.cleanup_age in record e { storage = s }
