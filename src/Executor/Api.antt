-- ===== src/Executor/Api.antt =====
-- executor_api.go: adding, reading and cancelling commands.
pub mod Cancel
pub mod Unique
use durex.Prelude.{ℕ, suc, ℤ, String, Option, none, some, List, [], ◌∷◌, ◌==◌, if◌then◌else◌}
use durex.Text.{Text, empty_text, cancelled_by_tag}
use durex.Status.{is_terminal, cancelled}
use durex.Event.{Event, EventType}
use durex.Spec.{Spec}
use durex.Instance.{Instance, clone, record_event}
use durex.Storage.{Storage, ok, err, not_found, any_query}
use durex.Env.{Env}
use durex.Executor.{
  Executor, Error, executor_not_ready, name_required, duplicate_command, no_tag_queries,
  unique_check_failed, persist_failed, storage_failed, cannot_cancel,
}
use durex.Executor.Create.{create_instance}
use durex.Executor.Schedule.{schedule}

-- the two results of a Go method: an error, or a value
pub data Answer {ℓ} (A : Type ℓ) : Type ℓ where
  done : A → Answer A
  refused : Error → Answer A

-- status, time and event of a cancellation
unfoldable pub cancelled_at : {V : Type 0} → Instance V → ℤ → Text → Instance V
unfolding record_event
cancelled_at i now message =
    record_event (record i { status = cancelled; completed_at = some now }) EventType.cancelled now
      message

module _ (env : Env) (st : Storage env.Any) where
  open env use {Any}

  -- whether Add may go on: an empty key is not checked
  unfoldable pub check_unique : st.State → Instance Any → Option Error
  check_unique s i =
      if i.unique_key == "" then none else elim (st.find_by_unique_key s i.unique_key) [
        | ok existing ↦ some duplicate_command
        | err not_found ↦ none
        | err x ↦ some (unique_check_failed x)
      ]

  -- storage.Create, clone, scheduleFn
  unfoldable pub persist :
      Executor Any st.State → Instance Any → ℤ → Answer (Instance Any) × Executor Any st.State
  persist e i now =
      let (reply, s) = st.create e.storage i in
      elim reply [
        | ok _ ↦ (done (clone env i), schedule (record e { storage = s }) i now)
        | err x ↦ (refused (persist_failed x), record e { storage = s })
      ]

  unfoldable pub add_checked :
      Option (Instance Any)
      → Executor Any st.State
      → ℤ
      → Answer (Instance Any) × Executor Any st.State
  add_checked none e now = (refused name_required, e)
  add_checked (some i) e now = elim (check_unique e.storage i) [
    | some x ↦ (refused x, e)
    | none ↦ persist e i now
  ]

  unfoldable pub add :
      Executor Any st.State → Spec Any → ℤ → Answer (Instance Any) × Executor Any st.State
  unfolding add_checked
  add e spec now =
      if e.started
      then (let (i, e') = create_instance env e spec now in add_checked i e' now)
      else (refused executor_not_ready, e)

  -- the instances added before the first error, and that error
  unfoldable pub add_many :
      Executor Any st.State
      → List (Spec Any)
      → ℤ
      → List (Instance Any) × Option Error × Executor Any st.State
  add_many e [] now = ([], none, e)
  add_many e (spec ∷ specs) now =
      let (answer, e') = add e spec now in
      let rest = add_many e' specs now in
      elim answer [ refused x ↦ ([], some x, e') | done i ↦ (i ∷ rest.0, rest.1, rest.2) ]

  -- the loop over recovery and follow-up commands: errors are only logged
  unfoldable pub add_all : Executor Any st.State → List (Spec Any) → ℤ → Executor Any st.State
  add_all e [] now = e
  add_all e (spec ∷ specs) now = add_all (add e spec now).1 specs now

  unfoldable pub get : Executor Any st.State → String → Answer (Instance Any)
  get e id = elim (st.get e.storage id) [ ok i ↦ done i | err x ↦ refused (storage_failed x) ]

  unfoldable pub history : Executor Any st.State → String → Answer (List Event)
  history e id = elim (st.get e.storage id) [
    | ok i ↦ done i.history
    | err x ↦ refused (storage_failed x)
  ]

  -- storage.Update, its error passed on
  unfoldable pub write : Executor Any st.State → Instance Any → Option Error × Executor Any st.State
  write e i =
      let (reply, s) = st.update e.storage i in
      (elim reply [ ok _ ↦ none | err x ↦ some (storage_failed x) ], record e { storage = s })

  unfoldable pub cancel : Executor Any st.State → String → ℤ → Option Error × Executor Any st.State
  cancel e id now = elim (st.get e.storage id) [
    | err x ↦ (some (storage_failed x), e)
    | ok i ↦
        if is_terminal i.status
        then (some (cannot_cancel i.status), e)
        else write e (cancelled_at i now empty_text)
  ]

  -- one round of the loop of CancelByTag; a failing update is not counted
  cancel_one : Executor Any st.State × ℕ → Instance Any → String → ℤ → Executor Any st.State × ℕ
  cancel_one (e, n) i tag now =
      if is_terminal i.status
      then (e, n)
      else (let (failure, e') = write e (cancelled_at i now (cancelled_by_tag tag)) in
          (e', elim failure [ none ↦ suc n | some x ↦ n ]))

  cancel_each :
      Executor Any st.State × ℕ → List (Instance Any) → String → ℤ → Executor Any st.State × ℕ
  unfolding cancel_one
  cancel_each acc [] tag now = acc
  cancel_each acc (i ∷ is) tag now = cancel_each (cancel_one acc i tag now) is tag now

  unfoldable pub cancel_by_tag :
      Executor Any st.State → String → ℤ → Answer ℕ × Executor Any st.State
  unfolding cancel_each
  cancel_by_tag e tag now = elim st.find [
    | none ↦ (refused no_tag_queries, e)
    | some find ↦ elim (find e.storage (record any_query { tags = tag ∷ [] })) [
      | err x ↦ (refused (storage_failed x), e)
      | ok commands ↦ let (e', n) = cancel_each (e, 0) commands tag now in (done n, e')
    ]
  ]
