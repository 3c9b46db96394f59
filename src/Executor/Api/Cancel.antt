-- ===== src/Executor/Api/Cancel.antt =====
-- Cancel, on every branch after the read.
use durex.Prelude.{
  ℤ, String, ◌≡◌, true, false, none, some, [], ◌∷◌, ◌++◌, arith, ◌==◌, if◌then◌else◌,
}
use durex.Text.{empty_text}
use durex.Status.{Status, is_terminal}
use durex.Event.{EventType, plain_event}
use durex.Instance.{Instance}
use durex.Env.{Env}
use durex.Storage.{Storage, ok, is_ok}
use durex.Storage.Laws.{StorageLaws}
use durex.Executor.{Executor, cannot_cancel}
use durex.Executor.Api.{cancel, cancelled_at, write}

-- For a command that the storage returns under its id: if it is terminal, Cancel is refused with
-- its status and changes nothing. If not, and the storage accepts the write, Cancel succeeds, the
-- stored command is the one read with status CANCELLED, completed now, and with
-- the event at the end of its history, and every other
-- stored command is as before.
pub cancel_lem :
    (env : Env) (st : Storage env.Any) (laws : StorageLaws st) (e : Executor env.Any st.State)
    (i : Instance env.Any) (now : ℤ)
    → st.get e.storage i.id ≡ ok i
    → let written = record i {
      status = Status.cancelled;
      completed_at = some now;
      history = i.history ++ plain_event EventType.cancelled now i.attempt empty_text ∷ [];
    } in
      (is_terminal i.status ≡ true → cancel env st e i.id now ≡ (some (cannot_cancel i.status), e))
      × (is_terminal i.status ≡ false
          → is_ok (st.update e.storage written).0 ≡ true
          → ((cancel env st e i.id now).0 ≡ none)
            × ((j : String)
                → laws.view (cancel env st e i.id now).1.storage j
                  ≡ (if i.id == j then some (laws.stored written) else laws.view e.storage j)))
unfolding cancel write cancelled_at
cancel_lem env st laws e i now g = (
  λ t. ground arith,
  λ t a. (
    ground arith,
    λ j. ground (arith, laws.update_view e.storage (cancelled_at i now empty_text) j),
  ),
)
