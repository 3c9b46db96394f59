-- ===== src/Cli/Cancel/Tagged.antt =====
-- What `durex cancel --tag` does to the stored commands: the loop over the commands that the query
-- returned, with its count.
use durex.Prelude.{
  ℤ, String, ◌≡◌, Bool, true, not, Option, none, some, is_some, List, [], ◌∷◌, ◌++◌, arith, ◌==◌,
  eq_iff, if◌then◌else◌,
}
use durex.Text.{cancelled_by_cli}
use durex.Status.{Status, is_terminal}
use durex.Event.{EventType, plain_event}
use durex.Instance.{Instance}
use durex.Storage.{Storage, is_ok}
use durex.Storage.Laws.{StorageLaws}
use durex.Cli.Cancel.{as_cancelled}

module _ {V : Type 0} where
  -- the first command of that id
  abbrev pub with_id : String → List (Instance V) → Option (Instance V)
  with_id j [] = none
  with_id j (i ∷ is) = if i.id == j then some i else with_id j is

  abbrev pub DistinctIds : List (Instance V) → Type 0
  DistinctIds [] = Unit
  DistinctIds (i ∷ is) = (with_id i.id is ≡ none) × DistinctIds is

  abbrev pub is_live : Instance V → Bool
  is_live i = not (is_terminal i.status)

module _ {V : Type 0} (st : Storage V) (laws : StorageLaws st) where
  abbrev pub IsKnown : st.State → Instance V → Type 0
  IsKnown s i = is_some (laws.view s i.id) ≡ true

  -- what a later read of `j` gives after the cancellation of the commands `is`
  abbrev pub after_cancel : String → ℤ → List (Instance V) → st.State → String → Option (Instance V)
  after_cancel tag now is s j = elim (with_id j is) [
    | none ↦ laws.view s j
    | some i ↦
        if is_live i
        then some (
            laws.stored (record i {
              status = Status.cancelled;
              completed_at = some now;
              history =
                  i.history
                  ++ plain_event EventType.cancelled now i.attempt (cancelled_by_cli tag) ∷ [];
            }))
        else laws.view s j
  ]

  module _ (IsOpen : st.State → Type 0)
      (update_open : (s : st.State) (i : Instance V)
        → IsOpen s
        → is_some (laws.view s i.id) ≡ true
        → (is_ok (st.update s i).0 ≡ true) × IsOpen (st.update s i).1) where
    -- the write of one command, which was found before the loop
    cancel_one :
        (tag : String) (now : ℤ) (s : st.State) (i : Instance V) (is : List (Instance V))
        (j : String)
        → is_live i ≡ true
        → is_ok (st.update s (as_cancelled i now (cancelled_by_cli tag))).0 ≡ true
        → with_id i.id is ≡ none
        → after_cancel tag now is (st.update s (as_cancelled i now (cancelled_by_cli tag))).1 j
          ≡ after_cancel tag now (i ∷ is) s j
    unfolding as_cancelled
    cancel_one tag now s i is j l a f =
        ground
          (arith, eq_iff i.id j, laws.update_view s (as_cancelled i now (cancelled_by_cli tag)) j)
