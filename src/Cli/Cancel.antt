-- ===== src/Cli/Cancel.antt =====
-- cmd/durex/commands/cancel.go: `durex cancel`, by id or by tag.
pub mod Tagged
use durex.Prelude.{
  ℕ, suc, ℤ, String, not, Option, none, some, List, [], ◌∷◌, ◌==◌, length, if◌then◌else◌,
}
use durex.Text.{Text, lit, cancelled_by_cli}
use durex.Status.{Status, is_terminal}
use durex.Event.{EventType}
use durex.Instance.{Instance, record_event}
use durex.Storage.{Storage, ok, err, any_query}
use durex.Cli.{
  Dialect, Answer, printed, failed, failed_to, already_terminal, id_or_tag_required,
  tags_need_queries, get_command, cancel_command, find_commands, on_storage,
}

-- the flags, with the id that an empty --tag makes necessary
pub record CancelOptions : Type 0 where
  pub tag : String
  pub id : String

pub data Cancelled : Type 0 where
  -- the id, the name and the status that it had
  cancelled_id : String → String → Status → Cancelled
  none_tagged : String → Cancelled
  -- how many commands have the tag, and how many were cancelled
  cancelled_tag : String → ℕ → ℕ → Cancelled

-- Parse after the flags: the value of --tag and the arguments that are left
unfoldable pub options_of : String → List String → Answer CancelOptions
options_of tag remaining =
    if tag == ""
    then elim remaining [
      | [] ↦ failed id_or_tag_required
      | id ∷ rest ↦ printed (record { tag = tag; id = id })
    ]
    else printed (record { tag = tag; id = "" })

unfoldable pub as_cancelled : {V : Type 0} → Instance V → ℤ → Text → Instance V
unfolding record_event
as_cancelled i now message =
    record_event (record i { status = Status.cancelled; completed_at = some now })
      EventType.cancelled now message

module _ {V : Type 0} (st : Storage V) where
  unfoldable pub cancel_by_id : String → ℤ → st.State → Answer Cancelled × st.State
  cancel_by_id id now s = elim (st.get s id) [
    | err x ↦ (failed (failed_to get_command x), s)
    | ok i ↦
        if is_terminal i.status
        then (failed (already_terminal i.status), s)
        else (let (reply, s') = st.update s (as_cancelled i now (lit "cancelled via CLI")) in
            elim reply [
              | err x ↦ (failed (failed_to cancel_command x), s')
              | ok _ ↦ (printed (cancelled_id i.id i.name i.status), s')
            ])
  ]

  -- the loop: how many were cancelled; a write that fails is reported and skipped
  unfoldable pub cancel_each : String → ℤ → st.State → List (Instance V) → ℕ × st.State
  cancel_each tag now s [] = (0, s)
  cancel_each tag now s (i ∷ is) =
      let (reply, s') = st.update s (as_cancelled i now (cancelled_by_cli tag)) in
      let skipped = cancel_each tag now s is in
      let written = cancel_each tag now s' is in
      if is_terminal i.status
      then skipped
      else elim reply [ err x ↦ written | ok _ ↦ (suc written.0, written.1) ]

  unfoldable pub cancel_by_tag : String → ℤ → st.State → Answer Cancelled × st.State
  cancel_by_tag tag now s = elim st.find [
    | none ↦ (failed tags_need_queries, s)
    | some find ↦ elim (find s (record any_query { tags = tag ∷ [] })) [
      | err x ↦ (failed (failed_to find_commands x), s)
      | ok [] ↦ (printed (none_tagged tag), s)
      | ok (i ∷ is) ↦
          let (n, s') = cancel_each tag now s (i ∷ is) in
          (printed (cancelled_tag tag (length (i ∷ is)) n), s')
    ]
  ]

  unfoldable pub run : Answer Dialect → CancelOptions → ℤ → st.State → Answer Cancelled × st.State
  unfolding cancel_by_id cancel_by_tag
  run connected options now s =
      on_storage connected s
        (if options.tag == "" then cancel_by_id options.id now else cancel_by_tag options.tag now)
