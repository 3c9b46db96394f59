-- ===== src/Cli/Details.antt =====
-- cmd/durex/commands/get.go: `durex get`, as the lines that it prints. Times are printed by
-- time.Format, values by encoding/json.
use durex.Prelude.{
  ℤ, pos, ◌-ℤ◌, ltb_ℤ, is_zero, String, Bool, true, false, not, ◌&&◌, Option, none, some, List, [],
  ◌∷◌, ◌++◌, map, Dict, ◌==◌, if◌then◌else◌,
}
use durex.Text.{Text, lit}
use durex.Status.{Status}
use durex.Event.{Event, EventType}
use durex.Spec.{made}
use durex.Instance.{Instance}
use durex.Storage.{Storage, ok, err}
use durex.Cli.{
  Dialect, Answer, printed, failed, failed_to, unknown_format, marshal_failed, get_command,
  on_storage,
}
use durex.Cli.Format.{Bytes, bytes, DurationText, format_duration, truncate_string}

pub record EventRow : Type 0 where
  pub timestamp : ℤ
  pub type : EventType
  pub attempt : ℤ
  -- `none` is the empty text
  pub duration : Option DurationText
  pub message : Bytes

pub data Line (V : Type 0) : Type 0 where
  id_is name_is unique_key_is trace_id_is correlation_id_is parent_id_is cron_is : String → Line V
  status_is : Status → Line V
  attempt_is retries_is priority_is : ℤ → Line V
  created_is ready_is started_is completed_is duration_is deadline_is : ℤ → Line V
  timeout_is period_is : ℤ → Line V
  tags_are sequence_is : List String → Line V
  error_is : Text → Line V
  data_is metadata_is : Dict V → Line V
  history_is : List EventRow → Line V

pub data Shown (V : Type 0) : Type 0 where
  table : List (Line V) → Shown V
  json : String → Shown V

-- one statement `if c { print }`, with nothing where there is no value
abbrev when {ℓ} : {A : Type ℓ} → Bool → A → List A
when true line = line ∷ []
when false line = []

abbrev given {ℓ κ} : {A : Type ℓ} {B : Type κ} → Option A → (A → B) → List B
given none line = []
given (some a) line = line a ∷ []

abbrev nonempty {ℓ} : {A : Type ℓ} → List A → Bool
nonempty [] = false
nonempty (x ∷ xs) = true

-- comparison with the empty message
abbrev is_empty_text : Text → Bool
is_empty_text (lit s) = s == ""
is_empty_text _ = false

unfoldable pub event_row : (Text → String) → Event → EventRow
event_row shown e = record {
  timestamp = e.timestamp;
  type = e.type;
  attempt = e.attempt;
  duration = if ltb_ℤ (pos 0) e.duration_ms then some (format_duration e.duration_ms) else none;
  message =
      truncate_string (bytes (shown (if is_empty_text e.error then e.message else e.error))) 50;
}

module _ {V : Type 0} where
  completion_lines : Instance V → List (Line V)
  completion_lines cmd = elim cmd.completed_at [
    | none ↦ []
    | some c ↦ completed_is c ∷ given cmd.started_at (λ s. duration_is (c -ℤ s))
  ]

  unfoldable pub print_table : (Text → String) → Bool → Instance V → List (Line V)
  unfolding completion_lines
  print_table shown with_history cmd =
      id_is cmd.id
      ∷ name_is cmd.name
      ∷ status_is cmd.status
      ∷ attempt_is cmd.attempt
      ∷ retries_is cmd.retries
      ∷ (when (not (is_zero cmd.priority)) (priority_is cmd.priority)
          ++ (when (nonempty cmd.tags) (tags_are cmd.tags)
              ++ (when (not (cmd.unique_key == "")) (unique_key_is cmd.unique_key)
                  ++ (when (not (cmd.trace_id == "")) (trace_id_is cmd.trace_id)
                      ++ (when (not (cmd.correlation_id == ""))
                            (correlation_id_is cmd.correlation_id)
                          ++ (given cmd.parent_id parent_id_is ++ times))))))
    where
      extras : List (Line V)
      extras =
          when (nonempty (made cmd.payload)) (data_is (made cmd.payload))
          ++ (when (nonempty (made cmd.metadata)) (metadata_is (made cmd.metadata))
              ++ when (with_history && nonempty cmd.history)
                  (history_is (map (event_row shown) cmd.history)))

      settings : List (Line V)
      settings =
          given cmd.deadline_at deadline_is
          ++ (when (ltb_ℤ (pos 0) cmd.timeout) (timeout_is cmd.timeout)
              ++ (when (ltb_ℤ (pos 0) cmd.period) (period_is cmd.period)
                  ++ (when (not (cmd.cron == "")) (cron_is cmd.cron)
                      ++ (when (nonempty cmd.sequence) (sequence_is cmd.sequence)
                          ++ (when (not (is_empty_text cmd.error)) (error_is cmd.error)
                              ++ extras)))))

      times : List (Line V)
      times =
          created_is cmd.created_at
          ∷ ready_is cmd.ready_at
          ∷ (given cmd.started_at started_is ++ (completion_lines cmd ++ settings))

-- json.MarshalIndent of an instance, or its error
pub data Marshalled : Type 0 where
  marshalled : String → Marshalled
  unmarshallable : Text → Marshalled

module _ {V : Type 0} (st : Storage V) (shown : Text → String)
    (marshal : Instance V → Marshalled) where
  unfoldable pub output : String → Bool → Instance V → Answer (Shown V)
  unfolding print_table
  output format with_history cmd =
      if format == "table"
      then printed (table (print_table shown with_history cmd))
      else if format == "json"
      then elim (marshal cmd) [
        | marshalled text ↦ printed (json text)
        | unmarshallable t ↦ failed (marshal_failed t)
      ]
      else failed (unknown_format format)

  unfoldable pub run :
      Answer Dialect → String → Bool → String → st.State → Answer (Shown V) × st.State
  unfolding output
  run connected format with_history id s = on_storage connected s λ s'. (
    elim (st.get s' id) [
      | err x ↦ failed (failed_to get_command x)
      | ok i ↦ output format with_history i
    ],
    s',
  )
