-- ===== src/Event.antt =====
-- event.go: the events of a command's history.
use durex.Prelude.{ℤ, pos}
use durex.Text.{Text, empty_text}

pub data EventType : Type 0 where
  created started completed failed retrying expired cancelled repeating recovered : EventType

pub record Event : Type 0 where
  pub type : EventType
  pub timestamp : ℤ
  pub attempt : ℤ
  pub error : Text
  pub duration_ms : ℤ
  pub message : Text

-- an event with no error and no duration, as the theorems describe one
abbrev pub plain_event : EventType → ℤ → ℤ → Text → Event
plain_event type timestamp attempt message = record {
  type = type;
  timestamp = timestamp;
  attempt = attempt;
  error = empty_text;
  duration_ms = pos 0;
  message = message;
}
