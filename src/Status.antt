-- ===== src/Status.antt =====
-- status.go: the execution states of a command, and the two classes of them.
use durex.Prelude.{String, Bool, true, false, ◌==◌, if◌then◌else◌}

pub data Status : Type 0 where
  pending started completed failed expired repeating cancelled dead_letter : Status

unfoldable pub is_terminal : Status → Bool
is_terminal completed = true
is_terminal failed = true
is_terminal expired = true
is_terminal cancelled = true
is_terminal dead_letter = true
is_terminal _ = false

unfoldable pub is_active : Status → Bool
is_active pending = true
is_active started = true
is_active repeating = true
is_active _ = false

-- s == t, on the strings that stand for the states
unfoldable pub same : Status → Status → Bool
same pending pending = true
same started started = true
same completed completed = true
same failed failed = true
same expired expired = true
same repeating repeating = true
same cancelled cancelled = true
same dead_letter dead_letter = true
same _ _ = false

-- A text that is used as a Status: the name of a state, or any other. Texts of the second kind are
-- not told apart, since they are only compared with the states of commands.
pub data StatusText : Type 0 where
  named : Status → StatusText
  unnamed : StatusText

-- s == t, where t is such a text
abbrev pub is_status : Status → StatusText → Bool
is_status s (named t) = same s t
is_status s unnamed = false

-- Status(t)
abbrev pub status_text : String → StatusText
status_text t =
    if t == "PENDING"
    then named pending
    else if t == "STARTED"
    then named started
    else if t == "COMPLETED"
    then named completed
    else if t == "FAILED"
    then named failed
    else if t == "EXPIRED"
    then named expired
    else if t == "REPEATING"
    then named repeating
    else if t == "CANCELLED"
    then named cancelled
    else if t == "DEAD_LETTER"
    then named dead_letter
    else unnamed
