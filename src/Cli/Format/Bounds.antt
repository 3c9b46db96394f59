-- ===== src/Cli/Format/Bounds.antt =====
-- How exact FormatDuration is, and how long what TruncateString returns.
use durex.Prelude.{ℕ, ◌+◌, ◌*◌, ◌≤◌, ◌<◌, pos, arith}
use durex.Cli.Format.{
  DurationText, in_milliseconds, in_seconds, in_minutes, in_hours, format_duration,
}

-- the milliseconds that a text stands for, and those of its last unit
abbrev pub read_duration : DurationText → ℕ
read_duration (in_milliseconds (pos n)) = n
read_duration (in_milliseconds _) = 0
read_duration (in_seconds s) = s * 1000
read_duration (in_minutes m s) = m * 60000 + s * 1000
read_duration (in_hours h m) = h * 3600000 + m * 60000

abbrev pub unit_of : DurationText → ℕ
unit_of (in_milliseconds n) = 1
unit_of (in_seconds s) = 1000
unit_of (in_minutes m s) = 1000
unit_of (in_hours h m) = 60000

-- the parts below the first are within their range
abbrev pub InRange : DurationText → Type 0
InRange (in_milliseconds (pos n)) = n < 1000
InRange (in_milliseconds _) = Unit
InRange (in_seconds s) = (1 ≤ s) × (s < 60)
InRange (in_minutes m s) = (1 ≤ m) × (m < 60) × (s < 60)
InRange (in_hours h m) = (1 ≤ h) × (m < 60)

-- A duration that is not negative is shown rounded down to the last unit of its text, by less than
-- one of that unit, and every part of the text is in the range of its unit.
pub read-format_duration :
    (ms : ℕ)
    → let text = format_duration (pos ms) in
      (read_duration text ≤ ms) × (ms < read_duration text + unit_of text) × InRange text
unfolding format_duration
read-format_duration ms = ground arith
