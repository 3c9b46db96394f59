-- ===== src/Cli/Format.antt =====
-- cmd/durex/commands/common.go: FormatDuration and TruncateString. A Go string is its UTF-8 bytes.
pub mod Bounds
use Prim.Native.Char.{code}
use durex.Prelude.{
  ℕ, ◌+◌, ◌-◌, ◌*◌, ◌/◌, ◌%◌, ℤ, pos, negsuc, String, List, [], ◌∷◌, ◌++◌, ltb, leb, length, take,
  if◌then◌else◌,
}

abbrev pub Bytes : Type 0
Bytes = List ℕ

-- the bytes of one code point
unfoldable pub encode_rune : ℕ → Bytes
encode_rune c =
    if ltb c 0x80
    then c ∷ []
    else if ltb c 0x800
    then (0xc0 + c / 64) ∷ (0x80 + c % 64) ∷ []
    else if ltb c 0x10000
    then (0xe0 + c / 4096) ∷ (0x80 + c / 64 % 64) ∷ (0x80 + c % 64) ∷ []
    else (0xf0 + c / 262144) ∷ (0x80 + c / 4096 % 64) ∷ (0x80 + c / 64 % 64) ∷ (0x80 + c % 64) ∷ []

unfoldable pub bytes : String → Bytes
unfolding encode_rune
bytes String.[] = []
bytes (String.◌∷◌ c s) = encode_rune (code c) ++ bytes s

-- The numbers that the format shows: %dms, %ds, %dm%ds, %dh%dm.
pub data DurationText : Type 0 where
  in_milliseconds : ℤ → DurationText
  in_seconds : ℕ → DurationText
  in_minutes in_hours : ℕ → ℕ → DurationText

unfoldable pub format_duration : ℤ → DurationText
format_duration (negsuc n) = in_milliseconds (negsuc n)
format_duration (pos ms) =
    let seconds = ms / 1000 in
    let minutes = seconds / 60 in
    let hours = minutes / 60 in
    if ltb ms 1000
    then in_milliseconds (pos ms)
    else if ltb seconds 60
    then in_seconds seconds
    else if ltb minutes 60
    then in_minutes minutes (seconds % 60)
    else in_hours hours (minutes % 60)

-- maxLen - 3 is not negative: the callers pass 20, 30 and 50
unfoldable pub truncate_string : Bytes → ℕ → Bytes
truncate_string s max_len =
    if leb (length s) max_len then s else take (max_len - 3) s ++ b'.' ∷ b'.' ∷ b'.' ∷ []
