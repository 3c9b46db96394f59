-- ===== src/Env.antt =====
-- What the program takes from outside: the values of Go's `any` with their JSON form
-- (encoding/json), the cron parser (robfig/cron) and the source of ids (id.go's IDGenerator).
use durex.Prelude.{ℕ, ℤ, String, Bool, Option, List, Dict}
use durex.Spec.{Spec}

pub record Env : Type 1 where
  pub Any : Type 0
  -- json.Marshal, then json.Unmarshal into a map; `none` when either of them fails
  pub round_trip : Dict Any → Option (Dict Any)
  -- values as the program puts them into a map
  pub of_int : ℤ → Any
  pub of_string : String → Any
  pub of_strings : List String → Any
  pub of_spec : Spec Any → Any
  -- type assertions: v.(string) and so on; those of numbers are converted to int
  pub as_string : Any → Option String
  pub as_bool : Any → Option Bool
  pub as_int : Any → Option ℤ
  pub as_int64 : Any → Option ℤ
  pub as_float64 : Any → Option ℤ
  pub as_slice : Any → Option (List Any)
  pub as_map : Any → Option (Dict Any)
  -- json.Unmarshal of one field into a struct; `none` when the value does not fit
  pub to_int : Any → Option ℤ
  pub to_string : Any → Option String
  pub to_strings : Any → Option (List String)
  pub to_spec : Any → Option (Spec Any)
  -- cron.Parser.Parse, and Schedule.Next, which returns the zero time (`none`) if there is no next
  pub Schedule : Type 0
  pub parse_schedule : String → Option Schedule
  pub next_after : Schedule → ℤ → Option ℤ
  -- the id that the generator returns at its n-th call
  pub generated : ℕ → String
