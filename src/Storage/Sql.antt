-- ===== src/Storage/Sql.antt =====
-- storage/sqlite.go, storage/postgres.go: the table of commands, and the SQL that both storages run
-- on it. The database engine is a parameter: JSON columns, time columns, and the comparisons that a
-- query leaves to it. A statement fails as a whole when the database is at fault. A JSON column
-- holds a JSON text, and NULL stands for an empty one too.
pub mod Rows
pub mod Kept
pub mod Table
pub mod Order
pub mod Sqlite
pub mod Postgres
use durex.Prelude.{
  ℕ, ◌*◌, ℤ, pos, negsuc, ltb_ℤ, String, Bool, true, false, not, ◌&&◌, ◌||◌, Option, none, some,
  List, [], ◌∷◌, Dict, map, select, take, drop, length, ◌==◌, if◌then◌else◌,
}
use durex.Text.{Text, lit, empty_text}
use durex.Status.{Status, same, pending, started, repeating}
use durex.Instance.{Instance}
use durex.Storage.{StorageError, Reply, ok, err, backend, not_found, Query}

pub record Row (Json Time : Type 0) : Type 0 where
  pub id : String
  pub name : String
  pub payload : Option Json
  pub status : Status
  pub retries : ℤ
  pub sequence : Option Json
  pub parent_id : Option String
  pub priority : ℤ
  pub tags : Option Json
  pub unique_key : Option String
  pub trace_id : Option String
  pub correlation_id : Option String
  pub created_at : Time
  pub ready_at : Time
  pub started_at : Option Time
  pub completed_at : Option Time
  pub deadline_at : Option Time
  pub period_ns : ℤ
  pub cron : Option String
  pub error : Option Text
  pub attempt : ℤ
  pub metadata : Option Json

pub record Engine (Any : Type 0) : Type 1 where
  pub Json : Type 0
  -- json.Marshal and json.Unmarshal of a map; `none` when they fail
  pub marshal : Option (Dict Any) → Option Json
  pub unmarshal : Json → Option (Option (Dict Any))
  -- those of a []string, whose Marshal does not fail
  pub marshal_list : List String → Json
  pub unmarshal_list : Json → Option (List String)
  -- the test of Find for a tag: LIKE on the JSON text in SQLite, @> in PostgreSQL
  pub mentions : Json → String → Bool
  -- the column's form of a time, and the way back; `none` when it does not parse
  pub Time : Type 0
  pub format : ℤ → Time
  pub parse : Time → Option ℤ
  -- `<` of the column's type
  pub before : Time → Time → Bool
  -- `<` of an ORDER BY on the column of that name
  pub column_before : String → Row Json Time → Row Json Time → Bool

-- the table, and the error that the database would answer with
pub record Database (Json Time : Type 0) : Type 0 where
  pub rows : List (Row Json Time)
  pub fault : Option Text

-- nullStr, on a string and on an error message
abbrev pub null_str : String → Option String
null_str s = if s == "" then none else some s

abbrev pub null_text : Text → Option Text
null_text (lit s) = if s == "" then none else some (lit s)
null_text t = some t

-- a NullString into a Go string, which is empty at first
abbrev pub or_empty : Option String → String
or_empty none = ""
or_empty (some s) = s

abbrev pub or_empty_text : Option Text → Text
or_empty_text none = empty_text
or_empty_text (some t) = t

-- status IN ('PENDING', 'STARTED', 'REPEATING')
abbrev pub is_in_progress : Status → Bool
is_in_progress s = same s pending || (same s started || same s repeating)

-- the columns that ORDER BY may name
abbrev pub allowed_column : String → Bool
allowed_column c =
    c == "id"
    || c == "name"
    || c == "status"
    || c == "priority"
    || c == "created_at"
    || c == "ready_at"
    || c == "started_at"
    || c == "completed_at"
    || c == "attempt"
    || c == "retries"

module _ {Json Time : Type 0} where
  -- SELECT … WHERE id = ?
  unfoldable pub row_of_id : String → List (Row Json Time) → Option (Row Json Time)
  row_of_id id [] = none
  row_of_id id (r ∷ rows) = if r.id == id then some r else row_of_id id rows

  -- UPDATE … WHERE id = ?
  unfoldable pub update_row :
      String → (Row Json Time → Row Json Time) → List (Row Json Time) → List (Row Json Time)
  update_row id f [] = []
  update_row id f (r ∷ rows) =
      let rest = update_row id f rows in (if r.id == id then f r else r) ∷ rest

  -- DELETE … WHERE id = ?
  unfoldable pub delete_row : String → List (Row Json Time) → List (Row Json Time)
  delete_row id rows = select (λ r. not (r.id == id)) rows

  -- ORDER BY: rows that compare equal stay in the table's order
  unfoldable pub insert_by :
      (Row Json Time → Row Json Time → Bool)
      → Row Json Time
      → List (Row Json Time)
      → List (Row Json Time)
  insert_by less r [] = r ∷ []
  insert_by less r (s ∷ rows) =
      let rest = insert_by less r rows in if less s r then s ∷ rest else r ∷ s ∷ rows

  unfoldable pub order_by :
      (Row Json Time → Row Json Time → Bool) → List (Row Json Time) → List (Row Json Time)
  unfolding insert_by
  order_by less [] = []
  order_by less (r ∷ rows) = insert_by less r (order_by less rows)

  -- ORDER BY priority DESC, ready_at ASC
  unfoldable pub more_urgent : (Time → Time → Bool) → Row Json Time → Row Json Time → Bool
  more_urgent before a b =
      if ltb_ℤ b.priority a.priority
      then true
      else if ltb_ℤ a.priority b.priority
      then false
      else before a.ready_at b.ready_at
