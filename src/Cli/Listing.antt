-- ===== src/Cli/Listing.antt =====
-- cmd/durex/commands/list.go: `durex list`. Times are printed by time.Format and tables by
-- tabwriter; an error message is printed by `shown`.

pub mod Words
use Prim.Native.Nat.{compare, Ordering}
use Prim.Native.Char.{code}
use durex.Prelude.{
  ℕ, suc, ◌-◌, ℤ, pos, pos_part, leb, ltb, ltb_ℤ, String, Bool, true, false, not, ◌&&◌, ◌||◌,
  Option, none, some, List, [], ◌∷◌, map, length, ◌==◌, if◌then◌else◌,
}
use durex.Text.{Text}
use durex.Status.{
  StatusText, named, unnamed, status_text, Status, pending, started, completed, failed, expired,
  repeating, cancelled, dead_letter,
}
use durex.Instance.{Instance, has_tag}
use durex.Storage.{Storage, Reply, ok, err, Query, any_query}
use durex.Cli.{
  Dialect, Answer, printed, failed_to, unknown_format, query_commands, list_commands, on_storage,
}
use durex.Cli.Format.{Bytes, bytes, truncate_string}

-- the flags but those of the connection
pub record ListOptions : Type 0 where
  pub status : String
  pub name : String
  pub tag : String
  pub limit : ℤ
  pub format : String

pub record TableRow : Type 0 where
  pub id : Bytes
  pub name : Bytes
  pub status : Status
  pub created_at : ℤ
  pub attempt : ℤ
  pub error : Bytes

-- a line of the CSV, or the fields of a JSON object
pub record Item : Type 0 where
  pub id : String
  pub name : String
  pub status : Status
  pub created_at : ℤ
  pub attempt : ℤ
  pub error : Text

pub data Listed : Type 0 where
  no_commands : Listed
  -- the rows, and the number that the last line tells
  table : List TableRow → ℕ → Listed
  -- each object, and whether a comma follows it
  json : List (Item × Bool) → Listed
  csv : List Item → Listed

-- strings.ToUpper on a code point, as far as it gives an ASCII letter
unfoldable pub upper : ℕ → ℕ
upper c = if leb b'a' c && leb c b'z' then c - 32 else elim (compare c 0x131) [
  | Ordering.eq ↦ b'I'
  | _ ↦ elim (compare c 0x17f) [ Ordering.eq ↦ b'S' | _ ↦ c ]
]

unfoldable pub upper_codes : String → List ℕ
unfolding upper
upper_codes String.[] = []
upper_codes (String.◌∷◌ c s) = upper (code c) ∷ upper_codes s

-- the code points of a name
unfoldable pub is_text : List ℕ → String → Bool
is_text [] String.[] = true
is_text [] (String.◌∷◌ c s) = false
is_text (a ∷ l) String.[] = false
is_text (a ∷ l) (String.◌∷◌ c s) = elim (compare a (code c)) [
  | Ordering.eq ↦ is_text l s
  | _ ↦ false
]

-- Status(strings.ToUpper(s))
unfoldable pub status_of_upper : String → StatusText
unfolding is_text upper_codes
status_of_upper s =
    let l = upper_codes s in
    if is_text l "PENDING"
    then named pending
    else if is_text l "STARTED"
    then named started
    else if is_text l "COMPLETED"
    then named completed
    else if is_text l "FAILED"
    then named failed
    else if is_text l "EXPIRED"
    then named expired
    else if is_text l "REPEATING"
    then named repeating
    else if is_text l "CANCELLED"
    then named cancelled
    else if is_text l "DEAD_LETTER"
    then named dead_letter
    else unnamed

unfoldable pub query_of : ListOptions → Option StatusText → Query
query_of o status = record any_query {
  limit = o.limit;
  status = status;
  name = if o.name == "" then none else some o.name;
  tags = if o.tag == "" then [] else o.tag ∷ [];
}

module _ {V : Type 0} where
  -- the filters of the fallback; the limit is read after a command is kept
  unfoldable pub filter_commands : ListOptions → ℕ → List (Instance V) → List (Instance V)
  filter_commands o kept [] = []
  filter_commands o kept (cmd ∷ rest) =
      let skipped = filter_commands o kept rest in
      let more = filter_commands o (suc kept) rest in
      if not (o.name == "") && not (cmd.name == o.name)
      then skipped
      else if not (o.tag == "") && not (has_tag cmd o.tag)
      then skipped
      else if not (ltb_ℤ (pos (suc kept)) o.limit)
      then cmd ∷ []
      else cmd ∷ more

  unfoldable pub item_of : Instance V → Item
  item_of cmd = record {
    id = cmd.id;
    name = cmd.name;
    status = cmd.status;
    created_at = cmd.created_at;
    attempt = cmd.attempt;
    error = cmd.error;
  }

  unfoldable pub row_of : (Text → String) → Instance V → TableRow
  row_of shown cmd = record {
    id = truncate_string (bytes cmd.id) 20;
    name = truncate_string (bytes cmd.name) 20;
    status = cmd.status;
    created_at = cmd.created_at;
    attempt = cmd.attempt;
    error = truncate_string (bytes (shown cmd.error)) 30;
  }

  unfoldable pub print_table : (Text → String) → List (Instance V) → Listed
  unfolding row_of
  print_table shown [] = no_commands
  print_table shown (cmd ∷ cmds) = table (map (row_of shown) (cmd ∷ cmds)) (length (cmd ∷ cmds))

  -- the loop, at index i of `total` commands
  unfoldable pub json_items : ℕ → ℕ → List (Instance V) → List (Item × Bool)
  unfolding item_of
  json_items i total [] = []
  json_items i total (cmd ∷ cmds) = (item_of cmd, ltb i (total - 1)) ∷ json_items (suc i) total cmds

  unfoldable pub print_json : List (Instance V) → Listed
  unfolding json_items
  print_json cmds = json (json_items 0 (length cmds) cmds)

  unfoldable pub print_csv : List (Instance V) → Listed
  unfolding item_of
  print_csv cmds = csv (map item_of cmds)

  unfoldable pub output : (Text → String) → String → List (Instance V) → Answer Listed
  unfolding print_table print_json print_csv
  output shown format cmds =
      if format == "table"
      then printed (print_table shown cmds)
      else if format == "json"
      then printed (print_json cmds)
      else if format == "csv"
      then printed (print_csv cmds)
      else Answer.failed (unknown_format format)

module _ {V : Type 0} (st : Storage V) where
  -- with a QueryableStorage: the status is the flag's text
  unfoldable pub queried :
      (st.State → Query → Reply (List (Instance V)))
      → ListOptions
      → st.State
      → Answer (List (Instance V))
  unfolding query_of
  queried find o s =
      let answer : Reply (List (Instance V)) =
        find s (query_of o (if o.status == "" then none else some (status_text o.status))) in
      elim answer [ err x ↦ Answer.failed (failed_to query_commands x) | ok l ↦ printed l ]

  -- without: the status is the flag's text in upper case
  unfoldable pub fallback : ListOptions → ℤ → st.State → Answer (List (Instance V))
  unfolding filter_commands status_of_upper
  fallback o now s =
      let answer : Reply (List (Instance V)) =
        if o.status == ""
        then st.find_pending s now
        else st.find_by_status s (status_of_upper o.status) in
      elim answer [
        | err x ↦ Answer.failed (failed_to list_commands x)
        | ok l ↦ printed (filter_commands o 0 l)
      ]

  unfoldable pub list_commands_of : ListOptions → ℤ → st.State → Answer (List (Instance V))
  unfolding queried fallback
  list_commands_of o now s = elim st.find [ some find ↦ queried find o s | none ↦ fallback o now s ]

  unfoldable pub run :
      (Text → String) → Answer Dialect → ListOptions → ℤ → st.State → Answer Listed × st.State
  unfolding list_commands_of output
  run shown connected o now s = on_storage connected s λ s'. (
    elim (list_commands_of o now s') [
      | Answer.failed x ↦ Answer.failed x
      | printed cmds ↦ output shown o.format cmds
    ],
    s',
  )
