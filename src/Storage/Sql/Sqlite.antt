-- ===== src/Storage/Sql/Sqlite.antt =====
-- storage/sqlite.go: the operations, each one SQL statement. SQLite does not enforce the foreign key
-- on the parent, which is off by default. Migrate and OpenSQLite set the database up.
pub mod Kept
use durex.Prelude.{
  ℕ, ℤ, pos, ◌-ℤ◌, ltb_ℤ, pos_part, String, Bool, true, false, not, ◌&&◌, is_some, Option, none,
  some, List, [], ◌∷◌, select, take, drop, length, tally, ◌==◌, if◌then◌else◌,
}
use durex.Text.{lit}
use durex.Status.{StatusText, is_status, Status, same, is_terminal}
use durex.Instance.{Instance}
use durex.Env.{Env}
use durex.Storage.{Storage, Reply, ok, err, backend, not_found, already_exists, Query}
use durex.Storage.Sql.{
  Row, Engine, Database, row_of_id, update_row, delete_row, order_by, more_urgent, is_in_progress,
  null_text, allowed_column,
}
use durex.Storage.Sql.Rows.{to_row, populate_instance, scan_all}

module _ {Any : Type 0} (engine : Engine Any) where
  open engine use {Json, Time, format, before, mentions, column_before}

  -- ExecContext: a statement on the rows, unless the database is at fault
  abbrev exec {ℓ} :
      {A : Type ℓ}
      → Database Json Time
      → (List (Row Json Time) → Reply A × List (Row Json Time))
      → Reply A × Database Json Time
  exec db statement = elim db.fault [
    | some t ↦ (err (backend t), db)
    | none ↦ let (reply, rows) = statement db.rows in (reply, record db { rows = rows })
  ]

  -- QueryContext and QueryRowContext
  abbrev query {ℓ} : {A : Type ℓ} → Database Json Time → (List (Row Json Time) → Reply A) → Reply A
  query db read = elim db.fault [ some t ↦ err (backend t) | none ↦ read db.rows ]

  -- a violated primary key is "UNIQUE constraint"
  unfoldable pub create : Database Json Time → Instance Any → Reply (Unit {0}) × Database Json Time
  create db cmd = elim (to_row engine null_text cmd) [
    | err e ↦ (err e, db)
    | ok row ↦ exec db (λ rows.
        if is_some (row_of_id cmd.id rows) then (err already_exists, rows) else (ok tt, row ∷ rows))
  ]

  -- SET every column but the id and the time of creation
  abbrev pub assign : Row Json Time → Row Json Time → Row Json Time
  assign row old = record row { id = old.id; created_at = old.created_at }

  -- no row affected is ErrNotFound
  unfoldable pub update : Database Json Time → Instance Any → Reply (Unit {0}) × Database Json Time
  update db cmd = elim (to_row engine null_text cmd) [
    | err e ↦ (err e, db)
    | ok row ↦ exec db (λ rows.
        if is_some (row_of_id cmd.id rows)
        then (ok tt, update_row cmd.id (assign row) rows)
        else (err not_found, rows))
  ]

  unfoldable pub delete : Database Json Time → String → Reply (Unit {0}) × Database Json Time
  delete db id = exec db (λ rows. (ok tt, delete_row id rows))

  unfoldable pub get : Database Json Time → String → Reply (Instance Any)
  get db id = query db (λ rows. elim (row_of_id id rows) [
    | none ↦ err not_found
    | some r ↦ populate_instance engine r
  ])

  query_instances :
      Database Json Time
      → (List (Row Json Time) → List (Row Json Time))
      → Reply (List (Instance Any))
  query_instances db rows_of =
      query db (λ rows. scan_all engine (populate_instance engine) (rows_of rows))

  unfoldable pub is_pending : ℤ → Row Json Time → Bool
  is_pending now r = is_in_progress r.status && not (before (format now) r.ready_at)

  unfoldable pub find_pending : Database Json Time → ℤ → Reply (List (Instance Any))
  unfolding query_instances
  find_pending db now =
      query_instances db (λ rows. order_by (more_urgent before) (select (is_pending now) rows))

  unfoldable pub find_by_status : Database Json Time → StatusText → Reply (List (Instance Any))
  unfolding query_instances
  find_by_status db status = query_instances db (λ rows.
      order_by (λ a b. before b.created_at a.created_at)
        (select (λ r. is_status r.status status) rows))

  abbrev is_equal : Option String → String → Bool
  is_equal none s = false
  is_equal (some t) s = t == s

  unfoldable pub find_by_parent : Database Json Time → String → Reply (List (Instance Any))
  unfolding query_instances
  find_by_parent db parent_id = query_instances db (λ rows.
      order_by (λ a b. before a.created_at b.created_at)
        (select (λ r. is_equal r.parent_id parent_id) rows))

  unfoldable pub find_by_correlation_id : Database Json Time → String → Reply (List (Instance Any))
  unfolding query_instances
  find_by_correlation_id db correlation_id = query_instances db (λ rows.
      order_by (λ a b. before a.created_at b.created_at)
        (select (λ r. is_equal r.correlation_id correlation_id) rows))

  -- LIMIT 1 without an order: any row would do, here it is the first
  unfoldable pub find_by_unique_key : Database Json Time → String → Reply (Instance Any)
  find_by_unique_key db key = query db (λ rows.
      elim (select (λ r. is_equal r.unique_key key && is_in_progress r.status) rows) [
        | [] ↦ err not_found
        | r ∷ rest ↦ populate_instance engine r
      ])

  -- completed_at < ? does not hold of NULL
  unfoldable pub is_stale : Time → Row Json Time → Bool
  is_stale cutoff r =
      is_terminal r.status && elim r.completed_at [ none ↦ false | some t ↦ before t cutoff ]

  unfoldable pub cleanup : Database Json Time → ℤ → ℤ → Reply ℕ × Database Json Time
  cleanup db now older_than =
      let stale = is_stale (format (now -ℤ older_than)) in
      exec db (λ rows. (ok (tally stale rows), select (λ r. not (stale r)) rows))

  unfoldable pub count : Database Json Time → Option Status → Reply ℕ
  count db none = query db (λ rows. ok (length rows))
  count db (some status) = query db (λ rows. ok (tally (λ r. same r.status status) rows))

  abbrev holds {ℓ} : {A : Type ℓ} → Option A → (A → Bool) → Bool
  holds none p = true
  holds (some a) p = p a

  mentions_all : List String → Option Json → Bool
  mentions_all [] tags = true
  mentions_all (t ∷ ts) none = false
  mentions_all (t ∷ ts) (some j) = mentions j t && mentions_all ts (some j)

  -- the conditions of Find, joined with AND
  unfoldable pub matches_query : Query → Row Json Time → Bool
  unfolding mentions_all
  matches_query q r =
      holds q.status (λ s. is_status r.status s)
      && holds q.name (λ n. r.name == n)
      && holds q.parent_id (λ p. is_equal r.parent_id p)
      && mentions_all q.tags r.tags
      && holds q.created_after (λ t. before (format t) r.created_at)
      && holds q.created_before (λ t. before r.created_at (format t))

  abbrev pub natural_limit : ℤ → ℕ
  natural_limit n = pos_part n

  -- LIMIT and OFFSET, where they are positive
  unfoldable pub window : Query → List (Row Json Time) → List (Row Json Time)
  window q rows =
      let rest = if ltb_ℤ (pos 0) q.offset then drop (natural_limit q.offset) rows else rows in
      if ltb_ℤ (pos 0) q.limit then take (natural_limit q.limit) rest else rest

  unfoldable pub order_of : Query → Row Json Time → Row Json Time → Bool
  order_of q a b =
      let column = if q.order_by == "" then "created_at" else q.order_by in
      if q.order_desc then column_before column b a else column_before column a b

  unfoldable pub find : Database Json Time → Query → Reply (List (Instance Any))
  unfolding query_instances
  find db q =
      if not (q.order_by == "") && not (allowed_column q.order_by)
      then err (backend (lit "invalid order_by column"))
      else query_instances db
          (λ rows. window q (order_by (order_of q) (select (matches_query q) rows)))

-- it has no ClaimPending
abbrev pub sqlite : (env : Env) → Engine env.Any → Storage env.Any
sqlite env engine = record {
  State = Database engine.Json engine.Time;
  create = create engine;
  update = update engine;
  delete = delete engine;
  get = get engine;
  find_pending = find_pending engine;
  find_by_status = find_by_status engine;
  find_by_unique_key = find_by_unique_key engine;
  cleanup = cleanup engine;
  count = count engine;
  find = some (find engine);
  claim_pending = none;
}
