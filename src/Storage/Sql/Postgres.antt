-- ===== src/Storage/Sql/Postgres.antt =====
-- storage/postgres.go: the writes, Get and ClaimPending, each one SQL statement or transaction. PostgreSQL enforces the
-- foreign key on the parent, and clears it in the children of a deleted row. `locked` are the ids of
-- the rows that other transactions hold a lock on.
pub mod Claims
pub mod Effects
pub mod Exclusive
pub mod Batch
pub mod Transaction
pub mod Queries
use durex.Prelude.{
  ℕ, ℤ, pos, ◌+ℤ◌, ◌-ℤ◌, ltb, ltb_ℤ, int64, pos_part, String, Bool, true, false, not, ◌&&◌, ◌||◌,
  is_some, Option, none, some, List, [], ◌∷◌, map, select, take, drop, length, tally, ◌==◌,
  if◌then◌else◌,
}
use durex.Text.{Text, lit}
use durex.Status.{Status, same, is_terminal, pending, started, repeating}
use durex.Instance.{Instance}
use durex.Env.{Env}
use durex.Storage.{Storage, Reply, ok, err, backend, not_found, already_exists, Query}
use durex.Storage.Sql.{
  Row, Engine, Database, row_of_id, update_row, delete_row, order_by, more_urgent, is_in_progress,
  allowed_column,
}
use durex.Storage.Sql.Rows.{◌>>=◌, to_row, scan_instance, scan_all}

-- status IN ('PENDING', 'REPEATING')
abbrev pub claimable_status : Status → Bool
claimable_status s = same s pending || same s repeating

abbrev pub holds_id : List String → String → Bool
holds_id ids id = ltb 0 (tally (λ i. i == id) ids)

abbrev pub batch_size : ℤ → ℕ
batch_size limit = if ltb_ℤ (pos 0) limit then pos_part limit else 100

abbrev pub as_claimed : {Any : Type 0} → ℤ → Instance Any → Instance Any
as_claimed now i = record i {
  status = started;
  started_at = some now;
  attempt = int64 (i.attempt +ℤ pos 1);
}

abbrev pub ids_of : {Any : Type 0} → List (Instance Any) → List String
ids_of is = map (λ i. i.id) is

module _ {Any : Type 0} (engine : Engine Any) where
  open engine use {Json, Time, format, before, mentions, column_before}

  abbrev exec {ℓ} :
      {A : Type ℓ}
      → Database Json Time
      → (List (Row Json Time) → Reply A × List (Row Json Time))
      → Reply A × Database Json Time
  exec db statement = elim db.fault [
    | some t ↦ (err (backend t), db)
    | none ↦ let (reply, rows) = statement db.rows in (reply, record db { rows = rows })
  ]

  abbrev pub query {ℓ} :
      {A : Type ℓ} → Database Json Time → (List (Row Json Time) → Reply A) → Reply A
  query db read = elim db.fault [ some t ↦ err (backend t) | none ↦ read db.rows ]

  -- REFERENCES on parent_id; a row may be its own parent
  unfoldable pub parent_exists : Row Json Time → List (Row Json Time) → Bool
  parent_exists row rows = elim row.parent_id [
    | none ↦ true
    | some p ↦ row.id == p || is_some (row_of_id p rows)
  ]

  unfoldable pub create : Database Json Time → Instance Any → Reply (Unit {0}) × Database Json Time
  create db cmd = elim (to_row engine some cmd) [
    | err e ↦ (err e, db)
    | ok row ↦ exec db (λ rows.
        if is_some (row_of_id cmd.id rows)
        then (err already_exists, rows)
        else if parent_exists row rows
        then (ok tt, row ∷ rows)
        else (err (backend (lit "foreign key")), rows))
  ]

  abbrev pub assign : Row Json Time → Row Json Time → Row Json Time
  assign row old = record row { id = old.id; created_at = old.created_at }

  unfoldable pub update : Database Json Time → Instance Any → Reply (Unit {0}) × Database Json Time
  update db cmd = elim (to_row engine some cmd) [
    | err e ↦ (err e, db)
    | ok row ↦ exec db (λ rows.
        if is_some (row_of_id cmd.id rows)
        then (if parent_exists row rows
            then (ok tt, update_row cmd.id (assign row) rows)
            else (err (backend (lit "foreign key")), rows))
        else (err not_found, rows))
  ]

  -- ON DELETE SET NULL, for the rows that a predicate deletes
  unfoldable pub orphan : List (Row Json Time) → Row Json Time → Row Json Time
  orphan rows r = record r {
    parent_id = elim r.parent_id [
      | none ↦ none
      | some p ↦ if is_some (row_of_id p rows) then some p else none
    ];
  }

  unfoldable pub delete : Database Json Time → String → Reply (Unit {0}) × Database Json Time
  delete db id = exec db (λ rows. let rest = delete_row id rows in (ok tt, map (orphan rest) rest))

  unfoldable pub get : Database Json Time → String → Reply (Instance Any)
  get db id =
      query db (λ rows. elim (row_of_id id rows) [
        | none ↦ err not_found
        | some r ↦ scan_instance engine r
      ])

  unfoldable pub is_claimable : ℤ → Row Json Time → Bool
  is_claimable now r = claimable_status r.status && not (before (format now) r.ready_at)

  -- SELECT … LIMIT … FOR UPDATE SKIP LOCKED
  unfoldable pub claim_rows : List String → ℤ → ℤ → List (Row Json Time) → List (Row Json Time)
  claim_rows locked now limit rows = take (batch_size limit) (
      order_by (more_urgent before)
        (select (λ r. is_claimable now r && not (holds_id locked r.id)) rows))

  -- UPDATE … SET status = 'STARTED', started_at = NOW(), attempt = attempt + 1 WHERE id IN (…)
  unfoldable pub start_rows : List String → ℤ → List (Row Json Time) → List (Row Json Time)
  start_rows ids now [] = []
  start_rows ids now (r ∷ rows) =
      let rest = start_rows ids now rows in
      (if holds_id ids r.id
        then record r {
          status = started;
          started_at = some (format now);
          attempt = r.attempt +ℤ pos 1;
        }
        else r)
      ∷ rest

  -- the transaction is rolled back when a row cannot be read
  unfoldable pub claim_pending :
      List String → Database Json Time → ℤ → ℤ → Reply (List (Instance Any)) × Database Json Time
  claim_pending locked db now limit = elim db.fault [
    | some t ↦ (err (backend t), db)
    | none ↦ elim (scan_all engine (scan_instance engine) (claim_rows locked now limit db.rows)) [
      | err e ↦ (err e, db)
      | ok instances ↦ (
        ok (map (as_claimed now) instances),
        record db { rows = start_rows (ids_of instances) now db.rows },
      )
    ]
  ]

  unfoldable pub is_stale : Time → Row Json Time → Bool
  is_stale cutoff r =
      is_terminal r.status && elim r.completed_at [ none ↦ false | some t ↦ before t cutoff ]

  unfoldable pub cleanup : Database Json Time → ℤ → ℤ → Reply ℕ × Database Json Time
  cleanup db now older_than =
      let stale = is_stale (format (now -ℤ older_than)) in
      exec db (λ rows.
        let rest = select (λ r. not (stale r)) rows in
        (ok (tally stale rows), map (orphan rest) rest))
