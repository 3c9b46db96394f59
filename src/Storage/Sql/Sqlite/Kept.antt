-- ===== src/Storage/Sql/Sqlite/Kept.antt =====
-- What SQLite keeps of a command.
use durex.Prelude.{
  if◌then◌else◌, String, ◌≡◌, refl, true, arith, eq_iff, ◌==◌, Option-cases, inl, inr,
}
use durex.Instance.{Instance}
use durex.Storage.{Reply-cases, ok, is_ok}
use durex.Storage.Sql.{Row, Engine, Database, row_of_id, null_text}
use durex.Storage.Sql.Table.{row_of_id-update_row, row_of_id_same}
use durex.Storage.Sql.Rows.{to_row, populate_instance}
use durex.Storage.Sql.Kept.{Codec, kept, populate_instance-to_row}
use durex.Storage.Sql.Sqlite.{create, update, get, assign}

module _ {Any : Type 0} (engine : Engine Any) (codec : Codec engine) where
  open engine use {Json, Time}

  populate_instance-assign :
      (row was : Row Json Time) (cmd old : Instance Any)
      → was.id ≡ row.id
      → populate_instance engine row ≡ ok cmd
      → populate_instance engine was ≡ ok old
      → populate_instance engine (assign engine row was)
        ≡ ok (record cmd { created_at = old.created_at })
  unfolding populate_instance
  populate_instance-assign row was cmd old same_id h g = ground arith

  -- What is read after a Create that SQLite accepts: the command, without its timeout and history
  -- and with its maps and times as JSON and the columns give them back; every other id as before.
  -- JSON and the columns must give back an image of what was written.
  pub get-create :
      (db : Database Json Time) (cmd : Instance Any) (j : String)
      → is_ok (create engine db cmd).0 ≡ true
      → get engine (create engine db cmd).1 j
        ≡ (if cmd.id == j then ok (kept engine codec cmd) else get engine db j)
  unfolding create get row_of_id
  get-create db cmd j h = elim (Reply-cases (to_row engine null_text cmd)) [
    | inl (x, e) ↦ ground arith
    | inr (row, e) ↦ ground (arith, populate_instance-to_row engine codec cmd row e)
  ]

  -- What is read after an Update that SQLite accepts of a command that it can read: the command,
  -- as after a Create, but with the time of creation that was stored; every other id as before.
  -- JSON and the columns must give back an image of what was written.
  pub get-update :
      (db : Database Json Time) (cmd old : Instance Any) (j : String)
      → is_ok (update engine db cmd).0 ≡ true
      → get engine db cmd.id ≡ ok old
      → get engine (update engine db cmd).1 j ≡ (
          if cmd.id == j
          then ok (record (kept engine codec cmd) { created_at = old.created_at })
          else get engine db j)
  unfolding update get
  get-update db cmd old j h o = elim (Reply-cases (to_row engine null_text cmd)) [
    | inl (x, e) ↦ ground arith
    | inr (row, e) ↦ elim (Option-cases (row_of_id cmd.id db.rows)) [
      | inl m ↦ ground arith
      | inr (was, m) ↦ ground (
        arith,
        eq_iff cmd.id j,
        row_of_id_same cmd.id was db.rows m,
        row_of_id-update_row cmd.id j (assign engine row) db.rows (λ r. refl),
        populate_instance-to_row engine codec cmd row e,
        populate_instance-assign row was (kept engine codec cmd) old,
      )
    ]
  ]
