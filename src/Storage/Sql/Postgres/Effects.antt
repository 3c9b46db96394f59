-- ===== src/Storage/Sql/Postgres/Effects.antt =====
-- What the statements of PostgreSQL do to the rows of an id.
use durex.Prelude.{
  ◌+◌, ◌≤◌, ◌<◌, ℤ, String, ◌≡◌, ◌≢◌, refl, Bool, true, false, not, ◌&&◌, some, List, [], ◌∷◌, ◌++◌,
  map, select, tally, arith, eq_iff, ◌==◌, inl, inr,
}
use durex.Instance.{Instance}
use durex.Storage.{ok, Reply-cases}
use durex.Storage.Sql.{Row, Engine, Database, row_of_id, delete_row, order_by, more_urgent}
use durex.Storage.Sql.Table.{
  id_is, tally-select_le, tally-take_le, tally-order_by, row_of_id-select, row_of_id-update_row,
  row_of_id-none, tally-update_row, tally-map, row_of_id-map, row_of_id-delete_row,
}
use durex.Storage.Sql.Rows.{to_row}
use durex.Storage.Sql.Postgres.{
  claimable_status, is_claimable, holds_id, batch_size, claim_rows, as_claimed, ids_of, create,
  update, delete, orphan, assign,
}
use durex.Storage.Sql.Postgres.Claims.{held_times, claimable_of}

module _ {Any : Type 0} (engine : Engine Any) where
  open engine use {Json, Time}

  pub ids_of-as_claimed :
      (now : ℤ) (is : List (Instance Any)) → ids_of (map (as_claimed now) is) ≡ ids_of is
  ids_of-as_claimed now [] = refl
  ids_of-as_claimed now (i ∷ is) = ground (arith, ids_of-as_claimed now is)

  pub held_times-append :
      (id : String) (xs ys : List String)
      → held_times id (xs ++ ys) ≡ held_times id xs + held_times id ys
  unfolding tally
  held_times-append id [] ys = omega arith
  held_times-append id (x ∷ xs) ys = ground (arith, held_times-append id xs ys)

  pub held_times-middle :
      (id m : String) (xs ys : List String)
      → held_times id (xs ++ m ∷ ys) ≡ held_times id (m ∷ xs ++ ys)
  unfolding tally
  held_times-middle id m [] ys = refl
  held_times-middle id m (x ∷ xs) ys = ground (arith, held_times-middle id m xs ys)

  -- what is claimed: at most as often as there are rows, and only what could be claimed
  pub claimed_rows :
      (locked : List String) (now limit : ℤ) (id : String) (rows : List (Row Json Time))
      → tally (id_is id) rows ≤ 1
      → (tally (id_is id) (claim_rows engine locked now limit rows) ≤ 1)
        × (0 < tally (id_is id) (claim_rows engine locked now limit rows)
            → claimable_of (row_of_id id rows) ≡ true)
  unfolding claim_rows is_claimable
  claimed_rows locked now limit id rows u =
      let p : Row Json Time → Bool = λ r. is_claimable engine now r && not (holds_id locked r.id) in
      let chosen = select p rows in
      let sorted = order_by (more_urgent engine.before) chosen in
      let at_most : tally (id_is id) (claim_rows engine locked now limit rows)
          ≤ tally (id_is id) chosen =
        omega (
          arith,
          tally-take_le (batch_size limit) (id_is id) sorted,
          tally-order_by (more_urgent engine.before) (id_is id) chosen,
        ) in
      (
        omega (arith, at_most, tally-select_le p (id_is id) rows),
        λ h.
            let (r, found, holds) = row_of_id-select p id rows u (omega (arith, at_most)) in
            ground (arith, found, holds),
      )

  pub to_row_fields :
      (cmd : Instance Any) (row : Row Json Time)
      → to_row engine some cmd ≡ ok row
      → (row.id ≡ cmd.id) × (row.status ≡ cmd.status)
  unfolding to_row
  to_row_fields cmd row h = ground arith

  -- an Update: the rows of every id are as many as before, the row of the command has its status
  pub rows-update :
      (db : Database Json Time) (cmd : Instance Any) (id : String)
      → (tally (id_is id) (update engine db cmd).1.rows ≡ tally (id_is id) db.rows)
        × (cmd.id ≢ id → row_of_id id (update engine db cmd).1.rows ≡ row_of_id id db.rows)
        × (claimable_status cmd.status ≡ false
            → claimable_of (row_of_id id db.rows) ≡ false
            → claimable_of (row_of_id id (update engine db cmd).1.rows) ≡ false)
  unfolding update
  rows-update db cmd id = elim (Reply-cases (to_row engine some cmd)) [
    | inl (y, e) ↦ ground arith
    | inr (row, e) ↦ ground (
      arith,
      eq_iff cmd.id id,
      to_row_fields cmd row e,
      tally-update_row cmd.id id (assign engine row) db.rows (λ r. refl),
      row_of_id-update_row cmd.id id (assign engine row) db.rows (λ r. refl),
    )
  ]

  pub rows-create :
      (db : Database Json Time) (cmd : Instance Any) (id : String)
      → (tally (id_is id) db.rows ≤ 1 → tally (id_is id) (create engine db cmd).1.rows ≤ 1)
        × (cmd.id ≢ id → row_of_id id (create engine db cmd).1.rows ≡ row_of_id id db.rows)
  unfolding create row_of_id tally
  rows-create db cmd id = elim (Reply-cases (to_row engine some cmd)) [
    | inl (y, e) ↦ ground arith
    | inr (row, e) ↦
        ground (arith, eq_iff cmd.id id, to_row_fields cmd row e, row_of_id-none id db.rows)
  ]

  pub rows-delete :
      (db : Database Json Time) (id j : String)
      → (tally (id_is j) (delete engine db id).1.rows ≤ tally (id_is j) db.rows)
        × (claimable_of (row_of_id j db.rows) ≡ false
            → claimable_of (row_of_id j (delete engine db id).1.rows) ≡ false)
  unfolding delete delete_row orphan
  rows-delete db id j =
      let rest = delete_row id db.rows in
      ground (
        arith,
        tally-map j (orphan engine rest) rest (λ r. refl),
        tally-select_le (λ r. not (r.id == id)) (id_is j) db.rows,
        row_of_id-map j (orphan engine rest) rest (λ r. refl),
        row_of_id-delete_row id j db.rows,
      )
