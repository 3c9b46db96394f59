-- ===== src/Storage/Sql/Postgres/Claims.antt =====
-- ClaimPending of several executors on one table: no command is held by two of them.
use durex.Prelude.{
  ℕ, ℤ, String, ◌≡◌, refl, Bool, false, Option, none, some, List, [], ◌∷◌, tally, arith, eq_iff,
  ◌==◌, if◌then◌else◌, inl, inr,
}
use durex.Status.{same}
use durex.Instance.{Instance}
use durex.Storage.{ok}
use durex.Storage.Sql.{Row, Engine, row_of_id}
use durex.Storage.{Reply-cases}
use durex.Storage.Sql.Table.{id_is}
use durex.Storage.Sql.Rows.{scan_instance, scan_all, from_row}
use durex.Storage.Sql.Postgres.{claimable_status, holds_id, start_rows, ids_of}

abbrev pub held_times : String → List String → ℕ
held_times id ids = tally (λ i. i == id) ids

module _ {Json Time : Type 0} where
  -- whether another executor could claim the command
  abbrev pub claimable_of : Option (Row Json Time) → Bool
  claimable_of none = false
  claimable_of (some r) = claimable_status r.status

module _ {Any : Type 0} (engine : Engine Any) where
  open engine use {Json, Time, format}

  pub row_of_id-start_rows :
      (ids : List String) (now : ℤ) (id : String) (rows : List (Row Json Time))
      → claimable_of (row_of_id id (start_rows engine ids now rows))
        ≡ (if holds_id ids id then false else claimable_of (row_of_id id rows))
  unfolding row_of_id start_rows same
  row_of_id-start_rows ids now id [] = ground arith
  row_of_id-start_rows ids now id (r ∷ rows) =
      ground (arith, eq_iff r.id id, row_of_id-start_rows ids now id rows)

  pub tally-start_rows :
      (ids : List String) (now : ℤ) (id : String) (rows : List (Row Json Time))
      → tally (id_is id) (start_rows engine ids now rows) ≡ tally (id_is id) rows
  unfolding tally start_rows
  tally-start_rows ids now id [] = refl
  tally-start_rows ids now id (r ∷ rows) = ground (arith, tally-start_rows ids now id rows)

  id-scan_instance :
      (r : Row Json Time) (c : Instance Any) → scan_instance engine r ≡ ok c → c.id ≡ r.id
  unfolding scan_instance from_row
  id-scan_instance r c h = ground arith

  pub held_times-scan_all :
      (rows : List (Row Json Time)) (is : List (Instance Any)) (id : String)
      → scan_all engine (scan_instance engine) rows ≡ ok is
      → held_times id (ids_of is) ≡ tally (id_is id) rows
  unfolding scan_all tally
  held_times-scan_all [] is id h = ground arith
  held_times-scan_all (r ∷ rows) is id h = elim (Reply-cases (scan_instance engine r)) [
    | inl (x, e) ↦ absurd (ground arith)
    | inr (c, e) ↦ elim (Reply-cases (scan_all engine (scan_instance engine) rows)) [
      | inl (x, d) ↦ absurd (ground arith)
      | inr (cs, d) ↦ ground (arith, id-scan_instance r c e, held_times-scan_all rows cs id d)
    ]
  ]
