-- ===== src/Storage/Sql/Postgres/Batch.antt =====
-- ClaimPending: which commands a batch holds, and which are left for later.
use mathlib.Core.Path.{subst}
use durex.Prelude.{
  ltb, ltb_ℤ, ◌||◌, ◌==◌, ◌⊎◌, ◌<ℤ◌, pos, ◌+ℤ◌, int64, pos_part, some, sym, All-selected,
  if◌then◌else◌, ◌≤◌, ◌<◌, ℤ, String, ◌≡◌, refl, ap, ◌∙◌, tally, Bool, true, false, not, ◌&&◌, List,
  [], ◌∷◌, map, select, length, All, All-select, arith, Option-cases, inl, inr,
}
use durex.Status.{same, pending, started, repeating}
use durex.Instance.{Instance}
use durex.Storage.{ok, Reply-cases}
use durex.Storage.Sql.{Row, Engine, Database, order_by, more_urgent}
use durex.Storage.Sql.Table.{id_is, length-take_le}
use durex.Storage.Sql.Order.{
  IsOrder, more_urgent-IsOrder, All-map₂, Placed, All-take, All-select_inv, All-order_by,
  take-order_by,
}
use durex.Storage.Sql.Rows.{scan_instance, scan_all}
use durex.Storage.Sql.Postgres.{
  batch_size, is_claimable, claim_rows, claim_pending, ids_of, as_claimed,
}
use durex.Storage.Sql.Postgres.Claims.{held_times, held_times-scan_all}
use durex.Storage.Sql.Postgres.Effects.{ids_of-as_claimed}

module _ {Any : Type 0} (engine : Engine Any) where
  open engine use {Json, Time, before, format}

  -- a claim may take the row
  abbrev pub is_free : List String → ℤ → Row Json Time → Bool
  is_free locked now r =
      ((same r.status pending || same r.status repeating) && not (before (format now) r.ready_at))
      && not (ltb 0 (tally (λ i. i == r.id) locked))

  -- by priority and then by the time from which it is due, `r` does not come before `b`
  abbrev pub NoSooner : Row Json Time → Row Json Time → Type 0
  NoSooner r b =
      (r.priority <ℤ b.priority)
      ⊎ ((r.priority ≡ b.priority) × (before r.ready_at b.ready_at ≡ false))

  -- what is answered is what the rows hold, one after the other, but STARTED with one more attempt
  abbrev pub Answered : ℤ → List (Row Json Time) → List (Instance Any) → Type 0
  Answered now [] [] = Unit
  Answered now (r ∷ rows) (i ∷ is) =
      ((j : Instance Any) × (scan_instance engine r ≡ ok j)
        × (i ≡ record j {
          status = started;
          started_at = some now;
          attempt = int64 (j.attempt +ℤ pos 1);
        }))
      × Answered now rows is
  Answered now [] (i ∷ is) = ⊥
  Answered now (r ∷ rows) [] = ⊥

  abbrev pub Among : List (Row Json Time) → Row Json Time → Type 0
  Among [] r = ⊥
  Among (s ∷ rows) r = (r ≡ s) ⊎ Among rows r

  -- What becomes of a row: its command is claimed, it comes before no row of the batch, or it cannot
  -- be claimed now.
  pub data Served (batch : List (Row Json Time)) (ids locked : List String) (now : ℤ)
      (r : Row Json Time) : Type 0 where
    claimed : 0 < held_times r.id ids → Served batch ids locked now r
    outranked : All (NoSooner r) batch → Served batch ids locked now r
    held_back : is_free locked now r ≡ false → Served batch ids locked now r

  length-scan_all :
      (rows : List (Row Json Time)) (is : List (Instance Any))
      → scan_all engine (scan_instance engine) rows ≡ ok is
      → length is ≡ length rows
  unfolding scan_all
  length-scan_all [] is h = ground arith
  length-scan_all (r ∷ rows) is h = elim (Reply-cases (scan_instance engine r)) [
    | inl (x, e) ↦ absurd (ground arith)
    | inr (c, e) ↦ elim (Reply-cases (scan_all engine (scan_instance engine) rows)) [
      | inl (x, d) ↦ absurd (ground arith)
      | inr (cs, d) ↦ ground (arith, length-scan_all rows cs d)
    ]
  ]

  length-map : {A B : Type 0} (f : A → B) (xs : List A) → length (map f xs) ≡ length xs
  length-map f [] = refl
  length-map f (x ∷ xs) = ground (arith, length-map f xs)

  claim_rows-le :
      (locked : List String) (now limit : ℤ) (rows : List (Row Json Time))
      → length (claim_rows engine locked now limit rows) ≤ batch_size limit
  unfolding claim_rows is_claimable
  claim_rows-le locked now limit rows =
      length-take_le (batch_size limit)
        (order_by (more_urgent before) (select (is_free locked now) rows))

  claim_rows-All :
      (locked : List String) (now limit : ℤ) (rows : List (Row Json Time))
      → All (λ r. is_free locked now r ≡ true) (claim_rows engine locked now limit rows)
  unfolding claim_rows is_claimable
  claim_rows-All locked now limit rows =
      let free : Row Json Time → Type 0 = λ r. is_free locked now r ≡ true in
      let chosen = select (is_free locked now) rows in
      All-take free (batch_size limit) (order_by (more_urgent before) chosen)
        (All-order_by (more_urgent before) free chosen (All-select (is_free locked now) rows))

  scan_all-Answered :
      (now : ℤ) (rows : List (Row Json Time)) (is : List (Instance Any))
      → scan_all engine (scan_instance engine) rows ≡ ok is
      → Answered now rows (map (as_claimed now) is)
  unfolding scan_all
  scan_all-Answered now [] [] h = tt
  scan_all-Answered now [] (i ∷ is) h = absurd (ground arith)
  scan_all-Answered now (r ∷ rows) is h = elim (Reply-cases (scan_instance engine r)) [
    | inl (x, e) ↦ absurd (ground arith)
    | inr (c, e) ↦ elim (Reply-cases (scan_all engine (scan_instance engine) rows)) [
      | inl (x, d) ↦ absurd (ground arith)
      | inr (cs, d) ↦
          let is_eq : c ∷ cs ≡ is = ground arith in
          subst (λ l. Answered now (r ∷ rows) (map (as_claimed now) l)) is_eq
            ((c, e, refl), scan_all-Answered now rows cs d)
    ]
  ]

  All-Among : (rows : List (Row Json Time)) → All (Among rows) rows
  All-Among [] = tt
  All-Among (r ∷ rows) = (
    inl refl,
    All-map₂ (Among rows) (Among rows) (Among (r ∷ rows)) rows (λ s a b. inr a) (All-Among rows)
        (All-Among rows),
  )

  claim_rows-Among :
      (locked : List String) (now limit : ℤ) (rows : List (Row Json Time))
      → All (Among rows) (claim_rows engine locked now limit rows)
  unfolding claim_rows is_claimable
  claim_rows-Among locked now limit rows =
      let chosen = select (is_free locked now) rows in
      All-take (Among rows) (batch_size limit) (order_by (more_urgent before) chosen) (
        All-order_by (more_urgent before) (Among rows) chosen
          (All-selected (Among rows) (is_free locked now) rows (All-Among rows)))

  NoSooner-of_more_urgent : (r b : Row Json Time) → more_urgent before r b ≡ false → NoSooner r b
  unfolding more_urgent
  NoSooner-of_more_urgent r b h = ground arith

  Placed-Served :
      (batch : List (Row Json Time)) (ids locked : List String) (now : ℤ)
      → ((id : String) → held_times id ids ≡ tally (id_is id) batch)
      → (r : Row Json Time) → Placed (more_urgent before) batch r
      → Served batch ids locked now r
  Placed-Served batch ids locked now same r (Placed.among a) =
      Served.claimed (omega (arith, a, same r.id))
  Placed-Served batch ids locked now same r (Placed.behind b) =
      let later : Row Json Time → Type 0 = λ s. more_urgent before r s ≡ false in
      Served.outranked
        (All-map₂ later later (NoSooner r) batch (λ s e f. NoSooner-of_more_urgent r s e) b b)

  claim_rows-Served :
      IsOrder before
      → (locked ids : List String) (now limit : ℤ) (rows : List (Row Json Time))
      → ((id : String)
          → held_times id ids ≡ tally (id_is id) (claim_rows engine locked now limit rows))
      → All (Served (claim_rows engine locked now limit rows) ids locked now) rows
  unfolding claim_rows is_claimable
  claim_rows-Served o locked ids now limit rows same =
      let chosen = select (is_free locked now) rows in
      let batch = claim_rows engine locked now limit rows in
      All-select_inv (Placed (more_urgent before) batch) (Served batch ids locked now)
        (is_free locked now) rows (Placed-Served batch ids locked now same)
        (λ r e. Served.held_back e)
        (take-order_by (more_urgent before) (more_urgent-IsOrder before o) (batch_size limit)
          chosen)

  -- A claim answers no more commands than the batch size, which is 100 where none is given. What it
  -- answers are the commands of a batch of rows, STARTED now with one more attempt; these are rows of
  -- the table, and each was pending or repeating, due and not locked. Every other such row is as late
  -- in the order, by priority and then by the time from which it is due, as each row of the batch:
  -- none that is left is more urgent than one that is claimed. The database's comparison of times
  -- must be an order.
  pub claim_pending-Served :
      (locked : List String) (db : Database Json Time) (now limit : ℤ) (is : List (Instance Any))
      → IsOrder before
      → (claim_pending engine locked db now limit).0 ≡ ok is
      → let batch = claim_rows engine locked now limit db.rows in
        (length is ≤ (if ltb_ℤ (pos 0) limit then pos_part limit else 100))
        × Answered now batch is
        × All (Among db.rows) batch
        × All (λ r. is_free locked now r ≡ true) batch
        × All (Served batch (map (λ i. i.id) is) locked now) db.rows
  unfolding claim_pending
  claim_pending-Served locked db now limit is o h =
      let batch = claim_rows engine locked now limit db.rows in
      elim (Option-cases db.fault) [
        | inr (t, f) ↦ absurd (ground arith)
        | inl f ↦ elim (Reply-cases (scan_all engine (scan_instance engine) batch)) [
          | inl (y, e) ↦ absurd (ground arith)
          | inr (js, e) ↦
              let is_eq : is ≡ map (as_claimed now) js = ground arith in
              let ids : ids_of is ≡ ids_of js = ground (arith, ids_of-as_claimed engine now js) in
              (
                omega (
                  arith,
                  ap length is_eq,
                  length-map (as_claimed now) js,
                  length-scan_all batch js e,
                  claim_rows-le locked now limit db.rows,
                ),
                subst (λ l. Answered now batch l) (sym is_eq) (scan_all-Answered now batch js e),
                claim_rows-Among locked now limit db.rows,
                claim_rows-All locked now limit db.rows,
                claim_rows-Served o locked (ids_of is) now limit db.rows
                    (λ id. ap (held_times id) ids ∙ held_times-scan_all engine batch js id e),
              )
        ]
      ]
