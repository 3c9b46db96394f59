-- ===== src/Storage/Sql/Postgres/Transaction.antt =====
-- storage/postgres.go: postgresTx. A statement that fails aborts the transaction: every later one
-- fails, and a commit rolls back. Its reads and its Cleanup are refused.
use durex.Prelude.{
  String, ◌≡◌, refl, sym, ap, ◌∙◌, Bool, true, false, Option, none, some, is_some, List, [], ◌∷◌,
  map, arith, if◌then◌else◌, Option-cases, inl, inr,
}
use mathlib.Core.Path.{subst}
use durex.Text.{lit}
use durex.Instance.{Instance}
use durex.Storage.{Reply, ok, err, backend, is_ok, Reply-cases}
use durex.Storage.Sql.{Row, Engine, Database, row_of_id, update_row, delete_row}
use durex.Storage.Sql.Rows.{to_row}
use durex.Storage.Sql.Postgres.{parent_exists, assign, orphan, create, update, delete}

-- the database as it was at BEGIN, the rows as the transaction sees them
pub record PostgresTx (Json Time : Type 0) : Type 0 where
  pub base : Database Json Time
  pub rows : List (Row Json Time)
  pub aborted : Bool

module _ {Json Time : Type 0} where
  -- `none` when BeginTx fails
  unfoldable pub begin : Database Json Time → Option (PostgresTx Json Time)
  begin db = elim db.fault [
    | some t ↦ none
    | none ↦ some (record { base = db; rows = db.rows; aborted = false })
  ]

  unfoldable pub commit : PostgresTx Json Time → Reply (Unit {0}) × Database Json Time
  commit t =
      if t.aborted
      then (err (backend (lit "commit of a failed transaction")), t.base)
      else (ok tt, record t.base { rows = t.rows })

  unfoldable pub rollback : PostgresTx Json Time → Database Json Time
  rollback t = t.base

  -- ExecContext on the transaction; `none` is a failing statement
  unfoldable pub exec_tx :
      PostgresTx Json Time
      → (List (Row Json Time) → Option (List (Row Json Time)))
      → Reply (Unit {0}) × PostgresTx Json Time
  exec_tx t statement =
      if t.aborted
      then (err (backend (lit "transaction is aborted")), t)
      else elim (statement t.rows) [
        | none ↦ (err (backend (lit "statement")), record t { aborted = true })
        | some rows ↦ (ok tt, record t { rows = rows })
      ]

module _ {Any : Type 0} (engine : Engine Any) where
  open engine use {Json, Time}

  unfoldable pub tx_create :
      PostgresTx Json Time → Instance Any → Reply (Unit {0}) × PostgresTx Json Time
  tx_create t cmd = elim (to_row engine some cmd) [
    | err e ↦ (err e, t)
    | ok row ↦ exec_tx t (λ rows.
        if is_some (row_of_id cmd.id rows)
        then none
        else if parent_exists engine row rows
        then some (row ∷ rows)
        else none)
  ]

  -- a row that is missing is no error here
  unfoldable pub tx_update :
      PostgresTx Json Time → Instance Any → Reply (Unit {0}) × PostgresTx Json Time
  tx_update t cmd = elim (to_row engine some cmd) [
    | err e ↦ (err e, t)
    | ok row ↦ exec_tx t (λ rows.
        if is_some (row_of_id cmd.id rows)
        then (if parent_exists engine row rows
            then some (update_row cmd.id (assign engine row) rows)
            else none)
        else some rows)
  ]

  unfoldable pub tx_delete : PostgresTx Json Time → String → Reply (Unit {0}) × PostgresTx Json Time
  tx_delete t id =
      exec_tx t (λ rows. let rest = delete_row id rows in some (map (orphan engine rest) rest))

  -- the writes of a transaction, and of the storage
  pub data Write : Type 0 where
    creates updates : Instance Any → Write
    deletes : String → Write

  abbrev pub write_tx : PostgresTx Json Time → Write → Reply (Unit {0}) × PostgresTx Json Time
  write_tx t (creates cmd) = tx_create t cmd
  write_tx t (updates cmd) = tx_update t cmd
  write_tx t (deletes id) = tx_delete t id

  abbrev pub write : Database Json Time → Write → Reply (Unit {0}) × Database Json Time
  write db (creates cmd) = create engine db cmd
  write db (updates cmd) = update engine db cmd
  write db (deletes id) = delete engine db id

  abbrev pub write_each_tx : PostgresTx Json Time → List Write → PostgresTx Json Time
  write_each_tx t [] = t
  write_each_tx t (w ∷ ws) = write_each_tx (write_tx t w).1 ws

  -- the table after the writes, if the storage accepts each of them
  abbrev pub write_each : Database Json Time → List Write → Option (Database Json Time)
  write_each db [] = some db
  write_each db (w ∷ ws) = if is_ok (write db w).0 then write_each (write db w).1 ws else none

  -- a write that the storage accepts does the same in a transaction
  write-same :
      (t : PostgresTx Json Time) (w : Write)
      → t.aborted ≡ false
      → t.base.fault ≡ none
      → is_ok (write (record t.base { rows = t.rows }) w).0 ≡ true
      → ((write_tx t w).1 ≡ record t { rows = (write (record t.base { rows = t.rows }) w).1.rows })
        × ((write (record t.base { rows = t.rows }) w).1
            ≡ record t.base { rows = (write (record t.base { rows = t.rows }) w).1.rows })
  unfolding create update delete tx_create tx_update tx_delete exec_tx
  write-same t (creates cmd) a f h = elim (Reply-cases (to_row engine some cmd)) [
    | inl (x, e) ↦ absurd (ground arith)
    | inr (row, e) ↦ (ground arith, ground arith)
  ]
  write-same t (updates cmd) a f h = elim (Reply-cases (to_row engine some cmd)) [
    | inl (x, e) ↦ absurd (ground arith)
    | inr (row, e) ↦ (ground arith, ground arith)
  ]
  write-same t (deletes id) a f h = (ground arith, ground arith)

  commit-accepted :
      (ws : List Write) (t : PostgresTx Json Time) (db : Database Json Time)
      → t.aborted ≡ false
      → t.base.fault ≡ none
      → write_each (record t.base { rows = t.rows }) ws ≡ some db
      → commit (write_each_tx t ws) ≡ (ok tt, db)
  unfolding commit
  commit-accepted [] t db a f h = ground arith
  commit-accepted (w ∷ ws) t db a f h =
      let now = record t.base { rows = t.rows } in
      let accepted : is_ok (write now w).0 ≡ true = ground arith in
      let rest : write_each (write now w).1 ws ≡ some db = ground arith in
      let same = write-same t w a f accepted in
      let t' = record t { rows = (write now w).1.rows } in
      ap (λ u. commit (write_each_tx u ws)) same.0
      ∙ commit-accepted ws t' db a f (ap (λ d. write_each d ws) (sym same.1) ∙ rest)

  write_tx-base : (t : PostgresTx Json Time) (w : Write) → (write_tx t w).1.base ≡ t.base
  unfolding tx_create tx_update tx_delete exec_tx
  write_tx-base t (creates cmd) = elim (Reply-cases (to_row engine some cmd)) [
    | inl (x, e) ↦ ground arith
    | inr (row, e) ↦ ground arith
  ]
  write_tx-base t (updates cmd) = elim (Reply-cases (to_row engine some cmd)) [
    | inl (x, e) ↦ ground arith
    | inr (row, e) ↦ ground arith
  ]
  write_tx-base t (deletes id) = ground arith

  write_each_tx-base :
      (t : PostgresTx Json Time) (ws : List Write) → (write_each_tx t ws).base ≡ t.base
  write_each_tx-base t [] = refl
  write_each_tx-base t (w ∷ ws) = write_each_tx-base (write_tx t w).1 ws ∙ write_tx-base t w

  -- A transaction of writes that the storage would accept one after the other: its commit succeeds
  -- and leaves the table as those writes would, and its rollback leaves the table as it was.
  pub commit-write_each :
      (db after : Database Json Time) (t : PostgresTx Json Time) (ws : List Write)
      → begin db ≡ some t
      → write_each db ws ≡ some after
      → (commit (write_each_tx t ws) ≡ (ok tt, after)) × (rollback (write_each_tx t ws) ≡ db)
  unfolding begin rollback
  commit-write_each db after t ws b h = elim (Option-cases db.fault) [
    | inr (x, f) ↦ absurd (ground arith)
    | inl f ↦
        let started : t ≡ record { base = db; rows = db.rows; aborted = false } = ground arith in
        (
          commit-accepted ws t after (ground arith) (ground arith) (
              subst (λ u. write_each (record u.base { rows = u.rows }) ws ≡ some after)
                (sym started) h),
          write_each_tx-base t ws ∙ ap (λ u. u.base) started,
        )
  ]
