-- ===== src/Storage/Sql/Postgres/Exclusive.antt =====
-- Several executors in polling mode on one PostgreSQL table: no command is held by two of them. The
-- writes of others that make a held command claimable again are left out: the recovery of stuck
-- commands, and a replay or a retry by hand that has read the command before it was claimed.
use durex.Prelude.{
  ◌≤◌, ◌<◌, ℤ, String, ◌≡◌, false, List, ◌∷◌, ◌++◌, tally, arith, eq_iff, Option-cases, inl, inr,
  sym,
}
use mathlib.Core.Path.{subst}
use durex.Instance.{Instance}
use durex.Storage.{ok, Reply-cases}
use durex.Storage.Sql.{Engine, Database, row_of_id}
use durex.Storage.Sql.Table.{id_is}
use durex.Storage.Sql.Rows.{scan_instance, scan_all}
use durex.Storage.Sql.Postgres.{
  claimable_status, claim_rows, start_rows, ids_of, claim_pending, create, update, delete,
}
use durex.Storage.Sql.Postgres.Claims.{
  held_times, claimable_of, row_of_id-start_rows, tally-start_rows, held_times-scan_all,
}
use durex.Storage.Sql.Postgres.Effects.{
  ids_of-as_claimed, held_times-append, held_times-middle, claimed_rows, rows-update, rows-create,
  rows-delete,
}

-- the table, and the ids of the commands that executors hold
pub record Claims (Json Time : Type 0) : Type 0 where
  pub db : Database Json Time
  pub held : List String

module _ {Any : Type 0} (engine : Engine Any) where
  open engine use {Json, Time}

  -- What the executors do, one transaction after the other: one of them claims a batch, whatever
  -- rows the others have locked; a command is written with a status that no claim takes, by its
  -- holder or by a Cancel; its holder writes it and is done with it; a command that nobody holds is
  -- created or written; a row is deleted. A replay or a retry by hand, which reads the command first
  -- and writes it later as pending, is such a write only if nobody has claimed the command between.
  pub data Step : Claims Json Time → Claims Json Time → Type 0 where
    claim :
        (s : Claims Json Time) (locked : List String) (now limit : ℤ) (is : List (Instance Any))
        → (claim_pending engine locked s.db now limit).0 ≡ ok is
        → Step s (record {
          db = (claim_pending engine locked s.db now limit).1;
          held = ids_of is ++ s.held;
        })
    write :
        (s : Claims Json Time) (cmd : Instance Any)
        → claimable_status cmd.status ≡ false
        → Step s (record s { db = (update engine s.db cmd).1 })
    finish :
        (s : Claims Json Time) (cmd : Instance Any) (before after : List String)
        → s.held ≡ before ++ cmd.id ∷ after
        → Step s (record { db = (update engine s.db cmd).1; held = before ++ after })
    insert :
        (s : Claims Json Time) (cmd : Instance Any)
        → held_times cmd.id s.held ≡ 0
        → Step s (record s { db = (create engine s.db cmd).1 })
    other :
        (s : Claims Json Time) (cmd : Instance Any)
        → held_times cmd.id s.held ≡ 0
        → Step s (record s { db = (update engine s.db cmd).1 })
    remove :
        (s : Claims Json Time) (id : String) → Step s (record s { db = (delete engine s.db id).1 })

  pub data Reach (s : Claims Json Time) : Claims Json Time → Type 0 where
    here : Reach s s
    next : {t u : Claims Json Time} → Reach s t → Step t u → Reach s u

  -- One row for an id, one holder for a command, and a command that is held cannot be claimed.
  pub record Exclusive (s : Claims Json Time) : Type 0 where
    pub one_row : (id : String) → tally (id_is id) s.db.rows ≤ 1
    pub one_holder : (id : String) → held_times id s.held ≤ 1
    pub busy :
        (id : String) → 0 < held_times id s.held → claimable_of (row_of_id id s.db.rows) ≡ false

  -- a claim on a database that is not at fault, whose rows are read as `js`
  claim_read-Exclusive :
      (s : Claims Json Time) (locked : List String) (now limit : ℤ) (js : List (Instance Any))
      → scan_all engine (scan_instance engine) (claim_rows engine locked now limit s.db.rows)
        ≡ ok js
      → Exclusive s
      → Exclusive (record {
        db = record s.db { rows = start_rows engine (ids_of js) now s.db.rows };
        held = ids_of js ++ s.held;
      })
  claim_read-Exclusive s locked now limit js e x = record {
    one_row =
        λ id. omega (arith, x.one_row id, tally-start_rows engine (ids_of js) now id s.db.rows);
    one_holder = λ id. ground (
      arith,
      x.one_holder id,
      x.busy id,
      held_times-append engine id (ids_of js) s.held,
      held_times-scan_all engine (claim_rows engine locked now limit s.db.rows) js id e,
      claimed_rows engine locked now limit id s.db.rows (x.one_row id),
    );
    busy = λ id h. ground (
      arith,
      x.busy id,
      held_times-append engine id (ids_of js) s.held,
      row_of_id-start_rows engine (ids_of js) now id s.db.rows,
    );
  }

  claim-Exclusive :
      (s : Claims Json Time) (locked : List String) (now limit : ℤ) (is : List (Instance Any))
      → (claim_pending engine locked s.db now limit).0 ≡ ok is
      → Exclusive s
      → Exclusive (record {
        db = (claim_pending engine locked s.db now limit).1;
        held = ids_of is ++ s.held;
      })
  unfolding claim_pending
  claim-Exclusive s locked now limit is h x = elim (Option-cases s.db.fault) [
    | inr (t, f) ↦ absurd (ground arith)
    | inl f ↦
        elim (Reply-cases
          (scan_all engine (scan_instance engine) (claim_rows engine locked now limit s.db.rows))) [
            | inl (y, e) ↦ absurd (ground arith)
            | inr (js, e) ↦
                let db' = record s.db { rows = start_rows engine (ids_of js) now s.db.rows } in
                let ids : ids_of is ≡ ids_of js = ground (arith, ids_of-as_claimed engine now js) in
                let db_eq : (claim_pending engine locked s.db now limit).1 ≡ db' = ground arith in
                subst (λ d. Exclusive (record { db = d; held = ids_of is ++ s.held })) (sym db_eq)
                  (subst (λ l. Exclusive (record { db = db'; held = l ++ s.held })) (sym ids)
                    (claim_read-Exclusive s locked now limit js e x))
          ]
  ]

  write-Exclusive :
      (s : Claims Json Time) (cmd : Instance Any)
      → claimable_status cmd.status ≡ false
      → Exclusive s
      → Exclusive (record s { db = (update engine s.db cmd).1 })
  write-Exclusive s cmd c x = record {
    one_row = λ id. ground (arith, x.one_row id, rows-update engine s.db cmd id);
    one_holder = x.one_holder;
    busy = λ id h. (rows-update engine s.db cmd id).2 c (x.busy id h);
  }

  finish-Exclusive :
      (s : Claims Json Time) (cmd : Instance Any) (before after : List String)
      → s.held ≡ before ++ cmd.id ∷ after
      → Exclusive s
      → Exclusive (record { db = (update engine s.db cmd).1; held = before ++ after })
  unfolding tally
  finish-Exclusive s cmd before after e x = record {
    one_row = λ id. ground (arith, x.one_row id, rows-update engine s.db cmd id);
    one_holder =
        λ id. ground (arith, e, x.one_holder id, held_times-middle engine id cmd.id before after);
    busy = λ id h. ground (
      arith,
      e,
      eq_iff cmd.id id,
      x.one_holder id,
      x.busy id,
      held_times-middle engine id cmd.id before after,
      rows-update engine s.db cmd id,
    );
  }

  other-Exclusive :
      (s : Claims Json Time) (cmd : Instance Any)
      → held_times cmd.id s.held ≡ 0
      → Exclusive s
      → Exclusive (record s { db = (update engine s.db cmd).1 })
  other-Exclusive s cmd c x = record {
    one_row = λ id. ground (arith, x.one_row id, rows-update engine s.db cmd id);
    one_holder = x.one_holder;
    busy = λ id h. ground (arith, x.busy id, rows-update engine s.db cmd id);
  }

  insert-Exclusive :
      (s : Claims Json Time) (cmd : Instance Any)
      → held_times cmd.id s.held ≡ 0
      → Exclusive s
      → Exclusive (record s { db = (create engine s.db cmd).1 })
  insert-Exclusive s cmd c x = record {
    one_row = λ id. (rows-create engine s.db cmd id).0 (x.one_row id);
    one_holder = x.one_holder;
    busy = λ id h. ground (arith, x.busy id, rows-create engine s.db cmd id);
  }

  remove-Exclusive :
      (s : Claims Json Time) (id : String)
      → Exclusive s
      → Exclusive (record s { db = (delete engine s.db id).1 })
  remove-Exclusive s id x = record {
    one_row = λ j. ground (arith, x.one_row j, rows-delete engine s.db id j);
    one_holder = x.one_holder;
    busy = λ j h. (rows-delete engine s.db id j).1 (x.busy j h);
  }

  Step-Exclusive : {s t : Claims Json Time} → Step s t → Exclusive s → Exclusive t
  Step-Exclusive (claim s locked now limit is h) x = claim-Exclusive s locked now limit is h x
  Step-Exclusive (write s cmd c) x = write-Exclusive s cmd c x
  Step-Exclusive (finish s cmd before after e) x = finish-Exclusive s cmd before after e x
  Step-Exclusive (insert s cmd c) x = insert-Exclusive s cmd c x
  Step-Exclusive (other s cmd c) x = other-Exclusive s cmd c x
  Step-Exclusive (remove s id) x = remove-Exclusive s id x

  -- From a table with one row for an id, in which nothing that is held can be claimed, no command is
  -- ever held by two executors, in whatever order the steps come and whichever rows are locked at a
  -- claim. The steps bound what is written: while a command is held, only its holder's last write may
  -- leave it in a status that a claim takes; every other write of it, a Cancel's too, has another
  -- status or comes when nobody holds it. So the recovery of stuck commands is left out, and so are
  -- the writes of ReplayFromDLQ and of a retry by the dashboard or the tool that come after a claim
  -- of the command which they read before it, as of two interleaved replays.
  pub Reach-Exclusive : {s t : Claims Json Time} → Reach s t → Exclusive s → Exclusive t
  Reach-Exclusive here x = x
  Reach-Exclusive (next r step) x = Step-Exclusive step (Reach-Exclusive r x)
