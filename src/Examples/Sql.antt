-- ===== src/Examples/Sql.antt =====
-- A database engine over a few JSON values, with whole nanoseconds as times, and the SQL storages on it.
use durex.Prelude.{
  All, ◌≡◌, ◌≤◌, refl, ℤ, pos, ◌+ℤ◌, ltb_ℤ, String, Bool, true, false, Option, none, some, List, [],
  ◌∷◌, Dict, tally, select, arith, ◌==◌, if◌then◌else◌,
}
use durex.Status.{pending, started, completed, same}
use durex.Instance.{Instance}
use durex.Storage.{ok}
use durex.Storage.Sql.{Row, Engine, Database, row_of_id, update_row, delete_row, order_by}
use durex.Storage.Sql.Rows.{to_row, populate_instance, scan_instance, scan_all}
use durex.Storage.Sql.Kept.{Codec, kept, scan_instance-to_row}
use durex.Storage.Sql.Sqlite.{update, get}
use durex.Storage.Sql.Sqlite.Kept.{get-update}
use durex.Storage.Sql.Postgres.{
  claim_pending, claim_rows, start_rows, is_claimable, as_claimed, update as update_postgres,
  create as create_postgres, delete as delete_postgres, parent_exists, orphan,
}
use durex.Storage.Sql.Order.{IsOrder}
use durex.Storage.Sql.Postgres.Batch.{Answered, Among, Served, is_free, claim_pending-Served}
use durex.Storage.Sql.Postgres.Transaction.{
  Write, begin, commit, rollback, write_each_tx, commit-write_each,
}
use durex.Storage.Sql.Postgres.Exclusive.{Claims, Step, Reach, Exclusive, Reach-Exclusive}
use durex.Examples.Data.{Value, job, a_command}

pub data Json : Type 0 where
  object : Option (Dict Value) → Json
  array : List String → Json

abbrev object_of : Json → Option (Option (Dict Value))
object_of (object m) = some m
object_of (array l) = none

abbrev array_of : Json → Option (List String)
array_of (object m) = none
array_of (array l) = some l

abbrev has_string : List String → String → Bool
has_string [] s = ltb_ℤ (pos 0) (pos 0)
has_string (t ∷ ts) s = if t == s then true else has_string ts s

abbrev has_element : Json → String → Bool
has_element (object m) s = ltb_ℤ (pos 0) (pos 0)
has_element (array l) s = has_string l s

abbrev pub engine : Engine Value
engine = record {
  Json = Json;
  marshal = λ m. some (object m);
  unmarshal = object_of;
  marshal_list = array;
  unmarshal_list = array_of;
  mentions = has_element;
  Time = ℤ;
  format = λ t. t;
  parse = λ t. some t;
  before = ltb_ℤ;
  column_before = λ column a b. ltb_ℤ a.created_at b.created_at;
}

object_read :
    (m : Option (Dict Value)) (j : Json) → engine.marshal m ≡ some j → engine.unmarshal j ≡ some m
object_read m j h = ground arith

abbrev codec : Codec engine
codec = record {
  image = λ m. m;
  read_map = object_read;
  read_list = λ l. refl;
  time_image = λ t. t;
  read_time = λ t. refl;
}

abbrev a_row : Row Json ℤ
a_row = record {
  id = "job";
  name = "work";
  payload = some (object none);
  status = pending;
  retries = pos 2;
  sequence = some (array []);
  parent_id = none;
  priority = pos 0;
  tags = some (array []);
  unique_key = none;
  trace_id = none;
  correlation_id = none;
  created_at = pos 0;
  ready_at = pos 0;
  started_at = none;
  completed_at = none;
  deadline_at = none;
  period_ns = pos 0;
  cron = none;
  error = none;
  attempt = pos 0;
  metadata = some (object none);
}

abbrev pub table : Database Json ℤ
table = record { rows = a_row ∷ []; fault = none }

abbrev other : Instance Value
other = a_command "other" pending

get-update_example : get engine (update engine table job).1 "job" ≡ (
    if "job" == "job"
    then ok (record (kept engine codec job) { created_at = job.created_at })
    else get engine table "job")
unfolding update to_row row_of_id get populate_instance
get-update_example = get-update engine codec table job job "job" refl refl

scan_instance-to_row_example :
    (job.id ≡ job.id)
    × (scan_instance engine (record a_row { error = some job.error }) ≡ ok (kept engine codec job))
unfolding to_row
scan_instance-to_row_example =
    scan_instance-to_row engine codec job (record a_row { error = some job.error }) refl

-- nobody holds a command yet
abbrev idle : Claims Json ℤ
idle = record { db = table; held = [] }

idle-Exclusive : Exclusive engine idle
unfolding tally row_of_id
idle-Exclusive = record {
  one_row = λ id. ground arith;
  one_holder = λ id. omega arith;
  busy = λ id h. absurd (omega (arith, h));
}

-- `job` is claimed, and finished by its holder
abbrev taken : Claims Json ℤ
taken = record { db = (claim_pending engine [] table (pos 5) (pos 10)).1; held = "job" ∷ [] }

claimed_job : Step engine idle taken
unfolding claim_pending claim_rows start_rows scan_instance is_claimable order_by select tally
    scan_all same
claimed_job = Step.claim idle [] (pos 5) (pos 10) (as_claimed (pos 5) job ∷ []) refl

-- the holder finishes the command
abbrev finished : Claims Json ℤ
finished = record {
  db = (update_postgres engine taken.db (record job { status = completed })).1;
  held = [];
}

Reach-Exclusive_example : Exclusive engine finished
Reach-Exclusive_example =
    Reach-Exclusive engine
      (Reach.next (Reach.next Reach.here claimed_job)
        (Step.finish taken (record job { status = completed }) [] [] refl))
      idle-Exclusive

ltb_ℤ-IsOrder : IsOrder ltb_ℤ
ltb_ℤ-IsOrder = record { asym = λ a b h. ground arith; trans = λ a b c h g. ground arith }

-- `job` as it is answered
abbrev claimed : Instance Value
claimed = record job { status = started; started_at = some (pos 5); attempt = pos 1 }

claim_pending-Served_example :
    let batch = claim_rows engine [] (pos 5) (pos 10) table.rows in
    (1 ≤ 10)
    × Answered engine (pos 5) batch (claimed ∷ [])
    × All (Among engine table.rows) batch
    × All (λ r. is_free engine [] (pos 5) r ≡ true) batch
    × All (Served engine batch ("job" ∷ []) [] (pos 5)) table.rows
unfolding claim_pending claim_rows start_rows scan_instance is_claimable order_by select tally
    scan_all same ◌+ℤ◌
claim_pending-Served_example =
    claim_pending-Served engine [] table (pos 5) (pos 10) (claimed ∷ []) ltb_ℤ-IsOrder refl

abbrev writes : List (Write engine)
writes =
    Write.creates other
    ∷ Write.updates (record job { status = completed })
    ∷ Write.deletes "other"
    ∷ []

commit-write_each_example :
    (commit
        (write_each_tx engine (record { base = table; rows = table.rows; aborted = false }) writes)
      ≡ (
        ok tt,
        record table { rows = record a_row { status = completed; error = some job.error } ∷ [] },
      ))
    × (rollback (
          write_each_tx engine (record { base = table; rows = table.rows; aborted = false }) writes)
        ≡ table)
unfolding create_postgres update_postgres delete_postgres begin to_row row_of_id update_row
    delete_row select parent_exists orphan
commit-write_each_example =
    commit-write_each engine table
      (record table { rows = record a_row { status = completed; error = some job.error } ∷ [] })
      (record { base = table; rows = table.rows; aborted = false }) writes refl refl
