-- ===== src/Storage/Sql/Rows.antt =====
-- storage/sqlite.go, storage/postgres.go: a command as a row, and back. There is no column for the
-- timeout and none for the history. A nil slice and an empty one are both [].
use durex.Prelude.{ℤ, pos, negsuc, String, Option, none, some, List, [], ◌∷◌}
use durex.Text.{Text, lit}
use durex.Instance.{Instance}
use durex.Storage.{Reply, ok, err, backend}
use durex.Storage.Sql.{Row, Engine, null_str, or_empty, or_empty_text}

infixl 5 ◌>>=◌
abbrev pub ◌>>=◌ {ℓ κ} : {A : Type ℓ} {B : Type κ} → Reply A → (A → Reply B) → Reply B
ok a >>= f = f a
err e >>= f = err e

abbrev pub attempt_to {ℓ} : {A : Type ℓ} → String → Option A → Reply A
attempt_to message none = err (backend (lit message))
attempt_to message (some a) = ok a

-- time.Time{}, in nanoseconds from 1970: midnight, January 1, year 1
abbrev pub zero_time : ℤ
zero_time = negsuc 62135596799999999999

module _ {Any : Type 0} (engine : Engine Any) where
  open engine use {Json, Time, marshal, unmarshal, marshal_list, unmarshal_list, format, parse}

  abbrev pub formatted : Option ℤ → Option Time
  formatted none = none
  formatted (some t) = some (format t)

  -- the arguments of INSERT; `error_column` is what is written for the error message
  unfoldable pub to_row : (Text → Option Text) → Instance Any → Reply (Row Json Time)
  to_row error_column cmd = do
    data_json ← attempt_to "failed to marshal data" (marshal cmd.payload)
    metadata_json ← attempt_to "failed to marshal metadata" (marshal cmd.metadata)
    ok (record {
      id = cmd.id;
      name = cmd.name;
      payload = some data_json;
      status = cmd.status;
      retries = cmd.retries;
      sequence = some (marshal_list cmd.sequence);
      parent_id = cmd.parent_id;
      priority = cmd.priority;
      tags = some (marshal_list cmd.tags);
      unique_key = null_str cmd.unique_key;
      trace_id = null_str cmd.trace_id;
      correlation_id = null_str cmd.correlation_id;
      created_at = format cmd.created_at;
      ready_at = format cmd.ready_at;
      started_at = formatted cmd.started_at;
      completed_at = formatted cmd.completed_at;
      deadline_at = formatted cmd.deadline_at;
      period_ns = cmd.period;
      cron = null_str cmd.cron;
      error = error_column cmd.error;
      attempt = cmd.attempt;
      metadata = some metadata_json;
    })

  -- json.Unmarshal of a column that is not NULL; the zero value is `z`
  abbrev column_of {ℓ} : {A : Type ℓ} → String → A → (Json → Option A) → Option Json → Reply A
  column_of message z read none = ok z
  column_of message z read (some j) = attempt_to message (read j)

  -- the four JSON columns, in the order in which they are read
  unfoldable pub from_row :
      (created_at ready_at : ℤ) (started_at completed_at deadline_at : Option ℤ)
      → Row Json Time
      → Reply (Instance Any)
  from_row created_at ready_at started_at completed_at deadline_at r = do
    payload ← column_of "failed to unmarshal data" none unmarshal r.payload
    sequence ← column_of "failed to unmarshal sequence" [] unmarshal_list r.sequence
    tags ← column_of "failed to unmarshal tags" [] unmarshal_list r.tags
    metadata ← column_of "failed to unmarshal metadata" none unmarshal r.metadata
    ok (record {
      id = r.id;
      name = r.name;
      payload = payload;
      status = r.status;
      retries = r.retries;
      sequence = sequence;
      parent_id = r.parent_id;
      priority = r.priority;
      tags = tags;
      unique_key = or_empty r.unique_key;
      trace_id = or_empty r.trace_id;
      correlation_id = or_empty r.correlation_id;
      created_at = created_at;
      ready_at = ready_at;
      started_at = started_at;
      completed_at = completed_at;
      deadline_at = deadline_at;
      timeout = pos 0;
      period = r.period_ns;
      cron = or_empty r.cron;
      error = or_empty_text r.error;
      attempt = r.attempt;
      metadata = metadata;
      history = [];
    })

  -- SQLite: a time that does not parse is left out
  abbrev pub parsed : Option Time → Option ℤ
  parsed none = none
  parsed (some t) = parse t

  abbrev or_zero_time : Option ℤ → ℤ
  or_zero_time none = zero_time
  or_zero_time (some t) = t

  unfoldable pub populate_instance : Row Json Time → Reply (Instance Any)
  unfolding from_row
  populate_instance r =
      from_row (or_zero_time (parse r.created_at)) (or_zero_time (parse r.ready_at))
        (parsed r.started_at) (parsed r.completed_at) (parsed r.deadline_at) r

  -- PostgreSQL: a time column that cannot be read fails the scan
  abbrev pub scanned : Option Time → Reply (Option ℤ)
  scanned none = ok none
  scanned (some t) = attempt_to "scan" (parse t) >>= (λ n. ok (some n))

  unfoldable pub scan_instance : Row Json Time → Reply (Instance Any)
  unfolding from_row
  scan_instance r = do
    created_at ← attempt_to "scan" (parse r.created_at)
    ready_at ← attempt_to "scan" (parse r.ready_at)
    started_at ← scanned r.started_at
    completed_at ← scanned r.completed_at
    deadline_at ← scanned r.deadline_at
    from_row created_at ready_at started_at completed_at deadline_at r

  -- the loop of queryInstances: the first row that cannot be read ends it
  unfoldable pub scan_all :
      (Row Json Time → Reply (Instance Any)) → List (Row Json Time) → Reply (List (Instance Any))
  scan_all scan [] = ok []
  scan_all scan (r ∷ rows) = do cmd ← scan r; cmds ← scan_all scan rows; ok (cmd ∷ cmds)
