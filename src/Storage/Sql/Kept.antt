-- ===== src/Storage/Sql/Kept.antt =====
-- What a command is when it is read back from a row that was written for it.
use durex.Prelude.{
  ℤ, pos, String, ◌≡◌, refl, Option, none, some, List, [], Dict, arith, eq_iff, Option-cases, inl,
  inr,
}
use durex.Text.{Text, lit}
use durex.Instance.{Instance}
use durex.Storage.{ok}
use durex.Storage.Sql.{Row, Engine, null_str, null_text, or_empty, or_empty_text}
use durex.Storage.Sql.Rows.{scan_instance, to_row, populate_instance, scanned, formatted, parsed}

-- What encoding/json and the columns promise: `image` is what JSON makes of a map, `time_image` what
-- the column keeps of a time (PostgreSQL's has microseconds); lists of strings come back as they were.
pub record Codec {Any : Type 0} (engine : Engine Any) : Type 0 where
  pub image : Option (Dict Any) → Option (Dict Any)
  pub read_map :
      (m : Option (Dict Any)) (j : engine.Json)
      → engine.marshal m ≡ some j
      → engine.unmarshal j ≡ some (image m)
  pub read_list : (l : List String) → engine.unmarshal_list (engine.marshal_list l) ≡ some l
  pub time_image : ℤ → ℤ
  pub read_time : (t : ℤ) → engine.parse (engine.format t) ≡ some (time_image t)

module _ {Any : Type 0} (engine : Engine Any) (codec : Codec engine) where
  open engine use {Json, Time}

  abbrev pub image_of : Option ℤ → Option ℤ
  image_of none = none
  image_of (some t) = some (codec.time_image t)

  -- the command without what has no column
  abbrev pub kept : Instance Any → Instance Any
  kept cmd = record cmd {
    payload = codec.image cmd.payload;
    metadata = codec.image cmd.metadata;
    created_at = codec.time_image cmd.created_at;
    ready_at = codec.time_image cmd.ready_at;
    started_at = image_of cmd.started_at;
    completed_at = image_of cmd.completed_at;
    deadline_at = image_of cmd.deadline_at;
    timeout = pos 0;
    history = [];
  }

  or_empty-null_str : (s : String) → or_empty (null_str s) ≡ s
  or_empty-null_str s = ground (arith, eq_iff s "")

  or_empty_text-null_text : (t : Text) → or_empty_text (null_text t) ≡ t
  or_empty_text-null_text (lit s) = ground (arith, eq_iff s "")
  or_empty_text-null_text _ = refl

  parsed-formatted : (t : Option ℤ) → parsed engine (formatted engine t) ≡ image_of t
  parsed-formatted none = refl
  parsed-formatted (some t) = codec.read_time t

  scanned-formatted : (t : Option ℤ) → scanned engine (formatted engine t) ≡ ok (image_of t)
  scanned-formatted none = refl
  scanned-formatted (some t) = ground (arith, codec.read_time t)

  -- A row that SQLite writes for a command is read as the command, without its timeout and history.
  pub populate_instance-to_row :
      (cmd : Instance Any) (row : Row Json Time)
      → to_row engine null_text cmd ≡ ok row
      → (row.id ≡ cmd.id) × (populate_instance engine row ≡ ok (kept cmd))
  unfolding to_row populate_instance
  populate_instance-to_row cmd row h = elim (Option-cases (engine.marshal cmd.payload)) [
    | inl e ↦ ground arith
    | inr (j, e) ↦ elim (Option-cases (engine.marshal cmd.metadata)) [
      | inl d ↦ ground arith
      | inr (k, d) ↦ ground (
        arith,
        codec.read_map cmd.payload j e,
        codec.read_map cmd.metadata k d,
        codec.read_list cmd.sequence,
        codec.read_list cmd.tags,
        or_empty-null_str cmd.unique_key,
        or_empty-null_str cmd.trace_id,
        or_empty-null_str cmd.correlation_id,
        or_empty-null_str cmd.cron,
        or_empty_text-null_text cmd.error,
        codec.read_time cmd.created_at,
        codec.read_time cmd.ready_at,
        parsed-formatted cmd.started_at,
        parsed-formatted cmd.completed_at,
        parsed-formatted cmd.deadline_at,
      )
    ]
  ]

  -- A row that PostgreSQL is given for a command has the command's id and is read as the command,
  -- without its timeout and history. JSON and the columns must give back an image of what was
  -- written.
  pub scan_instance-to_row :
      (cmd : Instance Any) (row : Row Json Time)
      → to_row engine some cmd ≡ ok row
      → (row.id ≡ cmd.id) × (scan_instance engine row ≡ ok (kept cmd))
  unfolding to_row scan_instance
  scan_instance-to_row cmd row h = elim (Option-cases (engine.marshal cmd.payload)) [
    | inl e ↦ ground arith
    | inr (j, e) ↦ elim (Option-cases (engine.marshal cmd.metadata)) [
      | inl d ↦ ground arith
      | inr (k, d) ↦ ground (
        arith,
        codec.read_map cmd.payload j e,
        codec.read_map cmd.metadata k d,
        codec.read_list cmd.sequence,
        codec.read_list cmd.tags,
        or_empty-null_str cmd.unique_key,
        or_empty-null_str cmd.trace_id,
        or_empty-null_str cmd.correlation_id,
        or_empty-null_str cmd.cron,
        codec.read_time cmd.created_at,
        codec.read_time cmd.ready_at,
        scanned-formatted cmd.started_at,
        scanned-formatted cmd.completed_at,
        scanned-formatted cmd.deadline_at,
      )
    ]
  ]
