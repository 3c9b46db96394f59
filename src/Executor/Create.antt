-- ===== src/Executor/Create.antt =====
-- createInstance of executor_maintenance.go.
use durex.Prelude.{
  suc, ℤ, pos, ltb_ℤ, ◌+ℤ◌, is_zero, String, ◌&&◌, Option, none, some, [], ◌==◌, if◌then◌else◌,
}
use durex.Text.{empty_text}
use durex.Status.{pending}
use durex.Event.{EventType}
use durex.Spec.{Spec, merge_specs}
use durex.Instance.{Instance, record_event}
use durex.Registry.{resolve}
use durex.Env.{Env}
use durex.Executor.{Executor, default_of}

-- the defaults of the handler, if there is one and it has some
unfoldable pub with_defaults : {V S : Type 0} → Executor V S → Spec V → Spec V
with_defaults e spec = elim (resolve e.registry spec.name) [
  | none ↦ spec
  | some handler ↦ elim (default_of handler) [ none ↦ spec | some d ↦ merge_specs d spec ]
]

-- an explicit deadline goes before a relative one
abbrev deadline_of : Option ℤ → ℤ → ℤ → Option ℤ
deadline_of (some t) deadline now = some t
deadline_of none deadline now = if ltb_ℤ (pos 0) deadline then some (now +ℤ deadline) else none

-- a field that is 0 takes a default that is positive
abbrev or_default : ℤ → ℤ → ℤ
or_default n d = if is_zero n && ltb_ℤ (pos 0) d then d else n

module _ {V S : Type 0} where
  unfoldable pub new_instance : Executor V S → Spec V → String → ℤ → Instance V
  unfolding record_event
  new_instance e spec id now = record_event instance EventType.created now empty_text
    where
      instance : Instance V
      instance = record {
        id = id;
        name = spec.name;
        payload = spec.payload;
        status = pending;
        retries = or_default spec.retries e.config.default_retries;
        sequence = spec.sequence;
        parent_id = none;
        priority = spec.priority;
        tags = spec.tags;
        unique_key = spec.unique_key;
        trace_id = spec.trace_id;
        correlation_id = spec.correlation_id;
        created_at = now;
        ready_at = now +ℤ spec.delay;
        started_at = none;
        completed_at = none;
        deadline_at = deadline_of spec.deadline_at spec.deadline now;
        timeout = or_default spec.timeout e.config.default_timeout;
        period = spec.period;
        cron = spec.cron;
        error = empty_text;
        attempt = pos 0;
        metadata = none;
        history = [];
      }

-- `none` is the error on an empty name
unfoldable pub create_instance :
    (env : Env) {S : Type 0}
    → Executor env.Any S
    → Spec env.Any
    → ℤ
    → Option (Instance env.Any) × Executor env.Any S
unfolding new_instance
create_instance env e spec now = if spec.name == "" then (none, e) else (
  some (new_instance e (with_defaults e spec) (env.generated e.generated) now),
  record e { generated = suc e.generated },
)
