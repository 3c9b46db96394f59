-- ===== src/Examples/Data.antt =====
-- An environment of a few JSON values, commands, handlers, and executors in queue mode over the
-- in-memory storage.
use durex.Prelude.{ℤ, pos, String, true, false, Option, none, some, List, [], ◌∷◌}
use durex.Text.{lit, empty_text}
use durex.Status.{Status, pending}
use durex.Spec.{Spec, zero_spec}
use durex.Result.{empty}
use durex.Env.{Env}
use durex.Instance.{Instance}
use durex.RateLimiter.{RateLimiter, new_rate_limiter}
use durex.Storage.Memory.{Memory}
use durex.Executor.{Executor, Handler, Verdict, user, queueing}
use durex.Executor.Options.{default_config}

pub data Value : Type 0 where
  number : ℤ → Value
  text : String → Value
  texts : List String → Value
  -- a command, by its name
  command : String → Value

abbrev pub named : String → Spec Value
named n = record zero_spec { name = n }

abbrev int_of : Value → Option ℤ
int_of (number n) = some n
int_of _ = none

abbrev string_of : Value → Option String
string_of (text s) = some s
string_of _ = none

abbrev strings_of : Value → Option (List String)
strings_of (texts l) = some l
strings_of _ = none

abbrev spec_of : Value → Option (Spec Value)
spec_of (command n) = some (named n)
spec_of _ = none

-- ids are the same at every call, and every cron expression is refused
abbrev pub env : Env
env = record {
  Any = Value;
  round_trip = λ m. some m;
  of_int = number;
  of_string = text;
  of_strings = texts;
  of_spec = λ s. command s.name;
  as_string = string_of;
  as_bool = λ v. none;
  as_int = int_of;
  as_int64 = λ v. none;
  as_float64 = λ v. none;
  as_slice = λ v. none;
  as_map = λ v. none;
  to_int = int_of;
  to_string = string_of;
  to_strings = strings_of;
  to_spec = spec_of;
  Schedule = Unit {0};
  parse_schedule = λ s. none;
  next_after = λ s t. none;
  generated = λ n. "new";
}

-- a command of the handler `work`, created and ready at 0
abbrev pub a_command : String → Status → Instance Value
a_command id status = record {
  id = id;
  name = "work";
  payload = none;
  status = status;
  retries = pos 2;
  sequence = [];
  parent_id = none;
  priority = pos 0;
  tags = [];
  unique_key = "";
  trace_id = "";
  correlation_id = "";
  created_at = pos 0;
  ready_at = pos 0;
  started_at = none;
  completed_at = none;
  deadline_at = none;
  timeout = pos 0;
  period = pos 0;
  cron = "";
  error = empty_text;
  attempt = pos 0;
  metadata = none;
  history = [];
}

abbrev pub job : Instance Value
job = a_command "job" pending

abbrev pub a_handler : Verdict Value → Handler Value
a_handler v = record {
  name = "work";
  execute = λ i. record { instance_after = i; verdict = v };
  recover = none;
  expired = none;
  default = none;
}

abbrev pub succeeding : Handler Value
succeeding = a_handler (Verdict.returned empty)

abbrev pub failing : Handler Value
failing = a_handler (Verdict.failed (lit "boom"))

abbrev pub panicking : Handler Value
panicking = a_handler (Verdict.panicked (lit "boom"))

-- a started executor with one handler, in which `job` is stored and queued
abbrev pub executor : Handler Value → Option RateLimiter → Executor Value (Memory Value)
executor h limiter = record {
  config = default_config;
  registry = record { handlers = (h.name, user h) ∷ [] };
  storage = record { commands = ("job", job) ∷ []; closed = false };
  rate_limiter = limiter;
  queue = job ∷ [];
  delayed_timers = [];
  schedule_fn = queueing;
  started = true;
  stopping = false;
  generated = 0;
  observed = [];
}

-- one slot for `work`
abbrev pub limiter : RateLimiter
limiter = record new_rate_limiter { limits = ("work", pos 1) ∷ [] }
