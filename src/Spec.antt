-- ===== src/Spec.antt =====
-- spec.go: the specification of a command, its builders, and mergeSpecs of executor_maintenance.go.
-- A nil map is `none`; a nil slice and an empty one are both []. The value type of the payload
-- (Go's `any`) is a parameter. Times and durations are integers, in nanoseconds.
pub mod Merge
use durex.Prelude.{
  ℤ, pos, String, Bool, Option, none, some, List, [], ◌∷◌, ◌++◌, Dict, merge, is_zero, ◌==◌,
  if◌then◌else◌,
}

pub record Spec (V : Type 0) : Type 0 where
  pub name : String
  pub payload : Option (Dict V)
  pub delay : ℤ
  pub period : ℤ
  pub cron : String
  pub timeout : ℤ
  pub deadline : ℤ
  pub deadline_at : Option ℤ
  pub retries : ℤ
  pub sequence : List String
  pub priority : ℤ
  pub tags : List String
  pub unique_key : String
  pub trace_id : String
  pub correlation_id : String

-- Spec{}
abbrev pub zero_spec : {V : Type 0} → Spec V
zero_spec = record {
  name = "";
  payload = none;
  delay = pos 0;
  period = pos 0;
  cron = "";
  timeout = pos 0;
  deadline = pos 0;
  deadline_at = none;
  retries = pos 0;
  sequence = [];
  priority = pos 0;
  tags = [];
  unique_key = "";
  trace_id = "";
  correlation_id = "";
}

-- if m == nil { m = make(M) }
abbrev pub made {ℓ} : {V : Type ℓ} → Option (Dict V) → Dict V
made none = []
made (some m) = m

-- if user.F != 0 { result.F = user.F }, for each kind of field
abbrev pub or_int : ℤ → ℤ → ℤ
or_int d u = if is_zero u then d else u

abbrev pub or_string : String → String → String
or_string d u = if u == "" then d else u

abbrev pub or_list {ℓ} : {A : Type ℓ} → List A → List A → List A
or_list d [] = d
or_list d (x ∷ xs) = x ∷ xs

abbrev pub or_option {ℓ} : {A : Type ℓ} → Option A → Option A → Option A
or_option d none = d
or_option d (some a) = some a

-- if user.Data != nil { make, then copy the entries over }
abbrev pub or_data {ℓ} : {V : Type ℓ} → Option (Dict V) → Option (Dict V) → Option (Dict V)
or_data d none = d
or_data d (some u) = some (merge (made d) u)

module _ {V : Type 0} where
  unfoldable pub with_data : Spec V → Dict V → Spec V
  with_data s d = record s { payload = some (merge (made s.payload) d) }

  unfoldable pub with_delay : Spec V → ℤ → Spec V
  with_delay s d = record s { delay = d }

  unfoldable pub with_retries : Spec V → ℤ → Spec V
  with_retries s n = record s { retries = n }

  unfoldable pub with_timeout : Spec V → ℤ → Spec V
  with_timeout s d = record s { timeout = d }

  unfoldable pub with_deadline : Spec V → ℤ → Spec V
  with_deadline s d = record s { deadline = d }

  unfoldable pub with_priority : Spec V → ℤ → Spec V
  with_priority s p = record s { priority = p }

  unfoldable pub with_tags : Spec V → List String → Spec V
  with_tags s tags = record s { tags = s.tags ++ tags }

  unfoldable pub with_unique_key : Spec V → String → Spec V
  with_unique_key s key = record s { unique_key = key }

  unfoldable pub with_trace_id : Spec V → String → Spec V
  with_trace_id s trace_id = record s { trace_id = trace_id }

  unfoldable pub with_correlation_id : Spec V → String → Spec V
  with_correlation_id s correlation_id = record s { correlation_id = correlation_id }

  unfoldable pub with_period : Spec V → ℤ → Spec V
  with_period s d = record s { period = d }

  unfoldable pub with_cron : Spec V → String → Spec V
  with_cron s expr = record s { cron = expr }

  unfoldable pub with_sequence : Spec V → List String → Spec V
  with_sequence s names = record s { sequence = names }

  unfoldable pub with_deadline_at : Spec V → ℤ → Spec V
  with_deadline_at s t = record s { deadline_at = some t }

  unfoldable pub merge_specs : Spec V → Spec V → Spec V
  merge_specs defaults user = record {
    name = or_string defaults.name user.name;
    payload = or_data defaults.payload user.payload;
    delay = or_int defaults.delay user.delay;
    period = or_int defaults.period user.period;
    cron = or_string defaults.cron user.cron;
    timeout = or_int defaults.timeout user.timeout;
    deadline = or_int defaults.deadline user.deadline;
    deadline_at = or_option defaults.deadline_at user.deadline_at;
    retries = or_int defaults.retries user.retries;
    sequence = or_list defaults.sequence user.sequence;
    priority = or_int defaults.priority user.priority;
    tags = or_list defaults.tags user.tags;
    unique_key = or_string defaults.unique_key user.unique_key;
    trace_id = or_string defaults.trace_id user.trace_id;
    correlation_id = or_string defaults.correlation_id user.correlation_id;
  }

  -- the defaults after mergeSpecs, which writes the user's data into their map, if they have one
  unfoldable pub defaults_after : Spec V → Spec V → Spec V
  defaults_after defaults user = record defaults {
    payload = elim defaults.payload [ none ↦ none | some d ↦ or_data (some d) user.payload ];
  }
