-- ===== src/Executor/Dashboard/Messages.antt =====
-- dashboard.go: requests and responses.
use durex.Prelude.{
  ℕ, ℤ, pos, ltb_ℤ, String, Bool, not, ◌&&◌, Option, none, some, List, Dict, lookup, if◌then◌else◌,
}
use durex.Text.{Text}
use durex.Status.{Status}
use durex.Event.{Event}
use durex.Instance.{Instance}
use durex.Storage.{StorageError}
use durex.Executor.{Error}
use durex.Executor.Dlq.{Stats}

-- the method, and the first value of each parameter of the query
pub record Request : Type 0 where
  pub method : String
  pub parameters : Dict String

-- what http.Error is given
pub data Failure : Type 0 where
  method_not_allowed missing_id : Failure
  storage_error : StorageError → Failure
  executor_error : Error → Failure
  not_retryable : Status → Failure

pub record CommandResponse : Type 0 where
  pub id : String
  pub name : String
  pub status : Status
  pub attempt : ℤ
  pub retries : ℤ
  pub priority : ℤ
  pub created_at : ℤ
  pub ready_at : ℤ
  pub started_at : Option ℤ
  pub completed_at : Option ℤ
  pub deadline_at : Option ℤ
  pub parent_id : Option String
  pub trace_id : String
  pub correlation_id : String
  pub error : Text
  pub tags : List String
  pub cron : String

pub data HealthStatus : Type 0 where
  healthy degraded unhealthy : HealthStatus

pub data HealthMessage : Type 0 where
  no_message not_started shutting_down : HealthMessage
  storage_failing : StorageError → HealthMessage

pub record HealthResponse : Type 0 where
  pub status : HealthStatus
  pub started : Bool
  pub storage_ok : Bool
  pub worker_count : ℕ
  pub queue_depth : ℕ
  pub message : HealthMessage
  pub timestamp : ℤ

-- the status code goes with each of them
pub data Response : Type 0 where
  error_of : ℕ → Failure → Response
  stats_of : Stats → Response
  commands_of : List CommandResponse → Response
  health_of : ℕ → HealthResponse → Response
  history_of : String → List Event → Response
  scheduled_of cancelled_of : String → Response

-- r.URL.Query().Get, empty for a parameter that is missing
abbrev pub parameter : Request → String → String
parameter r key = elim (lookup key r.parameters) [ none ↦ "" | some v ↦ v ]

unfoldable pub command_response : {V : Type 0} → Instance V → CommandResponse
command_response cmd = record {
  id = cmd.id;
  name = cmd.name;
  status = cmd.status;
  attempt = cmd.attempt;
  retries = cmd.retries;
  priority = cmd.priority;
  created_at = cmd.created_at;
  ready_at = cmd.ready_at;
  started_at = cmd.started_at;
  completed_at = cmd.completed_at;
  deadline_at = cmd.deadline_at;
  parent_id = cmd.parent_id;
  trace_id = cmd.trace_id;
  correlation_id = cmd.correlation_id;
  error = cmd.error;
  tags = cmd.tags;
  cron = cmd.cron;
}

-- a limit that does not parse, or is not between 1 and 100, is 20
unfoldable pub limit_of : (String → Option ℤ) → String → ℤ
limit_of atoi l = elim (atoi l) [
  | none ↦ pos 20
  | some n ↦ if ltb_ℤ (pos 0) n && not (ltb_ℤ (pos 100) n) then n else pos 20
]
