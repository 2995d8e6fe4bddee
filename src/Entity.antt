-- ===== src/Entity.antt =====
-- internal/shared/domain/entity: tasks, cron jobs and queue statistics.
-- A time is a count of nanoseconds, a `time.Duration` a signed count of nanoseconds. JSON values
-- (payload, labels) are kept as their text.
pub mod State
pub mod Laws
pub mod Worker
pub mod Column
use dispatchhub.Prelude.{ℕ, Text, Bool, true, false, Option, List, ◌&&◌, not}
use dispatchhub.Prelude.Int.{ℤ, pos, ltb_ℤ}
use State.{TaskState, pending, scheduled, running, retrying, completed, failed, cancelled, timeout}

pub record Task : Type 0 where
  pub id : Text
  pub name : Text
  pub namespace : Text
  pub group : Text
  pub type : Text
  pub payload : Text
  pub labels : Text
  pub priority : ℤ
  pub delay : ℤ
  pub schedule_at : Option ℕ
  pub timeout_after : ℤ
  pub max_retries : ℤ
  pub retry_count : ℕ
  pub retry_backoff : ℤ
  pub state : TaskState
  pub result : Text
  pub error : Text
  pub worker_id : Text
  pub queue_name : Text
  pub created_at : ℕ
  pub updated_at : ℕ
  pub started_at : Option ℕ
  pub finished_at : Option ℕ
  pub version : ℕ

-- The `switch` of `IsTerminal`.
abbrev pub terminal_state : TaskState → Bool
terminal_state completed = true
terminal_state failed = true
terminal_state cancelled = true
terminal_state timeout = true
terminal_state _ = false

unfoldable pub is_terminal : Task → Bool
is_terminal t = terminal_state t.state

unfoldable pub can_retry : Task → Bool
unfolding is_terminal
can_retry t = ltb_ℤ (pos t.retry_count) t.max_retries && not (is_terminal t)

pub data ConcurrencyPolicy : Type 0 where
  allow forbid : ConcurrencyPolicy

pub record CronJob : Type 0 where
  pub id : Text
  pub name : Text
  pub namespace : Text
  pub type : Text
  pub payload : Text
  pub labels : Text
  pub cron_expr : Text
  pub queue_name : Text
  pub priority : ℤ
  pub timeout_after : ℤ
  pub max_retries : ℤ
  pub retry_backoff : ℤ
  pub concurrency_policy : ConcurrencyPolicy
  pub enabled : Bool
  pub last_run_at : Option ℕ
  pub next_run_at : Option ℕ
  pub created_at : ℕ
  pub updated_at : ℕ

-- The fields that `ToTask` leaves out have Go's zero values.
unfoldable pub to_task : CronJob → Task
to_task c = record {
  id = List.[];
  name = c.name;
  namespace = c.namespace;
  group = List.[];
  type = c.type;
  payload = c.payload;
  labels = c.labels;
  priority = c.priority;
  delay = pos 0;
  schedule_at = Option.none;
  timeout_after = c.timeout_after;
  max_retries = c.max_retries;
  retry_count = 0;
  retry_backoff = c.retry_backoff;
  state = pending;
  result = List.[];
  error = List.[];
  worker_id = List.[];
  queue_name = c.queue_name;
  created_at = 0;
  updated_at = 0;
  started_at = Option.none;
  finished_at = Option.none;
  version = 0;
}

pub record QueueStats : Type 0 where
  pub name : Text
  pub pending_count : ℕ
  pub active : ℕ
  pub scheduled_count : ℕ
  pub retrying_count : ℕ
  pub completed_count : ℕ
  pub failed_count : ℕ

-- What a handler returns: its output, or the text of its error.
pub record TaskResult : Type 0 where
  pub output : Text
  pub error : Option Text

-- A limit of 0 or less and an offset of 0 or less are the caller's zero values.
pub record TaskFilter : Type 0 where
  pub namespace : Text
  pub group : Text
  pub type : Text
  pub state : Option TaskState
  pub labels : Text
  pub queue_name : Text
  pub worker_id : Text
  pub limit : ℤ
  pub offset : ℤ
