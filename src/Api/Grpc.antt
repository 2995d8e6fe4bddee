-- ===== src/Api/Grpc.antt =====
-- The conversions of internal/apiserver/interfaces/grpc/server.go, between the messages of
-- api/proto/dispatch.pb.go and the entities. A duration message is the `time.Duration` that it stands
-- for, a timestamp the time. A message that a pointer may leave out is an Option.
pub mod RoundTrip
pub mod Tasks
pub mod Crons
use dispatchhub.Prelude.{ℕ, Text, Bool, true, Option, none, some, List, [], get_or, if◌then◌else◌}
use dispatchhub.Prelude.Int.{ℤ, pos, ltb_ℤ, wrap32}
use dispatchhub.Entity.{Task, CronJob, allow}
use dispatchhub.Entity.State.{
  TaskState, pending, scheduled, running, retrying, completed, failed, cancelled, timeout,
}

-- The named values; a number that the enum does not name is left out.
pub data ProtoState : Type 0 where
  state_unspecified state_pending state_scheduled state_running state_retrying : ProtoState
  state_completed state_failed state_cancelled state_timeout : ProtoState

pub record TaskSpec : Type 0 where
  pub name : Text
  pub namespace : Text
  pub group : Text
  pub type : Text
  pub payload : Text
  pub labels : Text
  pub priority : ℤ
  pub delay : Option ℤ
  pub schedule_at : Option ℕ
  pub timeout_after : Option ℤ
  pub max_retries : ℤ
  pub retry_backoff : Option ℤ
  pub queue_name : Text

pub record ProtoTask : Type 0 where
  pub id : Text
  pub spec : TaskSpec
  pub state : ProtoState
  pub result : Text
  pub error : Text
  pub worker_id : Text
  pub retry_count : ℤ
  pub created_at : ℕ
  pub started_at : Option ℕ
  pub finished_at : Option ℕ
  pub version : ℕ

pub record ProtoCronJob : Type 0 where
  pub id : Text
  pub name : Text
  pub namespace : Text
  pub type : Text
  pub payload : Text
  pub labels : Text
  pub cron_expr : Text
  pub queue_name : Text
  pub priority : ℤ
  pub timeout_after : Option ℤ
  pub max_retries : ℤ
  pub retry_backoff : Option ℤ
  pub enabled : Bool
  pub last_run_at : Option ℕ
  pub next_run_at : Option ℕ
  pub created_at : ℕ

unfoldable pub entity_to_proto_state : TaskState → ProtoState
entity_to_proto_state pending = state_pending
entity_to_proto_state scheduled = state_scheduled
entity_to_proto_state running = state_running
entity_to_proto_state retrying = state_retrying
entity_to_proto_state completed = state_completed
entity_to_proto_state failed = state_failed
entity_to_proto_state cancelled = state_cancelled
entity_to_proto_state timeout = state_timeout

unfoldable pub proto_to_entity_state : ProtoState → TaskState
proto_to_entity_state state_unspecified = pending
proto_to_entity_state state_pending = pending
proto_to_entity_state state_scheduled = scheduled
proto_to_entity_state state_running = running
proto_to_entity_state state_retrying = retrying
proto_to_entity_state state_completed = completed
proto_to_entity_state state_failed = failed
proto_to_entity_state state_cancelled = cancelled
proto_to_entity_state state_timeout = timeout

-- if d > 0 { … = durationpb.New(d) }
abbrev pub if_positive : ℤ → Option ℤ
if_positive d = if ltb_ℤ (pos 0) d then some d else none

unfoldable pub entity_to_proto_task : Task → ProtoTask
unfolding entity_to_proto_state
entity_to_proto_task t = record {
  id = t.id;
  spec = record {
    name = t.name;
    namespace = t.namespace;
    group = t.group;
    type = t.type;
    payload = t.payload;
    labels = t.labels;
    priority = wrap32 t.priority;
    delay = if_positive t.delay;
    schedule_at = t.schedule_at;
    timeout_after = if_positive t.timeout_after;
    max_retries = wrap32 t.max_retries;
    retry_backoff = if_positive t.retry_backoff;
    queue_name = t.queue_name;
  };
  state = entity_to_proto_state t.state;
  result = t.result;
  error = t.error;
  worker_id = t.worker_id;
  retry_count = wrap32 (pos t.retry_count);
  created_at = t.created_at;
  started_at = t.started_at;
  finished_at = t.finished_at;
  version = t.version;
}

unfoldable pub entity_to_proto_cron_job : CronJob → ProtoCronJob
entity_to_proto_cron_job j = record {
  id = j.id;
  name = j.name;
  namespace = j.namespace;
  type = j.type;
  payload = j.payload;
  labels = j.labels;
  cron_expr = j.cron_expr;
  queue_name = j.queue_name;
  priority = wrap32 j.priority;
  timeout_after = if_positive j.timeout_after;
  max_retries = wrap32 j.max_retries;
  retry_backoff = if_positive j.retry_backoff;
  enabled = j.enabled;
  last_run_at = j.last_run_at;
  next_run_at = j.next_run_at;
  created_at = j.created_at;
}

-- The task that SubmitTask makes of a spec; the fields that it leaves out have Go's zero values.
unfoldable pub task_of_spec : TaskSpec → Task
task_of_spec spec = record {
  id = [];
  name = spec.name;
  namespace = spec.namespace;
  group = spec.group;
  type = spec.type;
  payload = spec.payload;
  labels = spec.labels;
  priority = spec.priority;
  delay = get_or (pos 0) spec.delay;
  schedule_at = spec.schedule_at;
  timeout_after = get_or (pos 0) spec.timeout_after;
  max_retries = spec.max_retries;
  retry_count = 0;
  retry_backoff = get_or (pos 0) spec.retry_backoff;
  state = pending;
  result = [];
  error = [];
  worker_id = [];
  queue_name = spec.queue_name;
  created_at = 0;
  updated_at = 0;
  started_at = none;
  finished_at = none;
  version = 0;
}
