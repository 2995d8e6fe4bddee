-- ===== src/Api/Grpc/Tasks.antt =====
-- The task methods of internal/apiserver/interfaces/grpc/server.go. A panic of a handler is recovered
-- by the server's interceptor, which answers Internal.
use dispatchhub.Prelude.{ℕ, Text, Option, none, some, List, is_empty, map, if◌then◌else◌}
use dispatchhub.Prelude.Int.{ℤ}
use dispatchhub.Entity.{Task, TaskFilter, QueueStats}
use dispatchhub.Entity.State.{TaskState}
use dispatchhub.Redis.{Redis}
use dispatchhub.Redis.Call.{Link, Reply}
use dispatchhub.Broker.Codec.{Codec}
use dispatchhub.Mysql.Interface.{Mysql}
use dispatchhub.Mysql.Tasks.{get, list}
use dispatchhub.Api.Service.{ServiceError, Request, Hooks, submit_task, cancel_task, queue_stats}
use dispatchhub.Api.Grpc.{
  ProtoState, state_unspecified, state_pending, state_scheduled, state_running, state_retrying,
  state_completed, state_failed, state_cancelled, state_timeout, TaskSpec, ProtoTask,
  proto_to_entity_state, entity_to_proto_task, task_of_spec,
}

-- The status codes of google.golang.org/grpc/codes that the handlers use.
pub data Code : Type 0 where
  invalid_argument not_found internal : Code

pub data Answer {ℓ} (A : Type ℓ) : Type ℓ where
  ok : A → Answer A
  err : Code → Answer A

pub record ListTasksRequest : Type 0 where
  pub namespace : Text
  pub group : Text
  pub type : Text
  pub queue_name : Text
  pub state : ProtoState
  pub limit : ℤ
  pub offset : ℤ

unfoldable pub state_filter : ProtoState → Option TaskState
unfolding proto_to_entity_state
state_filter state_unspecified = none
state_filter state_pending = some (proto_to_entity_state state_pending)
state_filter state_scheduled = some (proto_to_entity_state state_scheduled)
state_filter state_running = some (proto_to_entity_state state_running)
state_filter state_retrying = some (proto_to_entity_state state_retrying)
state_filter state_completed = some (proto_to_entity_state state_completed)
state_filter state_failed = some (proto_to_entity_state state_failed)
state_filter state_cancelled = some (proto_to_entity_state state_cancelled)
state_filter state_timeout = some (proto_to_entity_state state_timeout)

unfoldable pub filter_of : ListTasksRequest → TaskFilter
unfolding state_filter
filter_of request = record {
  namespace = request.namespace;
  group = request.group;
  type = request.type;
  state = state_filter request.state;
  labels = List.[];
  queue_name = request.queue_name;
  worker_id = List.[];
  limit = request.limit;
  offset = request.offset;
}

unfoldable pub submit_answer : Option ServiceError → Task → Answer (Text × ProtoTask)
submit_answer (some e) t = err internal
submit_answer none t = ok (t.id, entity_to_proto_task t)

unfoldable pub get_answer : Reply (Option Task) → Answer ProtoTask
get_answer Reply.err = err internal
get_answer (Reply.ok none) = err not_found
get_answer (Reply.ok (some t)) = ok (entity_to_proto_task t)

unfoldable pub list_answer : Reply (ℕ × List Task) → Answer (List ProtoTask × ℕ)
list_answer Reply.err = err internal
list_answer (Reply.ok (total, tasks)) = ok (map entity_to_proto_task tasks, total)

-- The conversion of a nil task panics.
unfoldable pub cancelled_answer : Reply (Option Task) → Answer ProtoTask
cancelled_answer Reply.err = err internal
cancelled_answer (Reply.ok none) = err internal
cancelled_answer (Reply.ok (some t)) = ok (entity_to_proto_task t)

unfoldable pub stats_answer : Reply QueueStats → Answer QueueStats
stats_answer Reply.err = err internal
stats_answer (Reply.ok counts) = ok counts

module _ (r : Redis) (c : Codec) (m : Mysql) where
  unfoldable pub rpc_submit_task :
      Request
      → Hooks
      → Option TaskSpec
      → r.Store
      → m.Db
      → Answer (Text × ProtoTask) × r.Store × m.Db
  unfolding submit_answer
  rpc_submit_task request hooks none s db = (err invalid_argument, s, db)
  rpc_submit_task request hooks (some spec) s db =
      if is_empty spec.type
      then (err invalid_argument, s, db)
      else let (error, t, s', db') = submit_task r c m request hooks (task_of_spec spec) s db in
        (submit_answer error t, s', db')

  unfoldable pub rpc_get_task : Link → Text → m.Db → Answer ProtoTask × m.Db
  unfolding get_answer
  rpc_get_task link id db = let (reply, db') = get m link id db in (get_answer reply, db')

  unfoldable pub rpc_list_tasks :
      Link → Link → ListTasksRequest → m.Db → Answer (List ProtoTask × ℕ) × m.Db
  unfolding list_answer filter_of
  rpc_list_tasks count_link select_link request db =
      let (reply, db') = list m count_link select_link (filter_of request) db in
      (list_answer reply, db')

  unfoldable pub after_cancel :
      Link
      → Text
      → Option (Option ServiceError × r.Store × m.Db)
      → Option (Answer ProtoTask × r.Store × m.Db)
  unfolding cancelled_answer
  after_cancel link id none = none
  after_cancel link id (some (some e, s, db)) = some (err internal, s, db)
  after_cancel link id (some (none, s, db)) =
      let (reply, db') = get m link id db in some (cancelled_answer reply, s, db')

  -- `again` is the link of the Get that follows; `none` means that the fuel of Remove ran out.
  unfoldable pub rpc_cancel_task :
      ℕ
      → Link
      → Link
      → Link
      → Link
      → ℕ
      → Text
      → r.Store
      → m.Db
      → Option (Answer ProtoTask × r.Store × m.Db)
  unfolding after_cancel
  rpc_cancel_task fuel read write push again now id s db =
      after_cancel again id (cancel_task r c m fuel read write push now id s db)

  unfoldable pub rpc_get_queue_stats : Link → Text → r.Store → Answer QueueStats × r.Store
  unfolding stats_answer
  rpc_get_queue_stats link queue s =
      let (reply, s') = queue_stats r c m link queue s in (stats_answer reply, s')
