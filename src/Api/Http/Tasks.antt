-- ===== src/Api/Http/Tasks.antt =====
-- The task handlers of internal/apiserver/interfaces/http/server.go, and readyz.
use dispatchhub.Prelude.{
  ℕ, Text, Bool, true, false, Option, none, some, List, is_empty, if◌then◌else◌,
}
use dispatchhub.Prelude.Int.{ℤ, pos}
use dispatchhub.Entity.{Task, TaskFilter, QueueStats}
use dispatchhub.Entity.State.{pending}
use dispatchhub.Redis.{Redis}
use dispatchhub.Redis.Call.{Link, Reply}
use dispatchhub.Broker.Codec.{Codec}
use dispatchhub.Mysql.Interface.{Mysql}
use dispatchhub.Mysql.Tasks.{get, list}
use dispatchhub.Api.Service.{ServiceError, Request, Hooks, submit_task, cancel_task, queue_stats}
use dispatchhub.Api.Http.{
  Answer, answer, refuse, SubmitTaskBody, ListTasksQuery, duration_field, number_field, status_ok,
  status_created, status_bad_request, status_not_found, status_internal_server_error,
  status_service_unavailable,
}

-- The fields that handleSubmitTask leaves out have Go's zero values.
unfoldable pub task_of_body : (Text → Option ℤ) → SubmitTaskBody → Task
task_of_body parse_duration body = record {
  id = List.[];
  name = body.name;
  namespace = body.namespace;
  group = body.group;
  type = body.type;
  payload = body.payload;
  labels = body.labels;
  priority = body.priority;
  delay = duration_field parse_duration body.delay;
  schedule_at = none;
  timeout_after = duration_field parse_duration body.timeout_after;
  max_retries = body.max_retries;
  retry_count = 0;
  retry_backoff = pos 0;
  state = pending;
  result = List.[];
  error = List.[];
  worker_id = List.[];
  queue_name = body.queue_name;
  created_at = 0;
  updated_at = 0;
  started_at = none;
  finished_at = none;
  version = 0;
}

unfoldable pub filter_of_query : (Text → Option ℤ) → ListTasksQuery → TaskFilter
filter_of_query atoi query = record {
  namespace = query.namespace;
  group = query.group;
  type = query.type;
  state = none;
  labels = List.[];
  queue_name = query.queue;
  worker_id = List.[];
  limit = number_field atoi (pos 0) query.limit;
  offset = number_field atoi (pos 0) query.offset;
}

unfoldable pub submitted_page : Option ServiceError → Task → Answer (Text × Task)
submitted_page (some e) t = refuse status_internal_server_error
submitted_page none t = answer status_created (t.id, t)

unfoldable pub task_page : Reply (Option Task) → Answer Task
task_page Reply.err = refuse status_internal_server_error
task_page (Reply.ok none) = refuse status_not_found
task_page (Reply.ok (some t)) = answer status_ok t

unfoldable pub tasks_page : Reply (ℕ × List Task) → Answer (List Task × ℕ)
tasks_page Reply.err = refuse status_internal_server_error
tasks_page (Reply.ok (total, tasks)) = answer status_ok (tasks, total)

unfoldable pub cancelled_page : Option ServiceError → Answer (Unit {0})
cancelled_page (some e) = refuse status_internal_server_error
cancelled_page none = answer status_ok tt

unfoldable pub stats_page : Reply QueueStats → Answer QueueStats
stats_page Reply.err = refuse status_internal_server_error
stats_page (Reply.ok counts) = answer status_ok counts

-- `none` is a server without a health check; else whether the check passes.
unfoldable pub handle_readyz : Option Bool → Answer (Unit {0})
handle_readyz none = answer status_ok tt
handle_readyz (some true) = answer status_ok tt
handle_readyz (some false) = refuse status_service_unavailable

module _ (r : Redis) (c : Codec) (m : Mysql) (parse_duration : Text → Option ℤ)
    (atoi : Text → Option ℤ) where
  unfoldable pub handle_submit_task :
      Request
      → Hooks
      → Option SubmitTaskBody
      → r.Store
      → m.Db
      → Answer (Text × Task) × r.Store × m.Db
  unfolding submitted_page
  handle_submit_task request hooks none s db = (refuse status_bad_request, s, db)
  handle_submit_task request hooks (some body) s db =
      if is_empty body.type
      then (refuse status_bad_request, s, db)
      else let (error, t, s', db') =
          submit_task r c m request hooks (task_of_body parse_duration body) s db in
        (submitted_page error t, s', db')

  unfoldable pub handle_get_task : Link → Text → m.Db → Answer Task × m.Db
  unfolding task_page
  handle_get_task link id db = let (reply, db') = get m link id db in (task_page reply, db')

  unfoldable pub handle_list_tasks :
      Link → Link → ListTasksQuery → m.Db → Answer (List Task × ℕ) × m.Db
  unfolding tasks_page filter_of_query
  handle_list_tasks count_link select_link query db =
      let (reply, db') = list m count_link select_link (filter_of_query atoi query) db in
      (tasks_page reply, db')

  unfoldable pub after_cancelled :
      Option (Option ServiceError × r.Store × m.Db) → Option (Answer (Unit {0}) × r.Store × m.Db)
  unfolding cancelled_page
  after_cancelled none = none
  after_cancelled (some (error, s, db)) = some (cancelled_page error, s, db)

  unfoldable pub handle_cancel_task :
      ℕ
      → Link
      → Link
      → Link
      → ℕ
      → Text
      → r.Store
      → m.Db
      → Option (Answer (Unit {0}) × r.Store × m.Db)
  unfolding after_cancelled
  handle_cancel_task fuel read write push now id s db =
      after_cancelled (cancel_task r c m fuel read write push now id s db)

  unfoldable pub handle_queue_stats : Link → Text → r.Store → Answer QueueStats × r.Store
  unfolding stats_page
  handle_queue_stats link name s =
      let (reply, s') = queue_stats r c m link name s in (stats_page reply, s')
