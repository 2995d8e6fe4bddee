-- ===== src/Tests/Api.antt =====
-- Runs of the API server on the servers in memory.
use dispatchhub.Prelude.{
  if◌then◌else◌, ◌==◌, is_empty, ◌+◌, ◌≡◌, refl, Text, false, none, some, [], ◌∷◌, codes, same,
}
use dispatchhub.Prelude.Int.{pos, negsuc, is_zero}
use dispatchhub.Entity.{Task, is_terminal}
use dispatchhub.Entity.State.{pending, cancelled}
use dispatchhub.Entity.Worker.{WorkerInfo, online}
use dispatchhub.Redis.Call.{up, Reply}
use dispatchhub.Redis.Memory.{empty, memory, memory-IsRedis, memory-Ends, rounds-memory}
use dispatchhub.Redis.Memory.Table.{lookup, without}
use dispatchhub.Broker.Codec.{Codec}
use dispatchhub.Broker.Keys.{ready_key_for, delayed_key_for}
use dispatchhub.Broker.Remove.{id_field}
use dispatchhub.Broker.Remove.Outcome.{Cleared}
use dispatchhub.Broker.Settle.Outcome.{Released}
use dispatchhub.Mysql.Interface.{or_old_count}
use dispatchhub.Mysql.Memory.{Rows, no_rows, database, database-IsMysql}
use dispatchhub.Api.Service.{Request, Hooks, fill_in, refusal, submit_task, cancel_task}
use dispatchhub.Api.Service.Submit.{submitted, submit_stored, submit_queued, Waits}
use dispatchhub.Api.Service.Cancel.{cancel_outcome}
use dispatchhub.Api.Route.{new_route_validator, validate, check}
use dispatchhub.Api.Route.Decision.{decision, validate_stale}
use dispatchhub.Api.Grpc.{TaskSpec}
use dispatchhub.Api.Grpc.Tasks.{rpc_submit_task}
use dispatchhub.Api.Http.{SubmitTaskBody}
use dispatchhub.Api.Http.Tasks.{handle_submit_task}
use dispatchhub.Api.Protocols.{over_grpc, proto_submitted, spec_of_body, submit_same}
use dispatchhub.Tests.Sample.{task, codec, codec_of, wire, marshal-known}

abbrev pub request : Request
request = record { insert = up; push = up; now = 5; uuid = codes "u1" }

abbrev pub no_hooks : Hooks
no_hooks = record { before = none; route = none }

abbrev full_hooks : Hooks
full_hooks = record { before = some (λ t. false); route = none }

abbrev stored_codec : Codec
stored_codec = codec_of (submitted memory codec database request task)

-- The database once MySQL has taken the row.
abbrev pub filled : Rows
filled = record no_rows {
  tasks =
      (
        [],
        (fill_in request task).id,
        record (fill_in request task) { version = or_old_count task.version 1 },
      )
      ∷ [];
}

pub insert_task-filled : database.insert_task no_rows (fill_in request task) ≡ some filled
unfolding lookup fill_in without
insert_task-filled = refl

pub refusal-none : refusal no_hooks (fill_in request task) ≡ none
unfolding refusal
refusal-none = refl

submit_stored_example :
    let (error, t, s', db') =
      submit_task memory codec database request no_hooks task empty no_rows in
    (error ≡ none)
    × (t ≡ record task {
      id = if is_empty task.id then request.uuid else task.id;
      queue_name = if is_empty task.queue_name then codes "default" else task.queue_name;
      priority = if is_zero task.priority then pos 5 else task.priority;
      max_retries = if is_zero task.max_retries then pos 3 else task.max_retries;
      timeout_after = if is_zero task.timeout_after then pos 300000000000 else task.timeout_after;
      state = pending;
      created_at = request.now;
      updated_at = request.now;
      version = if task.version == 0 then 1 else task.version;
    })
    × (database.find_task db' t.id ≡ some t)
    × (t.state ≡ pending)
    × ((j : Text) → same t.id j ≡ false → database.find_task db' j ≡ database.find_task no_rows j)
submit_stored_example =
    submit_stored memory codec database database-IsMysql request no_hooks task empty no_rows filled
      refl refusal-none insert_task-filled

submit_queued_example :
    let (error, t, s', db') =
      submit_task memory stored_codec database request no_hooks task empty no_rows in
    Waits memory stored_codec database ⦃redis = memory-IsRedis⦄ task.schedule_at task.delay 5
      t.queue_name t.priority wire s'
submit_queued_example =
    submit_queued memory stored_codec database ⦃redis = memory-IsRedis⦄ database-IsMysql request
      no_hooks task wire empty no_rows filled refl refl refusal-none insert_task-filled
      (marshal-known (submitted memory codec database request task))

abbrev stored : Rows
stored = record no_rows { tasks = ([], task.id, task) ∷ [] }

find_task-stored : database.find_task stored task.id ≡ some task
unfolding lookup same
find_task-stored = refl

is_terminal-task : is_terminal task ≡ false
unfolding is_terminal
is_terminal-task = refl

cancel_outcome_example :
    (s' : memory.Store) × (db' : database.Db) × (row' : Task) × (cancel_task memory codec database 1
        up up up 7 task.id empty stored
      ≡ some (none, s', db'))
    × (database.find_task db' task.id ≡ some row')
    × (row'.state ≡ cancelled)
    × (row'.version ≡ task.version + 1)
    × Released memory codec ⦃redis = memory-IsRedis⦄ s' task.queue_name task.id
    × Cleared memory codec ⦃redis = memory-IsRedis⦄ empty s'
        (ready_key_for task.queue_name)
        (id_field task.id)
    × Cleared memory codec ⦃redis = memory-IsRedis⦄ empty s'
        (delayed_key_for task.queue_name)
        (id_field task.id)
cancel_outcome_example =
    cancel_outcome memory codec database ⦃redis = memory-IsRedis⦄ database-IsMysql memory-Ends 1 7
      task.id task empty stored rounds-memory refl find_task-stored refl is_terminal-task

abbrev pub worker : WorkerInfo
worker = record {
  id = codes "w1";
  hostname = codes "h";
  ip = codes "10.0.0.1";
  port = pos 9000;
  state = online;
  labels = [];
  queues = codes "mail" ∷ [];
  task_types = codes "email" ∷ [];
  concurrency = pos 4;
  active_tasks = pos 0;
  completed_total = pos 0;
  failed_total = pos 0;
  cpu_usage = 0;
  mem_usage = 0;
  started_at = 1;
  last_heartbeat = 1;
  version = [];
}

validate_stale_example :
    let (answer, v') =
      validate 10 11
        (Reply.ok (worker ∷ []))
        (codes "mail")
        (codes "sms")
        (new_route_validator (pos 9)) in
    (answer ≡ decision (worker ∷ []) (codes "mail") (codes "sms"))
    × (v'.last_refresh ≡ some 11)
    × ((q t : Text) → check q t v'.queue_types ≡ decision (worker ∷ []) q t)
validate_stale_example =
    validate_stale 10 11 (worker ∷ []) (codes "mail") (codes "sms") (new_route_validator (pos 9))
      refl

abbrev body : SubmitTaskBody
body = record {
  name = codes "mail";
  namespace = codes "ns";
  group = [];
  type = codes "email";
  payload = codes "{}";
  labels = [];
  priority = pos 8;
  queue_name = codes "mail";
  max_retries = pos 3;
  timeout_after = codes "1m";
  delay = codes "soon";
}

submit_same_example :
    let (page, s', db') =
      handle_submit_task memory codec database
        (λ x. none)
        (λ x. none)
        request
        no_hooks
        (some body)
        empty
        no_rows in
    rpc_submit_task memory codec database request no_hooks
      (some (spec_of_body (λ x. none) body))
      empty
      no_rows
    ≡ (over_grpc proto_submitted page, s', db')
submit_same_example =
    submit_same memory codec database (λ x. none) (λ x. none) (λ x n. none) request no_hooks body
      empty no_rows

abbrev spec : TaskSpec
spec = record {
  name = codes "mail";
  namespace = codes "ns";
  group = [];
  type = codes "email";
  payload = codes "{}";
  labels = [];
  priority = negsuc 1;
  delay = some (pos 1000);
  schedule_at = none;
  timeout_after = none;
  max_retries = pos 3;
  retry_backoff = none;
  queue_name = codes "mail";
}
