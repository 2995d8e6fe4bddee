-- ===== src/Api/Service.antt =====
-- internal/apiserver/domain/service/task_service_impl.go. The hook that runs before a submission and
-- the route validator are functions of the task; a nil one is `none`. The hook that runs after a
-- submission only logs and counts.
pub mod Submit
pub mod Cancel
use dispatchhub.Prelude.{
  ℕ, Text, Bool, true, false, ◌||◌, Option, none, some, List, is_empty, codes, if◌then◌else◌,
  is_some,
}
use dispatchhub.Prelude.Int.{ℤ, pos, ltb_ℤ, is_zero}
use dispatchhub.Entity.{Task, CronJob, TaskFilter, QueueStats, is_terminal}
use dispatchhub.Entity.State.{pending, cancelled}
use dispatchhub.Redis.{Redis}
use dispatchhub.Redis.Call.{Link, Reply, run_script}
use dispatchhub.Broker.Codec.{Codec}
use dispatchhub.Broker.Reply.{Result}
use dispatchhub.Broker.Queue.{enqueue, enqueue_delayed}
use dispatchhub.Broker.Remove.{remove}
use dispatchhub.Broker.Maintain.{stats}
use dispatchhub.Mysql.Interface.{Mysql}
use dispatchhub.Mysql.Tasks.{UpdateResult, updated, conflict, db_error, create, get, update}
use dispatchhub.Mysql.Crons.{create_cron_job}
use dispatchhub.Api.Route.{RouteError}

-- Why a request is refused.
pub data ServiceError : Type 0 where
  rejected persist_task read_task not_found already_terminal update_failed create_failed :
      ServiceError
  route_validation : RouteError → ServiceError

-- The links of the calls of one request, the time, and a new id.
pub record Request : Type 0 where
  pub insert : Link
  pub push : Link
  pub now : ℕ
  pub uuid : Text

pub record Hooks : Type 0 where
  -- whether the hook lets the task pass
  pub before : Option (Task → Bool)
  pub route : Option (Text → Text → Option RouteError)

abbrev pub default_queue_name : Text
default_queue_name = codes "default"

abbrev pub or_text : Text → Text → Text
or_text x default = if is_empty x then default else x

abbrev pub or_number : ℤ → ℤ → ℤ
or_number x default = if is_zero x then default else x

-- The fields that SubmitTask sets before it calls the hook.
unfoldable pub fill_in : Request → Task → Task
fill_in request t = record t {
  id = or_text t.id request.uuid;
  queue_name = or_text t.queue_name default_queue_name;
  priority = or_number t.priority (pos 5);
  max_retries = or_number t.max_retries (pos 3);
  timeout_after = or_number t.timeout_after (pos 300000000000);
  state = pending;
  created_at = request.now;
  updated_at = request.now;
}

abbrev passes : Option (Task → Bool) → Task → Bool
passes none t = true
passes (some hook) t = hook t

abbrev route_answer : Option (Text → Text → Option RouteError) → Task → Option RouteError
route_answer none t = none
route_answer (some validate) t = validate t.queue_name t.type

-- What keeps a task from being stored.
unfoldable pub refusal : Hooks → Task → Option ServiceError
refusal hooks t =
    if passes hooks.before t
    then (elim (route_answer hooks.route t) [ none ↦ none | some e ↦ some (route_validation e) ])
    else some rejected

module _ (r : Redis) (c : Codec) (m : Mysql) where
  -- task.ScheduleAt != nil || task.Delay > 0
  unfoldable pub is_deferred : Task → Bool
  is_deferred t = is_some t.schedule_at || ltb_ℤ (pos 0) t.delay

  -- The error of the enqueue is dropped.
  unfoldable pub push_task : Request → Task → r.Store → r.Store
  unfolding is_deferred
  push_task request t s =
      if is_deferred t
      then (enqueue_delayed r c request.push request.now t.queue_name t s).1
      else (enqueue r c request.push t.queue_name t s).1

  -- `none` is a nil error. The task comes back as the calls have left the struct.
  unfoldable pub after_insert :
      Request → Bool × Task × m.Db → r.Store → Option ServiceError × Task × r.Store × m.Db
  unfolding push_task
  after_insert request (true, t, db) s = (none, t, push_task request t s, db)
  after_insert request (false, t, db) s = (some persist_task, t, s, db)

  unfoldable pub unless_refused :
      Request
      → Option ServiceError
      → Task
      → r.Store
      → m.Db
      → Option ServiceError × Task × r.Store × m.Db
  unfolding after_insert
  unless_refused request (some e) t s db = (some e, t, s, db)
  unless_refused request none t s db = after_insert request (create m request.insert t db) s

  unfoldable pub submit_task :
      Request → Hooks → Task → r.Store → m.Db → Option ServiceError × Task × r.Store × m.Db
  unfolding unless_refused fill_in refusal
  submit_task request hooks task s db =
      let t = fill_in request task in unless_refused request (refusal hooks t) t s db

  -- The Remove is best effort, and PublishCancel sends a message that is not part of the state. `none`
  -- means that the fuel of Remove ran out.
  abbrev pub dropped :
      Option (Result (Unit {0}) × r.Store) → m.Db → Option (Option ServiceError × r.Store × m.Db)
  dropped none db = none
  dropped (some (result, s)) db = some (none, s, db)

  abbrev pub cancelled_task : ℕ → Task → Task
  cancelled_task now t = record t { state = cancelled; finished_at = some now }

  unfoldable pub after_update :
      ℕ
      → Link
      → Task
      → Text
      → UpdateResult
      → r.Store
      → m.Db
      → Option (Option ServiceError × r.Store × m.Db)
  after_update fuel link t id updated s db = dropped (remove r c fuel link t.queue_name id s) db
  after_update fuel link t id conflict s db = some (some update_failed, s, db)
  after_update fuel link t id db_error s db = some (some update_failed, s, db)

  -- `read`, `write` and `push` are the links of Get, Update and Remove.
  unfoldable pub after_get :
      ℕ
      → Link
      → Link
      → ℕ
      → Text
      → Reply (Option Task)
      → r.Store
      → m.Db
      → Option (Option ServiceError × r.Store × m.Db)
  unfolding after_update
  after_get fuel write push now id Reply.err s db = some (some read_task, s, db)
  after_get fuel write push now id (Reply.ok none) s db = some (some not_found, s, db)
  after_get fuel write push now id (Reply.ok (some t)) s db =
      if is_terminal t
      then some (some already_terminal, s, db)
      else let (result, t', db') = update m write now (cancelled_task now t) db in
        after_update fuel push t' id result s db'

  unfoldable pub cancel_task :
      ℕ
      → Link
      → Link
      → Link
      → ℕ
      → Text
      → r.Store
      → m.Db
      → Option (Option ServiceError × r.Store × m.Db)
  unfolding after_get
  cancel_task fuel read write push now id s db =
      let (reply, db') = get m read id db in after_get fuel write push now id reply s db'

  unfoldable pub fill_in_job : Text → CronJob → CronJob
  fill_in_job uuid job = record job {
    id = or_text job.id uuid;
    queue_name = or_text job.queue_name default_queue_name;
    priority = or_number job.priority (pos 5);
    max_retries = or_number job.max_retries (pos 3);
  }

  abbrev created : Reply (Unit {0}) → Option ServiceError
  created Reply.err = some create_failed
  created (Reply.ok u) = none

  -- The job comes back as the calls have left the struct.
  unfoldable pub submit_cron_job :
      Link → Text → ℕ → CronJob → m.Db → Option ServiceError × CronJob × m.Db
  unfolding fill_in_job
  submit_cron_job link uuid now job db =
      let (reply, job', db') = create_cron_job m link now (fill_in_job uuid job) db in
      (created reply, job', db')

  -- An error of the pipeline that reads the counters is returned.
  unfoldable pub queue_stats : Link → Text → r.Store → Reply QueueStats × r.Store
  queue_stats link queue s = stats r c link queue s
