-- ===== src/Worker/Settle.antt =====
-- `handleSuccess` and `handleFailure` of worker_app_service.go.
pub mod Quiet
pub mod Effects
use dispatchhub.Prelude.{ℕ, ◌+◌, Text, Bool, true, false, some, if◌then◌else◌}
use dispatchhub.Entity.{Task, can_retry, TaskResult}
use dispatchhub.Entity.State.{completed, retrying, failed}
use dispatchhub.Redis.{Redis}
use dispatchhub.Redis.Call.{Link}
use dispatchhub.Broker.Codec.{Codec}
use dispatchhub.Broker.Settle.{ack, nack}
use dispatchhub.Mysql.Interface.{Mysql}
use dispatchhub.Mysql.Tasks.{UpdateResult, updated, conflict, db_error, update}
use dispatchhub.Worker.Env.{Call, settle_row, settle_queue, World, Env, on_db, on_store}

module _ (r : Redis) (c : Codec) (m : Mysql) (env : Env r m) where
  abbrev completed_task : ℕ → Task → Text → Task
  completed_task now task output = record task {
    state = completed;
    result = output;
    finished_at = some now;
  }

  abbrev failed_task : ℕ → Task → Task
  failed_task now task = record task { state = failed; finished_at = some now }

  abbrev retrying_task : Task → Task
  retrying_task task = record task { state = retrying }

  abbrev pub attempted : Task → Text → Task
  attempted task error = record task { error = error; retry_count = task.retry_count + 1 }

  -- Update, with the struct as it leaves it beside the result.
  unfoldable pub save : Task → Link → ℕ → m.Db → (UpdateResult × Task) × m.Db
  unfolding update
  save task link at db =
      let (result, task', db') = update m link at task db in ((result, task'), db')

  -- The Ack of a task that is done with; its error is logged only.
  unfoldable pub drop : Task → World r m → World r m
  unfolding on_store
  drop task w =
      (on_store r m env settle_queue (λ link at. ack r c link task.queue_name task.id) w).1

  -- An error of the Update is logged only.
  unfoldable pub handle_success : Task → TaskResult → World r m → World r m
  unfolding on_db drop
  handle_success task result w =
      let now = env.now settle_row in
      let (reply, w1) = on_db r m env settle_row (save (completed_task now task result.output)) w in
      drop task w1

  abbrev is_updated : UpdateResult → Bool
  is_updated updated = true
  is_updated conflict = false
  is_updated db_error = false

  -- An Update that fails leaves the task inflight, without a Nack.
  unfoldable pub requeue_saved : UpdateResult × Task → World r m → World r m
  unfolding on_store
  requeue_saved reply w =
      if is_updated reply.0
      then (on_store r m env settle_queue
          (λ link at. nack r c link env.rand at reply.1.queue_name reply.1) w).1
      else w

  unfoldable pub handle_failure : Task → Text → World r m → World r m
  unfolding on_db drop requeue_saved
  handle_failure task error w =
      let task1 = attempted task error in
      if can_retry task1
      then (let (reply, w1) = on_db r m env settle_row (save (retrying_task task1)) w in
          requeue_saved reply w1)
      else (let (reply, w1) =
            on_db r m env settle_row (save (failed_task (env.now settle_row) task1)) w in
          drop task w1)
