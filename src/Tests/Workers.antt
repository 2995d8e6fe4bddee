-- ===== src/Tests/Workers.antt =====
-- Runs of a worker on the servers in memory.
use dispatchhub.Prelude.{
  ◌+◌, ◌≡◌, refl, Text, true, false, Option, none, some, [], ◌∷◌, codes, same_refl,
}
use dispatchhub.Prelude.Int.{pos, ◌+ℤ◌, neg, ltb_ℤ}
use dispatchhub.Entity.{Task, TaskResult, can_retry, is_terminal}
use dispatchhub.Entity.State.{completed, retrying, failed, cancelled}
use dispatchhub.Redis.Call.{up}
use dispatchhub.Redis.Memory.{Memory, memory, memory-IsRedis}
use dispatchhub.Redis.Memory.Table.{lookup}
use dispatchhub.Broker.Backoff.{compute_retry_backoff}
use dispatchhub.Broker.Codec.{Codec}
use dispatchhub.Broker.Keys.{ready_key_for, delayed_key_for, inflight_key_for, lease_key_for}
use dispatchhub.Broker.Reply.{unix_milli}
use dispatchhub.Broker.Settle.Outcome.{Released, counter, SameQueues}
use dispatchhub.Mysql.Interface.{or_old}
use dispatchhub.Mysql.Memory.{Rows, no_rows, database, database-IsMysql}
use dispatchhub.Worker.Env.{Env, Handler, returned, wrap, safe_handle}
use dispatchhub.Worker.Settle.{handle_success, handle_failure, attempted}
use dispatchhub.Worker.Settle.Quiet.{Quiet}
use dispatchhub.Worker.Settle.Effects.{requeued, success_outcome, retry_outcome, exhausted_outcome}
use dispatchhub.Worker.Process.{run_handler, process_task}
use dispatchhub.Worker.Process.Runs.{started, process_terminal, cancel_lost}
use dispatchhub.Tests.Sample.{task, wire, codec, codec_of, marshal-known}

abbrev pub env : Env memory database
env = record { link = λ call. up; now = λ call. 9000000000; others = λ call w. w; rand = λ n. 0 }

abbrev store : Memory
store = record {
  sets = (lease_key_for task.queue_name, task.id, pos 40000) ∷ [];
  hashes = (inflight_key_for task.queue_name, task.id, wire) ∷ [];
  numbers = [];
}

abbrev with_row : Task → Rows
with_row row = record no_rows { tasks = ([], row.id, row) ∷ [] }

find_task-with_row : (row : Task) → database.find_task (with_row row) row.id ≡ some row
unfolding lookup
find_task-with_row row = simp same_refl refl

abbrev done : TaskResult
done = record { output = codes "sent"; error = none }

abbrev handler : Handler
handler t = returned done

abbrev handlers : Text → Option Handler
handlers type = some handler

abbrev error : Text
error = codes "refused"

abbrev last : Task
last = record task { max_retries = pos 2 }

env-Quiet : (c : Codec) → Quiet memory c database ⦃redis = memory-IsRedis⦄ database-IsMysql env
env-Quiet c = ((λ call w. refl), λ call. refl)

success_outcome_example :
    let (s', db') = handle_success memory codec database env task done (store, with_row task) in
    ((row' : Task) × (database.find_task db' task.id ≡ some row')
      × (row'.state ≡ completed)
      × (row'.result ≡ or_old done.output task.result)
      × (row'.version ≡ task.version + 1))
    × Released memory codec ⦃redis = memory-IsRedis⦄ s' task.queue_name task.id
    × (counter memory codec ⦃redis = memory-IsRedis⦄ s' task.queue_name (codes "completed")
        ≡ counter memory codec ⦃redis = memory-IsRedis⦄ store task.queue_name (codes "completed")
          + 1)
    × SameQueues memory codec ⦃redis = memory-IsRedis⦄ store s'
success_outcome_example =
    success_outcome memory codec database ⦃redis = memory-IsRedis⦄ database-IsMysql env
      (env-Quiet codec) store (with_row task) task task done (find_task-with_row task, refl)

-- The codec knows the task as it is put back.
abbrev again : Codec
again =
    codec_of
      (requeued memory codec database ⦃redis = memory-IsRedis⦄ database-IsMysql env task error)

task-can_retry : can_retry (attempted memory again database env task error) ≡ true
unfolding can_retry
task-can_retry = refl

last-can_retry : can_retry (attempted memory codec database env last error) ≡ false
unfolding can_retry
last-can_retry = refl

retry_outcome_example :
    let (s', db') = handle_failure memory again database env task error (store, with_row task) in
    ((row' : Task) × (database.find_task db' task.id ≡ some row')
      × (row'.state ≡ retrying)
      × (row'.retry_count ≡ task.retry_count + 1)
      × (row'.version ≡ task.version + 1))
    × Released memory again ⦃redis = memory-IsRedis⦄ s' task.queue_name task.id
    × (ltb_ℤ (pos 0) task.retry_backoff ≡ true
        → memory.zscore s' (delayed_key_for task.queue_name) wire
          ≡ some (
              unix_milli (
                pos 9000000000
                +ℤ compute_retry_backoff (λ n. 0) task.retry_backoff (task.retry_count + 1))))
    × (ltb_ℤ (pos 0) task.retry_backoff ≡ false
        → memory.zscore s' (ready_key_for task.queue_name) wire ≡ some (neg task.priority))
retry_outcome_example =
    retry_outcome memory again database ⦃redis = memory-IsRedis⦄ database-IsMysql env
      (env-Quiet again) store (with_row task) task task error wire (find_task-with_row task, refl)
      task-can_retry
      (marshal-known
        (requeued memory codec database ⦃redis = memory-IsRedis⦄ database-IsMysql env task error))

exhausted_outcome_example :
    let (s', db') = handle_failure memory codec database env last error (store, with_row last) in
    ((row' : Task) × (database.find_task db' last.id ≡ some row')
      × (row'.state ≡ failed)
      × (row'.retry_count ≡ last.retry_count + 1)
      × (row'.version ≡ last.version + 1))
    × Released memory codec ⦃redis = memory-IsRedis⦄ s' last.queue_name last.id
    × (counter memory codec ⦃redis = memory-IsRedis⦄ s' last.queue_name (codes "completed")
        ≡ counter memory codec ⦃redis = memory-IsRedis⦄ store last.queue_name (codes "completed")
          + 1)
    × (counter memory codec ⦃redis = memory-IsRedis⦄ s' last.queue_name (codes "failed")
        ≡ counter memory codec ⦃redis = memory-IsRedis⦄ store last.queue_name (codes "failed"))
    × SameQueues memory codec ⦃redis = memory-IsRedis⦄ store s'
exhausted_outcome_example =
    exhausted_outcome memory codec database ⦃redis = memory-IsRedis⦄ database-IsMysql env
      (env-Quiet codec) store (with_row last) last last error (find_task-with_row last, refl)
      last-can_retry

abbrev row_cancelled : Task
row_cancelled = record task { state = cancelled; version = 2 }

row_cancelled-is_terminal : is_terminal row_cancelled ≡ true
unfolding is_terminal
row_cancelled-is_terminal = refl

process_terminal_example :
    let (s', db') =
      process_task memory codec database env
        (codes "w1")
        false
        []
        handlers
        task
        (store, with_row row_cancelled) in
    (db' ≡ with_row row_cancelled)
    × Released memory codec ⦃redis = memory-IsRedis⦄ s' task.queue_name task.id
    × (counter memory codec ⦃redis = memory-IsRedis⦄ s' task.queue_name (codes "completed")
        ≡ counter memory codec ⦃redis = memory-IsRedis⦄ store task.queue_name (codes "completed")
          + 1)
    × SameQueues memory codec ⦃redis = memory-IsRedis⦄ store s'
process_terminal_example =
    process_terminal memory codec database ⦃redis = memory-IsRedis⦄ database-IsMysql env
      (env-Quiet codec) (codes "w1") false [] handlers task row_cancelled store
      (with_row row_cancelled) (find_task-with_row row_cancelled) row_cancelled-is_terminal

runs_handler :
    safe_handle (wrap [] handler) (
      started memory codec database ⦃redis = memory-IsRedis⦄ database-IsMysql env (codes "w1") task)
    ≡ some done
unfolding safe_handle wrap
runs_handler = refl

cancel_lost_example :
    let (s', db') =
      run_handler memory codec database env
        (codes "w1")
        true
        []
        (some handler)
        task
        (store, with_row row_cancelled) in
    (row' : Task) × (database.find_task db' task.id ≡ some row') × (row'.state ≡ completed)
cancel_lost_example =
    cancel_lost memory codec database ⦃redis = memory-IsRedis⦄ database-IsMysql env
      (env-Quiet codec) (codes "w1") true [] handler task row_cancelled done store
      (with_row row_cancelled) (find_task-with_row row_cancelled) refl refl runs_handler refl
