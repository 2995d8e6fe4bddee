-- ===== src/Tests/Recovery.antt =====
-- A submission that Redis misses and the compensation after it, and a worker that dies and the reclaim
-- after it, on the servers in memory.
use dispatchhub.Redis.Memory.Ranking.{lowest, within}
use dispatchhub.Broker.Keys.{derived_inflight, gsub, replace}
use dispatchhub.Broker.Queue.Dequeue.{lease_until}
use dispatchhub.Broker.Backoff.{compute_visibility_timeout}
use dispatchhub.Broker.Maintain.{reclaim_inflight}
use dispatchhub.Broker.Maintain.Reclaim.{Inflight}
use dispatchhub.Flow.Crash.{crashed_task_returns}
use dispatchhub.Tests.Queues.{ready, taken, queue-IsClear, ready-Holds, taken-Inflight}
use dispatchhub.Prelude.{
  ℕ, Text, starts_with, length, ◌<◌, ◌-◌, ◌≡◌, refl, none, some, [], ◌∷◌, codes, same, same_refl,
  arith,
}
use dispatchhub.Entity.{Task}
use dispatchhub.Entity.State.{pending, state_name}
use dispatchhub.Redis.Call.{up, cut}
use dispatchhub.Redis.Memory.{Memory, empty, memory, memory-IsRedis}
use dispatchhub.Prelude.Int.{pos, neg, ◌≤ℤ◌}
use dispatchhub.Redis.Call.{run_script, run_pipeline}
use dispatchhub.Broker.Keys.{ready_key_for, inflight_key_for, lease_key_for}
use dispatchhub.Broker.Reply.{ok}
use dispatchhub.Broker.Queue.{
  dequeue, dequeue_script, take_out, after_script, read_task, extend_lease_of,
}
use dispatchhub.Redis.Memory.Table.{lookup, members, without}
use dispatchhub.Broker.Codec.{Codec}
use dispatchhub.Broker.Maintain.Compensate.{Grown}
use dispatchhub.Mysql.Memory.{Rows, no_rows, database, database-IsMysql}
use dispatchhub.Api.Service.{Request, fill_in, submit_task}
use dispatchhub.Api.Service.Submit.{submitted}
use dispatchhub.Scheduler.Maintenance.{Calls, compensate_orphaned_tasks}
use dispatchhub.Flow.Recovery.{InRedis, lost_push_recovered}
use dispatchhub.Tests.Sample.{task, codec, codec_of, wire, marshal-known, codec-IsCodec}
use dispatchhub.Tests.Api.{no_hooks, refusal-none}

abbrev request : Request
request = record { insert = up; push = cut 0; now = 5; uuid = codes "u1" }

abbrev filed : Task
filed = submitted memory codec database request task

abbrev filed_codec : Codec
filed_codec = codec_of filed

abbrev later : Rows
later = record no_rows { tasks = ([], filed.id, filed) ∷ [] }

abbrev calls : Calls
calls = record { push = λ j. up; touch = λ j. up; now = λ j. 90 }

abbrev row_in : Rows
row_in = record no_rows { tasks = ([], filed.id, filed) ∷ [] }

insert_task-row_in : database.insert_task no_rows (fill_in request task) ≡ some row_in
unfolding lookup fill_in without
insert_task-row_in = refl

find_task-later : database.find_task later filed.id ≡ some filed
unfolding lookup
find_task-later = simp same_refl refl

find_stale-later : database.find_stale later pending (100 - 30) 10 ≡ filed ∷ []
unfolding lookup members same state_name fill_in
find_stale-later = refl

lost_push_recovered_example :
    let (error, t', s', db') =
      submit_task memory filed_codec database request no_hooks task empty no_rows in
    let (n, stop, s'', db'') =
      compensate_orphaned_tasks memory filed_codec database up calls 100 30 10 empty later in
    (error ≡ none)
    × (s' ≡ empty)
    × (database.find_task db' filed.id ≡ some filed)
    × (stop ≡ none)
    × InRedis memory filed_codec database s'' filed
    × Grown memory filed_codec empty s''
unfolding fill_in
lost_push_recovered_example =
    lost_push_recovered memory filed_codec database ⦃redis = memory-IsRedis⦄ database-IsMysql
      request no_hooks task empty empty no_rows row_in later calls 100 30 10 refl refl refusal-none
      insert_task-row_in find_task-later (ground arith) (λ j. refl)
      (rw find_stale-later ((wire, marshal-known filed), tt)) (rw find_stale-later (ground arith))

abbrev after_dequeue : Memory
after_dequeue = (dequeue memory codec up up 0 (task.queue_name ∷ []) ready).1

taken_by_worker :
    dequeue memory codec up up 0 (task.queue_name ∷ []) ready ≡ (ok (some task), after_dequeue)
unfolding dequeue dequeue_script take_out after_script read_task extend_lease_of run_script
    run_pipeline same lookup lowest members ready_key_for compute_visibility_timeout
taken_by_worker = refl

-- Later the store holds the task's entry and its lease as Dequeue has left them.
abbrev held : Memory
held = record taken { sets = (lease_key_for task.queue_name, task.id, pos 70000) ∷ [] }

held-Inflight :
    Inflight memory codec ⦃redis = memory-IsRedis⦄ ⦃codec = codec-IsCodec⦄ held task.queue_name
held-Inflight = taken-Inflight

same_hash :
    memory.hget held (inflight_key_for task.queue_name) task.id
    ≡ memory.hget after_dequeue (inflight_key_for task.queue_name) task.id
unfolding dequeue dequeue_script take_out after_script read_task extend_lease_of run_script
    run_pipeline same lookup lowest members ready_key_for compute_visibility_timeout
    inflight_key_for derived_inflight gsub replace starts_with
same_hash = refl

same_lease :
    memory.zscore held (lease_key_for task.queue_name) task.id
    ≡ memory.zscore after_dequeue (lease_key_for task.queue_name) task.id
unfolding dequeue dequeue_script take_out after_script read_task extend_lease_of run_script
    run_pipeline same lookup lowest members ready_key_for compute_visibility_timeout lease_key_for
same_lease = refl

late : lease_until memory codec 0 task ≤ℤ pos 90000
unfolding compute_visibility_timeout
late = ground arith

few : length (memory.zrangebyscore held (lease_key_for task.queue_name) (pos 90000) 10) < 10
unfolding within members same lookup lease_key_for
few = ground arith

crashed_task_returns_example :
    (n : ℕ) × (s'' : Memory) × (d : Text) × (reclaim_inflight memory codec up 90000000000
        task.queue_name
        (pos 10)
        held
      ≡ (ok n, s''))
    × (codec.unmarshal d ≡ some task)
    × (memory.zscore s'' (lease_key_for task.queue_name) task.id ≡ none)
    × (memory.hget s'' (inflight_key_for task.queue_name) task.id ≡ none)
    × (memory.zscore s'' (ready_key_for task.queue_name) d ≡ some (neg task.priority))
crashed_task_returns_example =
    crashed_task_returns memory codec ⦃redis = memory-IsRedis⦄ ⦃codec = codec-IsCodec⦄
      task.queue_name 0 90000000000 task ready after_dequeue held (pos 10) queue-IsClear ready-Holds
      taken_by_worker same_hash same_lease held-Inflight late few
