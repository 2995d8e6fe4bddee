-- ===== src/Tests/Twice.antt =====
-- A task of a cron job without a timeout that becomes ready again while it runs, on the server in memory.
use dispatchhub.Prelude.{
  ℕ, ◌+◌, ◌<◌, ◌≡◌, refl, sym, Text, starts_with, length, none, some, [], ◌∷◌, codes, same,
  same_iff, arith,
}
use dispatchhub.Prelude.Int.{ℤ, pos, negsuc, neg, ◌+ℤ◌, ◌<ℤ◌}
use dispatchhub.Entity.{Task, CronJob, to_task}
use dispatchhub.Redis.Call.{up, run_script, run_pipeline}
use dispatchhub.Redis.Memory.{Memory, memory, memory-IsRedis}
use dispatchhub.Redis.Memory.Ranking.{lowest, within}
use dispatchhub.Redis.Memory.Table.{lookup, members}
use dispatchhub.Mysql.Memory.{database}
use dispatchhub.Broker.Backoff.{compute_visibility_timeout}
use dispatchhub.Broker.Codec.{Codec}
use dispatchhub.Broker.Keys.{
  ready_key_for, inflight_key_for, lease_key_for, derived_inflight, derived_lease, gsub, replace,
}
use dispatchhub.Broker.Reply.{ok}
use dispatchhub.Broker.Queue.{
  dequeue, dequeue_script, take_out, after_script, read_task, extend_lease_of,
}
use dispatchhub.Broker.Queue.Dequeue.{Holds}
use dispatchhub.Broker.Maintain.{reclaim_inflight}
use dispatchhub.Broker.Maintain.Reclaim.{Inflight}
use dispatchhub.Api.Service.{fill_in_job}
use dispatchhub.Worker.Middleware.{limit_for}
use dispatchhub.Flow.Twice.{half_minute, cron_task_twice}
use dispatchhub.Tests.Crons.{job}
use dispatchhub.Tests.Queues.{ready, taken, queue-IsClear}
use dispatchhub.Tests.Sample.{task, codec_of, codec_of-IsCodec, wire, marshal-known}

abbrev endless : CronJob
endless = record job { timeout_after = pos 0 }

abbrev endless_task : Task
endless_task = record task { timeout_after = pos 0 }

abbrev codec : Codec
codec = codec_of endless_task

abbrev after_dequeue : Memory
after_dequeue = (dequeue memory codec up up 0 (task.queue_name ∷ []) ready).1

-- Later the store holds the task's entry and its lease as Dequeue has left them.
abbrev held : Memory
held = record taken { sets = (lease_key_for task.queue_name, task.id, pos 30000) ∷ [] }

own_timeout :
    endless_task.timeout_after
    ≡ (to_task (fill_in_job memory codec database (codes "c9") endless)).timeout_after
unfolding to_task fill_in_job
own_timeout = refl

one_member : (k m d : Text) (c score : ℤ) → lookup k d ((k, m, c) ∷ []) ≡ some score → m ≡ d
unfolding lookup
one_member k m d c score h = ground (arith, same_iff m d)

ready-Holds : Holds memory codec ready task.queue_name
ready-Holds d score h = (
  endless_task,
  rw (sym (one_member (ready_key_for task.queue_name) wire d (negsuc 7) score h))
      (marshal-known endless_task),
  refl,
)

one_field : (k f j d v : Text) → lookup k j ((k, f, v) ∷ []) ≡ some d → v ≡ d
unfolding lookup
one_field k f j d v h = ground (arith, same_iff f j)

held-Inflight :
    Inflight memory codec ⦃redis = memory-IsRedis⦄ ⦃codec = codec_of-IsCodec endless_task⦄ held
      task.queue_name
held-Inflight task_id d h = (
  endless_task,
  rw (sym (one_field (inflight_key_for task.queue_name) task.id task_id d wire h))
      (marshal-known endless_task),
)

taken_by_worker :
    dequeue memory codec up up 0 (task.queue_name ∷ []) ready
    ≡ (ok (some endless_task), after_dequeue)
unfolding dequeue dequeue_script take_out after_script read_task extend_lease_of run_script
    run_pipeline same lookup lowest members ready_key_for compute_visibility_timeout
taken_by_worker = refl

same_hash :
    memory.hget held (inflight_key_for task.queue_name) task.id
    ≡ memory.hget after_dequeue (inflight_key_for task.queue_name) task.id
unfolding dequeue dequeue_script take_out after_script read_task extend_lease_of run_script
    run_pipeline same lookup lowest members ready_key_for compute_visibility_timeout
    inflight_key_for derived_inflight gsub replace starts_with
same_hash = refl

same_lease :
    memory.zscore held (lease_key_for task.queue_name) task.id
    ≡ memory.zscore after_dequeue (lease_key_for task.queue_name) task.id
unfolding dequeue dequeue_script take_out after_script read_task extend_lease_of run_script
    run_pipeline same lookup lowest members ready_key_for compute_visibility_timeout lease_key_for
    derived_lease gsub replace starts_with
same_lease = refl

few : length (memory.zrangebyscore held (lease_key_for task.queue_name) (pos 30000) 10) < 10
unfolding within members same lookup lease_key_for
few = ground arith

cron_task_twice_example :
    (pos (0 + half_minute) <ℤ pos 0 +ℤ limit_for (pos 300000000000) endless_task)
    × (n : ℕ) × (s'' : Memory) × (d : Text) × (reclaim_inflight memory codec up
          (0 + half_minute)
          task.queue_name
          (pos 10)
          held
        ≡ (ok n, s''))
    × (codec.unmarshal d ≡ some endless_task)
    × (memory.zscore s'' (lease_key_for task.queue_name) task.id ≡ none)
    × (memory.zscore s'' (ready_key_for task.queue_name) d ≡ some (neg task.priority))
cron_task_twice_example =
    cron_task_twice memory codec database ⦃redis = memory-IsRedis⦄
      ⦃codec = codec_of-IsCodec endless_task⦄ endless (codes "c9") task.queue_name
      (pos 300000000000) 0 endless_task ready after_dequeue held (pos 10) refl own_timeout
      (ground arith) queue-IsClear ready-Holds taken_by_worker same_hash same_lease held-Inflight
      few
