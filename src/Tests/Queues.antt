-- ===== src/Tests/Queues.antt =====
-- Runs of the broker on the memory store.
use dispatchhub.Prelude.{
  ℕ, ◌≤◌, ◌<◌, ◌≡◌, ◌≢◌, ◌⊎◌, refl, sym, Text, Bool, true, ◌&&◌, not, none, some, [], ◌∷◌, ◌++◌,
  codes, same_iff, length, All, arith,
}
use dispatchhub.Prelude.Int.{ℤ, pos, negsuc, neg, ◌≤ℤ◌, ◌<ℤ◌}
use dispatchhub.Entity.{Task, can_retry}
use dispatchhub.Redis.Call.{up, cut}
use dispatchhub.Redis.Memory.{Memory, empty, memory, memory-IsRedis}
use dispatchhub.Redis.Memory.Table.{lookup}
use dispatchhub.Broker.Keys.{
  queue_prefix, ready_key_for, delayed_key_for, inflight_key_for, lease_key_for, starts_with,
  derived_inflight,
}
use dispatchhub.Broker.Keys.Derived.{Clear, IsClear, derived_inflight-ready}
use dispatchhub.Broker.Reply.{ok, err, pipeline_failed, millis}
use dispatchhub.Broker.Queue.{dequeue}
use dispatchhub.Broker.Queue.Dequeue.{Holds, Empty, Taken, dequeue_outcome}
use dispatchhub.Broker.Settle.{nack}
use dispatchhub.Broker.Settle.Outcome.{Released, SameQueues, Requeued, nack_outcome, nack_cut_loses}
use dispatchhub.Broker.Maintain.{promote_delayed, reclaim_inflight}
use dispatchhub.Broker.Maintain.Promote.{Delayed, Promoted, promote_outcome}
use dispatchhub.Broker.Maintain.Reclaim.{Inflight, batch_of, reclaim_outcome}
use dispatchhub.Tests.Sample.{task, wire, codec, codec-IsCodec, marshal-task}

abbrev queue : Text
queue = codes "mail"

abbrev rand : ℕ → ℕ
rand n = 0

abbrev now : ℕ
now = 5000000000

is_clear : Text → Text → Bool
is_clear p [] = true
is_clear p (x ∷ s) = not (starts_with p (x ∷ (s ++ p))) && is_clear p s

is_clear-Clear : (p s : Text) → is_clear p s ≡ true → Clear p s
unfolding is_clear
is_clear-Clear p [] h = tt
is_clear-Clear p (x ∷ s) h = (ground (arith, h), is_clear-Clear p s (ground (arith, h)))

pub queue-IsClear : IsClear queue
unfolding starts_with is_clear
queue-IsClear = is_clear-Clear (codes ":ready") (queue_prefix ++ queue) refl

abbrev pub ready : Memory
ready = record empty { sets = (ready_key_for queue, wire, negsuc 7) ∷ [] }

abbrev pub taken : Memory
taken = record {
  sets = (lease_key_for queue, task.id, pos 4000) ∷ [];
  hashes = (inflight_key_for queue, task.id, wire) ∷ [];
  numbers = [];
}

abbrev waiting : Memory
waiting = record empty { sets = (delayed_key_for queue, wire, pos 4000) ∷ [] }

derived_inflight-ready_example :
    derived_inflight (ready_key_for (codes "ready" ++ codes "-mail"))
    ≢ inflight_key_for (codes "ready" ++ codes "-mail")
derived_inflight-ready_example = derived_inflight-ready (codes "-mail")

one_member : (k m d : Text) (c score : ℤ) → lookup k d ((k, m, c) ∷ []) ≡ some score → m ≡ d
unfolding lookup
one_member k m d c score h = ground (arith, same_iff m d)

pub ready-Holds : Holds memory codec ready queue
ready-Holds d score h =
    (task, rw (sym (one_member (ready_key_for queue) wire d (negsuc 7) score h)) marshal-task, refl)

dequeue_outcome_example :
    ((dequeue memory codec up up now (queue ∷ []) ready ≡ (ok none, ready))
      × All (Empty memory codec ready) (queue ∷ []))
    ⊎ ((d : Text) × (t : Task) × (s' : Memory) × (dequeue memory codec up up now (queue ∷ []) ready
          ≡ (ok (some t), s'))
        × (codec.unmarshal d ≡ some t)
        × Taken memory codec ready s' now d t (queue ∷ []))
dequeue_outcome_example =
    dequeue_outcome memory codec memory-IsRedis codec-IsCodec ready now (queue ∷ [])
      (queue-IsClear, tt) (ready-Holds, tt)

nack_outcome_example :
    let (reply, s') = nack memory codec up rand now queue task taken in
    (reply ≡ ok tt)
    × Released memory codec ⦃redis = memory-IsRedis⦄ s' queue task.id
    × Requeued memory codec ⦃redis = memory-IsRedis⦄ taken s' rand now queue task wire
nack_outcome_example =
    nack_outcome memory codec ⦃redis = memory-IsRedis⦄ taken rand now queue task wire marshal-task

task-can_retry : can_retry task ≡ true
unfolding can_retry
task-can_retry = refl

nack_cut_loses_example :
    let (reply, s') = nack memory codec (cut 2) rand now queue task taken in
    (reply ≡ err pipeline_failed)
    × Released memory codec ⦃redis = memory-IsRedis⦄ s' queue task.id
    × SameQueues memory codec ⦃redis = memory-IsRedis⦄ taken s'
nack_cut_loses_example =
    nack_cut_loses memory codec ⦃redis = memory-IsRedis⦄ taken rand now queue task wire marshal-task
      task-can_retry

waiting-Delayed :
    Delayed memory codec ⦃redis = memory-IsRedis⦄ ⦃codec = codec-IsCodec⦄ waiting queue
waiting-Delayed d score h =
    (task, rw (sym (one_member (delayed_key_for queue) wire d (pos 4000) score h)) marshal-task)

promote_outcome_example :
    (n : ℕ) × (s' : Memory) × (promote_delayed memory codec up now queue 10 waiting ≡ (ok n, s'))
    × ((d : Text) (t : Task)
        → codec.marshal t ≡ some d
        → Promoted memory codec ⦃redis = memory-IsRedis⦄ ⦃codec = codec-IsCodec⦄ waiting s' queue
            now d t)
    × (n < 10
        → (d : Text) (k : ℤ) → memory.zscore waiting (delayed_key_for queue) d ≡ some k
        → k ≤ℤ pos (millis now)
        → memory.zscore s' (delayed_key_for queue) d ≡ none)
promote_outcome_example =
    promote_outcome memory codec ⦃redis = memory-IsRedis⦄ ⦃codec = codec-IsCodec⦄ waiting now queue
      10 waiting-Delayed

one_field : (k f j d v : Text) → lookup k j ((k, f, v) ∷ []) ≡ some d → v ≡ d
unfolding lookup
one_field k f j d v h = ground (arith, same_iff f j)

pub taken-Inflight :
    Inflight memory codec ⦃redis = memory-IsRedis⦄ ⦃codec = codec-IsCodec⦄ taken queue
taken-Inflight task_id d h =
    (task, rw (sym (one_field (inflight_key_for queue) task.id task_id d wire h)) marshal-task)

reclaim_outcome_example :
    (n : ℕ) × (s' : Memory) × (reclaim_inflight memory codec up now queue (pos 10) taken
      ≡ (ok n, s'))
    × (n ≤ batch_of memory codec ⦃redis = memory-IsRedis⦄ ⦃codec = codec-IsCodec⦄ (pos 10))
    × ((task_id d : Text) (t : Task) (deadline : ℤ)
        → memory.zscore taken (lease_key_for queue) task_id ≡ some deadline
        → deadline ≤ℤ pos (millis now)
        → length (memory.zrangebyscore taken (lease_key_for queue) (pos (millis now)) 10) < 10
        → (memory.zscore s' (lease_key_for queue) task_id ≡ none)
          × (memory.hget s' (inflight_key_for queue) task_id ≡ none)
          × (memory.hget taken (inflight_key_for queue) task_id ≡ some d
              → codec.marshal t ≡ some d
              → memory.zscore s' (ready_key_for queue) d ≡ some (neg t.priority)))
    × ((task_id : Text) (deadline : ℤ)
        → memory.zscore taken (lease_key_for queue) task_id ≡ some deadline
        → pos (millis now) <ℤ deadline
        → (memory.zscore s' (lease_key_for queue) task_id ≡ some deadline)
          × (memory.hget s' (inflight_key_for queue) task_id
              ≡ memory.hget taken (inflight_key_for queue) task_id))
reclaim_outcome_example =
    reclaim_outcome memory codec ⦃redis = memory-IsRedis⦄ ⦃codec = codec-IsCodec⦄ taken now queue
      (pos 10) taken-Inflight
