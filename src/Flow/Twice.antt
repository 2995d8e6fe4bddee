-- ===== src/Flow/Twice.antt =====
-- A task of a cron job without a timeout: the limit of Timeout in
-- internal/worker/interfaces/middleware/middleware.go against the lease of Dequeue and the ReclaimInflight
-- of internal/shared/infrastructure/persistence/redis/queue_broker.go.
use dispatchhub.Prelude.{ℕ, ◌+◌, ◌<◌, ◌≤◌, ◌≡◌, ◌∙◌, Text, length, arith, none, some, [], ◌∷◌}
use dispatchhub.Prelude.Int.{ℤ, pos, neg, ◌+ℤ◌, ◌≤ℤ◌, ◌<ℤ◌}
use dispatchhub.Entity.{Task, CronJob, to_task}
use dispatchhub.Redis.{Redis, IsRedis}
use dispatchhub.Redis.Call.{up}
use dispatchhub.Mysql.Interface.{Mysql}
use dispatchhub.Broker.Backoff.{compute_visibility_timeout}
use dispatchhub.Broker.Codec.{Codec, IsCodec}
use dispatchhub.Broker.Keys.{ready_key_for, inflight_key_for, lease_key_for}
use dispatchhub.Broker.Keys.Derived.{IsClear}
use dispatchhub.Broker.Reply.{ok, millis}
use dispatchhub.Broker.Queue.{dequeue}
use dispatchhub.Broker.Queue.Dequeue.{Holds, lease_until}
use dispatchhub.Broker.Maintain.{reclaim_inflight}
use dispatchhub.Broker.Maintain.Reclaim.{Inflight, batch_of}
use dispatchhub.Api.Service.{fill_in_job}
use dispatchhub.Worker.Middleware.{limit_for}
use dispatchhub.Flow.Crash.{crashed_task_returns}

-- Half a minute in ns, after which the lease of a task without a timeout has run out.
abbrev pub half_minute : ℕ
half_minute = 30000000000

millis-half_minute : (now : ℕ) → millis now + 30000 ≤ millis (now + half_minute)
millis-half_minute now = omega arith

module _ (r : Redis) (c : Codec) (m : Mysql) ⦃redis : IsRedis r⦄ ⦃codec : IsCodec c⦄ where
  open r use {Store}

  lease_until-endless :
      (now : ℕ) (t : Task)
      → t.timeout_after ≡ pos 0
      → lease_until r c now t ≤ℤ pos (millis (now + half_minute))
  unfolding compute_visibility_timeout
  lease_until-endless now t endless = rw endless (ground (arith, millis-half_minute now))

  limit_for-endless :
      (default : ℤ) (now : ℕ) (t : Task)
      → t.timeout_after ≡ pos 0
      → pos half_minute <ℤ default
      → pos (now + half_minute) <ℤ pos now +ℤ limit_for default t
  limit_for-endless default now t endless longer = rw endless (ground (arith, longer))

  -- A worker whose own limit is above half a minute takes from one queue a task with the timeout of a
  -- cron job that was created without one. Half a minute later the limit of the run has not passed, and
  -- a ReclaimInflight that reaches the server and does not fill its batch puts the task back into
  -- the ready set, where the next worker finds it, though nothing has happened to the first. The queue's
  -- name maps to the right keys, its ready set holds tasks of its own, and inflight entries are tasks.
  pub cron_task_twice :
      (job : CronJob) (uuid queue : Text) (default : ℤ) (now : ℕ) (t : Task) (s s' later_s : Store)
      (batch_size : ℤ)
      → job.timeout_after ≡ pos 0
      → t.timeout_after ≡ (to_task (fill_in_job r c m uuid job)).timeout_after
      → pos half_minute <ℤ default
      → IsClear queue
      → Holds r c s queue
      → dequeue r c up up now (queue ∷ []) s ≡ (ok (some t), s')
      → r.hget later_s (inflight_key_for queue) t.id ≡ r.hget s' (inflight_key_for queue) t.id
      → r.zscore later_s (lease_key_for queue) t.id ≡ r.zscore s' (lease_key_for queue) t.id
      → Inflight r c later_s queue
      → length (
          r.zrangebyscore later_s
            (lease_key_for queue)
            (pos (millis (now + half_minute)))
            (batch_of r c batch_size))
        < batch_of r c batch_size
      → (pos (now + half_minute) <ℤ pos now +ℤ limit_for default t)
        × (n : ℕ) × (s'' : Store) × (d : Text) × (reclaim_inflight r c up
              (now + half_minute)
              queue
              batch_size
              later_s
            ≡ (ok n, s''))
        × (c.unmarshal d ≡ some t)
        × (r.zscore s'' (lease_key_for queue) t.id ≡ none)
        × (r.zscore s'' (ready_key_for queue) d ≡ some (neg t.priority))
  unfolding to_task fill_in_job
  cron_task_twice job uuid queue default now t s s' later_s batch_size none_given own longer clear
        holds run same_hash same_lease tasks short =
      let endless : t.timeout_after ≡ pos 0 = own ∙ none_given in
      let (n, s'', d, done, back, unleased, released, ready) =
        crashed_task_returns r c queue now (now + half_minute) t s s' later_s batch_size clear holds
          run same_hash same_lease tasks (lease_until-endless now t endless) short in
      (limit_for-endless default now t endless longer, n, s'', d, done, back, unleased, ready)
