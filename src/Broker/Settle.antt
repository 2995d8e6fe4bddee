-- ===== src/Broker/Settle.antt =====
-- `Ack` and `Nack` of queue_broker.go: pipelines that a cut link may execute in part.
pub mod Outcome
use dispatchhub.Prelude.{ℕ, Text, ◌&&◌, none, some, [], ◌∷◌, codes, if◌then◌else◌}
use dispatchhub.Prelude.Int.{pos, ◌+ℤ◌, neg, ltb_ℤ}
use dispatchhub.Entity.{Task, can_retry}
use dispatchhub.Redis.{Redis}
use dispatchhub.Redis.Call.{Link, run_pipeline}
use dispatchhub.Broker.Codec.{Codec}
use dispatchhub.Broker.Keys.{
  ready_key_for, delayed_key_for, inflight_key_for, lease_key_for, stats_key_for,
}
use dispatchhub.Broker.Backoff.{compute_retry_backoff}
use dispatchhub.Broker.Reply.{marshal_task, Result, err, unix_milli, from_exec}

module _ (r : Redis) (c : Codec) where
  open r use {Store}

  unfoldable pub ack : Link → Text → Text → Store → Result (Unit {0}) × Store
  unfolding run_pipeline
  ack link queue task_id s =
      let (reply, s') =
        run_pipeline link
          ((λ t. r.hdel t (inflight_key_for queue) task_id)
            ∷ (λ t. r.zrem t (lease_key_for queue) task_id)
            ∷ (λ t. r.hincrby t (stats_key_for queue) (codes "completed") 1)
            ∷ [])
          s in
      (from_exec reply, s')

  release : Link → Text → Text → (Store → Store) → Store → Result (Unit {0}) × Store
  unfolding run_pipeline
  release link queue task_id last s =
      let (reply, s') =
        run_pipeline link
          ((λ t. r.hdel t (inflight_key_for queue) task_id)
            ∷ (λ t. r.zrem t (lease_key_for queue) task_id)
            ∷ last
            ∷ [])
          s in
      (from_exec reply, s')

  -- A failure of json.Marshal returns before the pipeline is sent.
  unfoldable pub nack : Link → (ℕ → ℕ) → ℕ → Text → Task → Store → Result (Unit {0}) × Store
  unfolding release
  nack link rand now queue task s =
      if can_retry task && ltb_ℤ (pos 0) task.retry_backoff
      then (elim (c.marshal task) [
        | none ↦ (err marshal_task, s)
        | some d ↦
            let backoff = compute_retry_backoff rand task.retry_backoff task.retry_count in
            release link queue task.id
              (λ t. r.zadd t (delayed_key_for queue) (unix_milli (pos now +ℤ backoff)) d) s
      ])
      else (if can_retry task
          then (elim (c.marshal task) [
            | none ↦ (err marshal_task, s)
            | some d ↦
                release link queue task.id
                  (λ t. r.zadd t (ready_key_for queue) (neg task.priority) d) s
          ])
          else release link queue task.id
              (λ t. r.hincrby t (stats_key_for queue) (codes "failed") 1) s)
