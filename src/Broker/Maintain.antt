-- ===== src/Broker/Maintain.antt =====
-- `PromoteDelayed`, `Len`, `Stats`, `EnqueueIfNotInflight` and `ReclaimInflight` of queue_broker.go.
pub mod Promote
pub mod Reclaim
pub mod Compensate
pub mod Keeps
use dispatchhub.Prelude.{
  ℕ, suc, Text, Bool, true, false, Option, none, some, List, [], ◌∷◌, codes, ◌==◌, if◌then◌else◌,
  length, get_or, is_some,
}
use dispatchhub.Prelude.Int.{ℤ, pos, pos_part, neg, leb_ℤ}
use dispatchhub.Entity.{Task, QueueStats}
use dispatchhub.Redis.{Redis}
use dispatchhub.Redis.Call.{Link, Reply, run_script}
use dispatchhub.Broker.Codec.{Codec, Decoded}
use dispatchhub.Broker.Keys.{
  ready_key_for, delayed_key_for, inflight_key_for, lease_key_for, stats_key_for,
}
use dispatchhub.Broker.Reply.{marshal_task, Result, ok, err, millis, from_reply, score_of}

abbrev pub default_reclaim_batch : ℕ
default_reclaim_batch = 100

module _ (r : Redis) (c : Codec) where
  open r use {Store}

  promote_one : Text → Text → Text → Option Decoded → Store → Option Store
  promote_one delayed ready d none s = none
  promote_one delayed ready d (some t) s = some (r.zrem (r.zadd s ready (score_of t) d) delayed d)

  -- The loop over the due members; `none` is an error of cjson, which leaves what was written.
  promote_loop : Text → Text → ℕ → List Text → Store → Reply ℕ × Store
  unfolding promote_one
  promote_loop delayed ready n [] s = (Reply.ok n, s)
  promote_loop delayed ready n (d ∷ ds) s =
      elim (promote_one delayed ready d (c.cjson_decode d) s) [
        | none ↦ (Reply.err, s)
        | some s' ↦ promote_loop delayed ready n ds s'
      ]

  promote_script : Text → Text → ℕ → ℕ → Store → Reply ℕ × Store
  unfolding promote_loop
  promote_script delayed ready now batch s =
      let tasks = r.zrangebyscore s delayed (pos now) batch in
      promote_loop delayed ready (length tasks) tasks s

  unfoldable pub promote_delayed : Link → ℕ → Text → ℕ → Store → Result ℕ × Store
  unfolding promote_script run_script
  promote_delayed link now queue batch s =
      let (reply, s') =
        run_script link
          (promote_script (delayed_key_for queue) (ready_key_for queue) (millis now) batch) s in
      (from_reply ok reply, s')

  unfoldable pub len : Link → Text → Store → Reply ℕ × Store
  unfolding run_script
  len link queue s = run_script link (λ d. (Reply.ok (r.zcard d (ready_key_for queue)), d)) s

  -- What the five commands of the pipeline read; a missing counter is redis.Nil, which counts as 0.
  abbrev stats_of : Text → Store → QueueStats
  stats_of queue s = record {
    name = queue;
    pending_count = r.zcard s (ready_key_for queue);
    active = r.hlen s (inflight_key_for queue);
    scheduled_count = r.zcard s (delayed_key_for queue);
    retrying_count = 0;
    completed_count = get_or 0 (r.hget_int s (stats_key_for queue) (codes "completed"));
    failed_count = get_or 0 (r.hget_int s (stats_key_for queue) (codes "failed"));
  }

  -- The error of pipe.Exec is returned. The commands only read, so a cut changes nothing.
  unfoldable pub stats : Link → Text → Store → Reply QueueStats × Store
  unfolding run_script
  stats link queue s = run_script link (λ d. (Reply.ok (stats_of queue d), d)) s

  enqueue_if_not_inflight_script : Text → Text → Text → ℤ → Text → Store → Reply ℕ × Store
  enqueue_if_not_inflight_script inflight ready task_id score d s =
      if is_some (r.hget s inflight task_id)
      then (Reply.ok 0, s)
      else (Reply.ok 1, r.zadd s ready score d)

  unfoldable pub enqueue_if_not_inflight : Link → Text → Task → Store → Result Bool × Store
  unfolding enqueue_if_not_inflight_script run_script
  enqueue_if_not_inflight link queue task s = elim (c.marshal task) [
    | none ↦ (err marshal_task, s)
    | some d ↦
        let (reply, s') =
          run_script link
            (enqueue_if_not_inflight_script (inflight_key_for queue) (ready_key_for queue) task.id
              (neg task.priority) d)
            s in
        (from_reply (λ n. ok (n == 1)) reply, s')
  ]

  -- One expired lease; `none` is an error of cjson, after ZREM and HDEL.
  put_back : Text → Text → Text → Text → Option Decoded → Store → Bool × Store
  put_back inflight ready task_id d none s = (false, r.hdel s inflight task_id)
  put_back inflight ready task_id d (some t) s =
      (true, r.zadd (r.hdel s inflight task_id) ready (score_of t) d)

  pub reclaim_loop : Text → Text → Text → ℕ → List Text → Store → Reply ℕ × Store
  unfolding put_back
  reclaim_loop lease inflight ready n [] s = (Reply.ok n, s)
  reclaim_loop lease inflight ready n (task_id ∷ ids) s = elim (r.hget s inflight task_id) [
    | none ↦ reclaim_loop lease inflight ready n ids (r.zrem s lease task_id)
    | some d ↦
        let (done, s') =
          put_back inflight ready task_id d (c.cjson_decode d) (r.zrem s lease task_id) in
        elim done [
          | true ↦ reclaim_loop lease inflight ready (suc n) ids s'
          | false ↦ (Reply.err, s')
        ]
  ]

  reclaim_script : Text → Text → Text → ℕ → ℕ → Store → Reply ℕ × Store
  unfolding reclaim_loop
  reclaim_script lease inflight ready now batch s =
      reclaim_loop lease inflight ready 0 (r.zrangebyscore s lease (pos now) batch) s

  -- A batch size of 0 or less means the default.
  unfoldable pub reclaim_inflight : Link → ℕ → Text → ℤ → Store → Result ℕ × Store
  unfolding reclaim_script run_script
  reclaim_inflight link now queue batch_size s =
      let batch = if leb_ℤ batch_size (pos 0) then default_reclaim_batch else pos_part batch_size in
      let (reply, s') =
        run_script link
          (reclaim_script (lease_key_for queue) (inflight_key_for queue) (ready_key_for queue)
            (millis now) batch)
          s in
      (from_reply ok reply, s')
