-- ===== src/Broker/Queue.antt =====
-- `Enqueue`, `EnqueueDelayed` and `Dequeue` of queue_broker.go, with their Lua scripts. A method takes
-- the link of each call that it makes, the time where it reads the clock, and the store. Times are
-- nanoseconds, scores milliseconds or priorities.
pub mod Dequeue
pub mod Keeps
use dispatchhub.Prelude.{
  ℕ, zero, suc, ◌+◌, Text, ◌&&◌, Option, none, some, List, [], ◌∷◌, map, codes, if◌then◌else◌,
}
use dispatchhub.Prelude.Int.{ℤ, pos, negsuc, ◌+ℤ◌, pos_part, neg, ltb_ℤ, leb_ℤ}
use dispatchhub.Entity.{Task}
use dispatchhub.Redis.{Redis}
use dispatchhub.Redis.Call.{Link, Reply, run_script, run_pipeline}
use dispatchhub.Broker.Codec.{Codec, Decoded}
use dispatchhub.Broker.Keys.{
  ready_key_for, delayed_key_for, lease_key_for, stats_key_for, derived_inflight, derived_lease,
}
use dispatchhub.Broker.Backoff.{default_visibility_timeout, compute_visibility_timeout}
use dispatchhub.Broker.Reply.{
  marshal_task, unmarshal_task, script_failed, queue_full, extend_lease, Result, ok, err, millis,
  unix_milli, from_reply, from_exec,
}

module _ (r : Redis) (c : Codec) where
  open r use {Store}

  enqueue_with_cap_script : Text → Text → ℤ → Text → ℤ → Store → Reply ℤ × Store
  enqueue_with_cap_script ready stats score d max_size s =
      if ltb_ℤ (pos 0) max_size && leb_ℤ max_size (pos (r.zcard s ready))
      then (Reply.ok (negsuc 0), s)
      else (Reply.ok (pos 0), r.hincrby (r.zadd s ready score d) stats (codes "enqueued") 1)

  abbrev full_if : ℤ → Result (Unit {0})
  full_if (pos n) = ok tt
  full_if (negsuc zero) = err queue_full
  full_if (negsuc (suc n)) = ok tt

  unfoldable pub enqueue_with_cap : Link → Text → Task → ℤ → Store → Result (Unit {0}) × Store
  unfolding enqueue_with_cap_script run_script
  enqueue_with_cap link queue task max_size s = elim (c.marshal task) [
    | none ↦ (err marshal_task, s)
    | some d ↦
        let (reply, s') =
          run_script link
            (enqueue_with_cap_script (ready_key_for queue) (stats_key_for queue) (neg task.priority)
              d max_size)
            s in
        (from_reply full_if reply, s')
  ]

  unfoldable pub enqueue : Link → Text → Task → Store → Result (Unit {0}) × Store
  unfolding enqueue_with_cap
  enqueue link queue task s = enqueue_with_cap link queue task (pos 0) s

  -- The score is ScheduleAt, or else now plus the delay.
  abbrev pub execute_at : ℕ → Task → ℤ
  execute_at now task = elim task.schedule_at [
    | some t ↦ pos (millis t)
    | none ↦ unix_milli (pos now +ℤ task.delay)
  ]

  unfoldable pub enqueue_delayed : Link → ℕ → Text → Task → Store → Result (Unit {0}) × Store
  unfolding run_pipeline
  enqueue_delayed link now queue task s = elim (c.marshal task) [
    | none ↦ (err marshal_task, s)
    | some d ↦
        let (reply, s') =
          run_pipeline link ((λ t. r.zadd t (delayed_key_for queue) (execute_at now task) d) ∷ [])
            s in
        (from_exec reply, s')
  ]

  -- A member that is no JSON stops the script after ZPOPMIN.
  unfoldable pub take_out : Text → ℤ → Text → Option Decoded → Store → Reply (Option Text) × Store
  take_out key deadline d none s = (Reply.err, s)
  take_out key deadline d (some t) s = (
    Reply.ok (some d),
    r.zadd (r.hset s (derived_inflight key) t.id d) (derived_lease key) deadline t.id,
  )

  -- The loop over the ready keys.
  unfoldable pub dequeue_script : ℤ → List Text → Store → Reply (Option Text) × Store
  unfolding take_out
  dequeue_script deadline [] s = (Reply.ok none, s)
  dequeue_script deadline (key ∷ keys) s = elim (r.zpopmin s key) [
    | none ↦ dequeue_script deadline keys s
    | some (d, s') ↦ take_out key deadline d (c.cjson_decode d) s'
  ]

  -- A lease longer than the default is written by a second call.
  unfoldable pub extend_lease_of : Link → ℕ → Task → Store → Result (Option Task) × Store
  unfolding run_pipeline
  extend_lease_of link now task s =
      let visibility = compute_visibility_timeout task.timeout_after in
      if ltb_ℤ default_visibility_timeout visibility
      then (let deadline = pos (millis now + millis (pos_part visibility)) in
          let (reply, s') =
            run_pipeline link
              ((λ t. r.zadd t (lease_key_for task.queue_name) deadline task.id) ∷ []) s in
          elim reply [ Reply.ok u ↦ (ok (some task), s') | Reply.err ↦ (err extend_lease, s') ])
      else (ok (some task), s)

  unfoldable pub read_task : Link → ℕ → Option Task → Store → Result (Option Task) × Store
  unfolding extend_lease_of
  read_task link now none s = (err unmarshal_task, s)
  read_task link now (some task) s = extend_lease_of link now task s

  unfoldable pub after_script :
      Link → ℕ → Reply (Option Text) → Store → Result (Option Task) × Store
  unfolding read_task
  after_script link now Reply.err s = (err script_failed, s)
  after_script link now (Reply.ok none) s = (ok none, s)
  after_script link now (Reply.ok (some d)) s = read_task link now (c.unmarshal d) s

  unfoldable pub dequeue : Link → Link → ℕ → List Text → Store → Result (Option Task) × Store
  unfolding dequeue_script after_script run_script
  dequeue link link' now queues s =
      let deadline = pos (millis now + millis (pos_part default_visibility_timeout)) in
      let (reply, s') = run_script link (dequeue_script deadline (map ready_key_for queues)) s in
      after_script link' now reply s'
