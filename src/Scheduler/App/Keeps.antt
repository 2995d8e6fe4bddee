-- ===== src/Scheduler/App/Keeps.antt =====
-- No task leaves Redis through the scheduler.
use dispatchhub.Prelude.{ℕ, ◌≡◌, subst, Text, Bool, true, Option, none, some, is_some, arith}
use dispatchhub.Redis.{Redis, IsRedis}
use dispatchhub.Broker.Codec.{Codec}
use dispatchhub.Broker.Keep.{is_in, Kept, Kept-refl, Kept-trans}
use dispatchhub.Broker.Queue.Keeps.{enqueue-Kept}
use dispatchhub.Broker.Maintain.Keeps.{
  promote_delayed-Kept, enqueue_if_not_inflight-Kept, reclaim_inflight-Kept,
}
use dispatchhub.Mysql.Interface.{Mysql}
use dispatchhub.Scheduler.Maintenance.{compensate_orphaned_tasks, reclaim_inflight_tasks}
use dispatchhub.Scheduler.Topology.{queues}
use dispatchhub.Scheduler.App.{
  SchedulerAppConfig, App, promote_tick, health_tick, compensate_tick, cron_tick, cleanup_tick,
  reclaim_tick, event_received,
}
use dispatchhub.Scheduler.App.Steps.{
  Tick, Call, promoted, reclaimed, compensated, triggered, Sequence, done, then_call,
  promote_queues-Sequence, reclaim_queues-Sequence, after_find-Sequence,
}
use dispatchhub.Scheduler.App.Triggering.{Comes, trigger_due-Comes}

module _ (r : Redis) (c : Codec) (m : Mysql) (next_run : Text → ℕ → Option ℕ) where
  cron-Sequence :
      (a b : App r c m next_run) (o : Option (ℕ × Bool × r.Store × m.Db))
      → Comes r c m next_run a.store o
      → ◌≡◌ {A = Option (App r c m next_run)}
          (elim o [ none ↦ none | some p ↦ some (record a { store = p.2; db = p.3 }) ])
          (some b)
      → Sequence r c m next_run a.store b.store
  cron-Sequence a b none p e = cc e
  cron-Sequence a b (some x) p e =
      let at : x.2 ≡ b.store = ground (arith, e) in subst (Sequence r c m next_run a.store) at p

  -- What any tick of any loop does to Redis is a sequence of PromoteDelayed, ReclaimInflight,
  -- EnqueueIfNotInflight and Enqueue.
  tick_calls :
      (cfg : SchedulerAppConfig) (a b : App r c m next_run)
      → Tick r c m next_run cfg a b
      → Sequence r c m next_run a.store b.store
  unfolding promote_tick health_tick compensate_tick cron_tick cleanup_tick reclaim_tick
      event_received compensate_orphaned_tasks reclaim_inflight_tasks
  tick_calls cfg a b (Tick.promote calls x) =
      promote_queues-Sequence r c m next_run calls (queues x.workers) x.store
  tick_calls cfg a b (Tick.health now x) = done x.store
  tick_calls cfg a b (Tick.compensate link calls now x) =
      after_find-Sequence r c m next_run calls _ x.store _
  tick_calls cfg a b (Tick.cron link turns now x y e) =
      cron-Sequence x y _
        (trigger_due-Comes r c m next_run link turns now cfg.cron_batch_size x.store x.db) e
  tick_calls cfg a b (Tick.cleanup link now x) = done x.store
  tick_calls cfg a b (Tick.reclaim calls x) =
      reclaim_queues-Sequence r c m next_run calls cfg.reclaim_inflight_batch 0 none
        (queues x.workers) x.store
  tick_calls cfg a b (Tick.watch event x) = done x.store

  module _ ⦃redis : IsRedis r⦄ where
    Call-Kept : {s s' : r.Store} → Call r c m next_run s s' → Kept r c s s'
    Call-Kept (promoted link now queue s) = promote_delayed-Kept r c link now queue 100 s
    Call-Kept (reclaimed link now queue n s) = reclaim_inflight-Kept r c link now queue n s
    Call-Kept (compensated link t s) = enqueue_if_not_inflight-Kept r c link t.queue_name t s
    Call-Kept (triggered link t s) = enqueue-Kept r c link t.queue_name t s

    Sequence-Kept : {s s' : r.Store} → Sequence r c m next_run s s' → Kept r c s s'
    Sequence-Kept (done s) = Kept-refl r c s
    Sequence-Kept (then_call x p) = Kept-trans r c _ _ _ (Call-Kept x) (Sequence-Kept p)

    -- Whatever calls the loops make, in whatever order and however each call ends, a text that decodes and
    -- is ready, delayed or inflight in a queue is still so in that queue afterwards.
    pub scheduler_keeps :
        (s s' : r.Store) (queue task_id d : Text)
        → Sequence r c m next_run s s'
        → is_some (c.cjson_decode d) ≡ true
        → is_in r c s queue task_id d ≡ true
        → is_in r c s' queue task_id d ≡ true
    scheduler_keeps s s' queue task_id d p e h = Sequence-Kept p queue task_id d e h
