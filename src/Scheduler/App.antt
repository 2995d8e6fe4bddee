-- ===== src/Scheduler/App.antt =====
-- internal/scheduler/application/scheduler_app_service.go: what one tick of each loop does, with the
-- configuration that the loops run on. A loop logs an error and waits for its next tick. The gauges of
-- metricsLoop are left out.
pub mod Steps
pub mod Triggering
pub mod Keeps
use dispatchhub.Prelude.{ℕ, ◌*◌, Text, Option, none, some, List, [], ◌∷◌}
use dispatchhub.Prelude.Int.{ℤ, pos}
use dispatchhub.Entity.Worker.{WorkerInfo, WorkerEvent}
use dispatchhub.Redis.{Redis}
use dispatchhub.Redis.Call.{Link, Reply}
use dispatchhub.Broker.Codec.{Codec}
use dispatchhub.Broker.Maintain.{promote_delayed}
use dispatchhub.Mysql.Interface.{Mysql}
use dispatchhub.Scheduler.Cron.{Turn}
use dispatchhub.Scheduler.Cron.Due.{trigger_due_cron_jobs}
use dispatchhub.Scheduler.Maintenance.{
  Calls, QueueCalls, compensate_orphaned_tasks, cleanup_terminal_tasks, reclaim_inflight_tasks,
}
use dispatchhub.Scheduler.Topology.{
  Workers, queues, sync_workers, handle_worker_event, detect_stale_workers,
}

pub record SchedulerAppConfig : Type 0 where
  pub health_check_interval : ℕ
  pub stale_worker_threshold : ℕ
  pub metrics_interval : ℕ
  pub promote_delayed_interval : ℕ
  pub compensate_interval : ℕ
  pub compensate_older_than : ℕ
  pub compensate_batch_size : ℕ
  pub cron_check_interval : ℕ
  pub cron_batch_size : ℕ
  pub cleanup_interval : ℕ
  pub cleanup_older_than : ℕ
  pub cleanup_batch_size : ℕ
  pub reclaim_inflight_interval : ℕ
  pub reclaim_inflight_batch : ℤ

abbrev pub second : ℕ
second = 1000000000

abbrev pub hour : ℕ
hour = 3600 * second

abbrev pub default_scheduler_app_config : SchedulerAppConfig
default_scheduler_app_config = record {
  health_check_interval = 10 * second;
  stale_worker_threshold = 30 * second;
  metrics_interval = 5 * second;
  promote_delayed_interval = second;
  compensate_interval = 30 * second;
  compensate_older_than = 30 * second;
  compensate_batch_size = 100;
  cron_check_interval = second;
  cron_batch_size = 100;
  cleanup_interval = hour;
  cleanup_older_than = 7 * (24 * hour);
  cleanup_batch_size = 1000;
  reclaim_inflight_interval = 5 * second;
  reclaim_inflight_batch = pos 100;
}

-- The link and the time of PromoteDelayed for a queue, by its name.
pub record PromoteCalls : Type 0 where
  pub promote : Text → Link
  pub now : Text → ℕ

module _ (r : Redis) (c : Codec) (m : Mysql) (next_run : Text → ℕ → Option ℕ) where
  -- The workers that the scheduler knows, and the two servers.
  pub record App : Type 0 where
    pub workers : Workers
    pub store : r.Store
    pub db : m.Db

  -- The SyncWorkers of Run; a failure is only logged.
  unfoldable pub start : Reply (List WorkerInfo) → r.Store → m.Db → App
  start listing s db = record { workers = (sync_workers listing []).1; store = s; db = db }

  unfoldable pub promote_queues : PromoteCalls → List Text → r.Store → r.Store
  promote_queues calls [] s = s
  promote_queues calls (q ∷ qs) s =
      promote_queues calls qs (promote_delayed r c (calls.promote q) (calls.now q) q 100 s).1

  unfoldable pub promote_tick : PromoteCalls → App → App
  unfolding promote_queues
  promote_tick calls app = record app {
    store = promote_queues calls (queues app.workers) app.store;
  }

  unfoldable pub health_tick : SchedulerAppConfig → ℕ → App → App
  health_tick cfg now app = record app {
    workers = (detect_stale_workers now cfg.stale_worker_threshold app.workers).1;
  }

  unfoldable pub compensate_tick : SchedulerAppConfig → Link → Calls → ℕ → App → App
  compensate_tick cfg link calls now app =
      let (n, stop, s, db) =
        compensate_orphaned_tasks r c m link calls now cfg.compensate_older_than
          cfg.compensate_batch_size app.store app.db in
      record app { store = s; db = db }

  -- `none` is a panic, which ends the process.
  unfoldable pub cron_tick : SchedulerAppConfig → Link → (Text → Turn) → ℕ → App → Option App
  cron_tick cfg link turns now app =
      elim (trigger_due_cron_jobs r c m next_run link turns now cfg.cron_batch_size app.store
        app.db) [ none ↦ none | some p ↦ some (record app { store = p.2; db = p.3 }) ]

  unfoldable pub cleanup_tick : SchedulerAppConfig → Link → ℕ → App → App
  cleanup_tick cfg link now app = record app {
    db =
        (cleanup_terminal_tasks r c m link now cfg.cleanup_older_than cfg.cleanup_batch_size
          app.db).1;
  }

  unfoldable pub reclaim_tick : SchedulerAppConfig → QueueCalls → App → App
  reclaim_tick cfg calls app = record app {
    store = (reclaim_inflight_tasks r c m calls cfg.reclaim_inflight_batch app.workers app.store).2;
  }

  -- An event that watchWorkers receives.
  unfoldable pub event_received : WorkerEvent → App → App
  event_received event app = record app { workers = handle_worker_event event app.workers }
