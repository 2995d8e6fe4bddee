-- ===== src/Worker/Life.antt =====
-- The registration and the heartbeats of worker_app_service.go: NewWorkerAppService, Run and heartbeatLoop,
-- over the registry. The hostname, the number of CPUs, the clock and the readings of the machine are
-- parameters; the metrics and the order in which goroutines end are left out.
pub mod Seen
use dispatchhub.Prelude.{
  ℕ, ◌*◌, Text, Bool, true, false, Option, none, some, List, [], ◌∷◌, ◌++◌, take, codes, is_empty,
  if◌then◌else◌,
}
use dispatchhub.Prelude.Int.{ℤ, pos, leb_ℤ}
use dispatchhub.Entity.Worker.{WorkerInfo, online}
use dispatchhub.Redis.Call.{Link}
use dispatchhub.Registry.{Etcd, Json, Leases, RegistryError, register, heartbeat, deregister}

pub record WorkerConfig : Type 0 where
  pub id : Text
  pub queues : List Text
  pub concurrency : ℤ
  pub heartbeat_interval : ℕ
  pub shutdown_timeout : ℕ
  pub task_timeout : ℕ

-- The configuration as NewWorkerAppService completes it.
unfoldable pub completed_config : Text → Text → ℕ → WorkerConfig → WorkerConfig
completed_config hostname uuid cpus cfg = record cfg {
  id = if is_empty cfg.id then hostname ++ codes "-" ++ take 8 uuid else cfg.id;
  concurrency = if leb_ℤ cfg.concurrency (pos 0) then pos (cpus * 10) else cfg.concurrency;
}

-- What Run registers: the other fields keep their zero values.
unfoldable pub worker_info : WorkerConfig → Text → List Text → ℕ → Text → WorkerInfo
worker_info cfg hostname task_types now version = record {
  id = cfg.id;
  hostname = hostname;
  ip = [];
  port = pos 0;
  state = online;
  labels = [];
  queues = cfg.queues;
  task_types = task_types;
  concurrency = cfg.concurrency;
  active_tasks = pos 0;
  completed_total = pos 0;
  failed_total = pos 0;
  cpu_usage = 0;
  mem_usage = 0;
  started_at = now;
  last_heartbeat = now;
  version = version;
}

-- What one tick of heartbeatLoop reads: the running tasks, the two usages, and the clock.
pub record Reading : Type 0 where
  pub active : ℤ
  pub cpu : ℕ
  pub mem : ℕ
  pub now : ℕ

unfoldable pub refreshed : Reading → WorkerInfo → WorkerInfo
refreshed reading info = record info {
  state = online;
  active_tasks = reading.active;
  cpu_usage = reading.cpu;
  mem_usage = reading.mem;
  last_heartbeat = reading.now;
}

module _ (e : Etcd) (json : Json) where
  -- The ticks of heartbeatLoop, each with the link of its call; a failure is only logged.
  unfoldable pub heartbeats :
      List (Link × Reading) → WorkerInfo → Leases → e.Store → WorkerInfo × e.Store
  unfolding refreshed
  heartbeats [] info leases s = (info, s)
  heartbeats ((link, reading) ∷ ticks) info leases s =
      let info' = refreshed reading info in
      heartbeats ticks info' leases (heartbeat e json link info' leases s).1

  -- The registration of Run, the heartbeats, and the deferred Deregister; a failed registration ends Run.
  abbrev after_register :
      Link
      → Link
      → List (Link × Reading)
      → WorkerInfo
      → Option RegistryError × Leases × e.Store
      → Option RegistryError × WorkerInfo × Leases × e.Store
  after_register revoke delete ticks info (some error, leases, s) = (some error, info, leases, s)
  after_register revoke delete ticks info (none, leases, s) =
      let (info', s1) = heartbeats ticks info leases s in
      let (error, leases', s2) = deregister e json revoke delete info.id leases s1 in
      (none, info', leases', s2)

  unfoldable pub run_worker :
      Link
      → Link
      → Link
      → Link
      → Link
      → List (Link × Reading)
      → WorkerInfo
      → Leases
      → e.Store
      → Option RegistryError × WorkerInfo × Leases × e.Store
  unfolding heartbeats
  run_worker grant put keepalive revoke delete ticks info leases s =
      after_register revoke delete ticks info (register e json grant put keepalive info leases s)
