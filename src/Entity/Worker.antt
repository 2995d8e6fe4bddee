-- ===== src/Entity/Worker.antt =====
-- internal/shared/domain/entity/worker.go, and the events of
-- internal/shared/domain/repository/worker_registry.go. Labels are kept as their JSON text, a
-- `float64` as the number that its bits spell.
use dispatchhub.Prelude.{ℕ, Text, Bool, true, false, Option, List}
use dispatchhub.Prelude.Int.{ℤ}

pub data WorkerState : Type 0 where
  online draining offline : WorkerState

pub record WorkerInfo : Type 0 where
  pub id : Text
  pub hostname : Text
  pub ip : Text
  pub port : ℤ
  pub state : WorkerState
  pub labels : Text
  pub queues : List Text
  pub task_types : List Text
  pub concurrency : ℤ
  pub active_tasks : ℤ
  pub completed_total : ℤ
  pub failed_total : ℤ
  pub cpu_usage : ℕ
  pub mem_usage : ℕ
  pub started_at : ℕ
  pub last_heartbeat : ℕ
  pub version : Text

-- w.State == entity.WorkerStateOnline
abbrev pub is_online : WorkerState → Bool
is_online online = true
is_online draining = false
is_online offline = false

pub data WorkerEventType : Type 0 where
  joined left updated : WorkerEventType

pub record WorkerEvent : Type 0 where
  pub type : WorkerEventType
  pub worker_id : Text
  pub worker : Option WorkerInfo
