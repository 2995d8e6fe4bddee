-- ===== src/Entity/State.antt =====
-- `TaskState` of internal/shared/domain/entity/task.go, and its names.
use dispatchhub.Prelude.{Text, codes}

pub data TaskState : Type 0 where
  pending scheduled running retrying completed failed cancelled timeout : TaskState

-- `String` with the table `taskStateNames`.
unfoldable pub state_name : TaskState → Text
state_name pending = codes "pending"
state_name scheduled = codes "scheduled"
state_name running = codes "running"
state_name retrying = codes "retrying"
state_name completed = codes "completed"
state_name failed = codes "failed"
state_name cancelled = codes "cancelled"
state_name timeout = codes "timeout"
