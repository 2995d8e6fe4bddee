-- ===== src/Tests/Upkeep.antt =====
-- Runs of the scheduler's maintenance on the servers in memory.
use dispatchhub.Prelude.{ℕ, ◌≤◌, ◌-◌, ◌≡◌, refl, Bool, none, some, [], ◌∷◌, same}
use dispatchhub.Entity.State.{pending, state_name}
use dispatchhub.Redis.Call.{up, cut}
use dispatchhub.Redis.Memory.Table.{lookup, members}
use dispatchhub.Redis.Memory.{empty, memory, memory-IsRedis}
use dispatchhub.Broker.Maintain.Compensate.{Grown}
use dispatchhub.Mysql.Memory.{Rows, no_rows, database, database-IsMysql}
use dispatchhub.Scheduler.Topology.{Workers}
use dispatchhub.Scheduler.Maintenance.{Calls, compensate_orphaned_tasks}
use dispatchhub.Scheduler.Maintenance.Compensate.{Held, orphans, compensate_outcome}
use dispatchhub.Scheduler.Cron.Due.{trigger_due_cron_jobs, due_total}
use dispatchhub.Tests.Sample.{task, codec, wire, marshal-task}
use dispatchhub.Tests.Api.{worker}
use dispatchhub.Tests.Crons.{turn, job, with_job, next_run}

abbrev workers : Workers
workers = (worker.id, worker) ∷ []

abbrev calls : Calls
calls = record { push = λ j. up; touch = λ j. cut 0; now = λ j. 90 }

abbrev stored : Rows
stored = record no_rows { tasks = ([], task.id, task) ∷ [] }

find_stale-stored : database.find_stale stored pending (100 - 30) 10 ≡ task ∷ []
unfolding lookup members same state_name
find_stale-stored = refl

compensate_outcome_example :
    let tasks = database.find_stale stored pending (100 - 30) 10 in
    (s' : memory.Store) × (db' : database.Db) × (compensate_orphaned_tasks memory codec database up
        calls 100 30 10 empty stored
      ≡ (orphans memory codec database empty tasks, none, s', db'))
    × Held memory codec database s' tasks
    × Grown memory codec empty s'
compensate_outcome_example =
    compensate_outcome memory codec database ⦃redis = memory-IsRedis⦄ calls 100 30 10 empty stored
      (λ j. refl) (rw find_stale-stored ((wire, marshal-task), tt))

due_total_example :
    (k : ℕ) × (failed : Bool) × (s' : memory.Store) × (db' : database.Db) × (trigger_due_cron_jobs
        memory codec database next_run up
        (λ id. turn)
        150
        10
        empty
        (with_job job)
      ≡ some (k, failed, s', db'))
    × (k ≤ 10)
due_total_example =
    due_total memory codec database next_run database-IsMysql (λ id. turn) up 150 10 empty
      (with_job job)
