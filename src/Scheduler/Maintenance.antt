-- ===== src/Scheduler/Maintenance.antt =====
-- The loops over tasks and queues of internal/scheduler/domain/service/scheduler.go:
-- CompensateOrphanedTasks, CleanupTerminalTasks and ReclaimInflightTasks.
pub mod Compensate
use dispatchhub.Prelude.{ℕ, suc, ◌+◌, Text, Bool, true, false, Option, none, some, List, [], ◌∷◌}
use dispatchhub.Prelude.Int.{ℤ}
use dispatchhub.Entity.{Task}
use dispatchhub.Entity.State.{pending}
use dispatchhub.Redis.{Redis}
use dispatchhub.Redis.Call.{Link, Reply}
use dispatchhub.Broker.Codec.{Codec}
use dispatchhub.Broker.Reply.{BrokerError, Result, ok, err}
use dispatchhub.Broker.Maintain.{enqueue_if_not_inflight, reclaim_inflight}
use dispatchhub.Mysql.Interface.{Mysql}
use dispatchhub.Mysql.Tasks.{find_stale_by_state, touch_updated_at, delete_terminal_older_than}
use dispatchhub.Scheduler.Topology.{Workers, queues}

pub data MaintenanceError : Type 0 where
  find_failed : MaintenanceError
  enqueue_failed : BrokerError → MaintenanceError

-- The links of the calls for a task, and the time of its update, by its id.
pub record Calls : Type 0 where
  pub push : Text → Link
  pub touch : Text → Link
  pub now : Text → ℕ

-- The link and the time of the call for a queue, by its name.
pub record QueueCalls : Type 0 where
  pub reclaim : Text → Link
  pub now : Text → ℕ

module _ (r : Redis) (c : Codec) (m : Mysql) where
  -- One turn of the loop: the count, and the error that ends it. A failed touch is only logged.
  unfoldable pub after_enqueue :
      Calls → ℕ → Task → m.Db → Result Bool × r.Store → ℕ × Option MaintenanceError × r.Store × m.Db
  after_enqueue calls n t db (err e, s) = (n, some (enqueue_failed e), s, db)
  after_enqueue calls n t db (ok false, s) = (n, none, s, db)
  after_enqueue calls n t db (ok true, s) =
      (suc n, none, s, (touch_updated_at m (calls.touch t.id) (calls.now t.id) t.id db).1)

  unfoldable pub compensate_loop :
      Calls → ℕ → List Task → r.Store → m.Db → ℕ × Option MaintenanceError × r.Store × m.Db
  unfolding after_enqueue
  compensate_loop calls n [] s db = (n, none, s, db)
  compensate_loop calls n (t ∷ ts) s db =
      let (n', stop, s', db') =
        after_enqueue calls n t db
          (enqueue_if_not_inflight r c (calls.push t.id) t.queue_name t s) in
      elim stop [ none ↦ compensate_loop calls n' ts s' db' | some e ↦ (n', some e, s', db') ]

  unfoldable pub after_find :
      Calls → Reply (List Task) → r.Store → m.Db → ℕ × Option MaintenanceError × r.Store × m.Db
  unfolding compensate_loop
  after_find calls Reply.err s db = (0, some find_failed, s, db)
  after_find calls (Reply.ok tasks) s db = compensate_loop calls 0 tasks s db

  unfoldable pub compensate_orphaned_tasks :
      Link → Calls → ℕ → ℕ → ℕ → r.Store → m.Db → ℕ × Option MaintenanceError × r.Store × m.Db
  unfolding after_find
  compensate_orphaned_tasks link calls now older_than limit s db =
      let (reply, db') = find_stale_by_state m link now pending older_than limit db in
      after_find calls reply s db'

  unfoldable pub cleanup_terminal_tasks : Link → ℕ → ℕ → ℕ → m.Db → Reply ℕ × m.Db
  cleanup_terminal_tasks link now older_than limit db =
      delete_terminal_older_than m link now older_than limit db

  -- The total, and the error of the last queue that failed.
  unfoldable pub reclaim_queues :
      QueueCalls
      → ℤ
      → ℕ
      → Option BrokerError
      → List Text
      → r.Store
      → ℕ × Option BrokerError × r.Store
  reclaim_queues calls batch_size total last_err [] s = (total, last_err, s)
  reclaim_queues calls batch_size total last_err (q ∷ qs) s =
      let (result, s') = reclaim_inflight r c (calls.reclaim q) (calls.now q) q batch_size s in
      elim result [
        | err e ↦ reclaim_queues calls batch_size total (some e) qs s'
        | ok n ↦ reclaim_queues calls batch_size (total + n) last_err qs s'
      ]

  unfoldable pub reclaim_inflight_tasks :
      QueueCalls → ℤ → Workers → r.Store → ℕ × Option BrokerError × r.Store
  unfolding reclaim_queues
  reclaim_inflight_tasks calls batch_size ws s =
      reclaim_queues calls batch_size 0 none (queues ws) s
