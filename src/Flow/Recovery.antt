-- ===== src/Flow/Recovery.antt =====
-- The promise of the comment in SubmitTask of
-- internal/apiserver/domain/service/task_service_impl.go: a task whose push to Redis failed is put there
-- by CompensateOrphanedTasks of internal/scheduler/domain/service/scheduler.go.
use dispatchhub.Prelude.{
  ℕ, zero, ◌-◌, ◌<◌, ◌≡◌, refl, ◌∙◌, Text, true, none, some, length, same_refl, All-Occurs,
  Bool-cases, inl, inr, Option-cases,
}
use dispatchhub.Entity.{Task}
use dispatchhub.Entity.State.{pending}
use dispatchhub.Redis.{Redis, IsRedis}
use dispatchhub.Redis.Call.{up, cut, run_script, run_pipeline}
use dispatchhub.Broker.Codec.{Codec}
use dispatchhub.Broker.Queue.{enqueue, enqueue_with_cap, enqueue_delayed}
use dispatchhub.Broker.Maintain.Compensate.{is_held, Grown}
use dispatchhub.Mysql.Interface.{Mysql, IsMysql}
use dispatchhub.Api.Service.{Request, Hooks, fill_in, refusal, push_task, submit_task, is_deferred}
use dispatchhub.Api.Service.Submit.{submitted, submit_fresh}
use dispatchhub.Scheduler.Maintenance.{Calls, compensate_orphaned_tasks}
use dispatchhub.Scheduler.Maintenance.Compensate.{Marshalled, compensate_outcome}

module _ (r : Redis) (c : Codec) (m : Mysql) where
  enqueue_delayed-cut :
      (now : ℕ) (t : Task) (s : r.Store)
      → (enqueue_delayed r c (cut zero) now t.queue_name t s).1 ≡ s
  unfolding enqueue_delayed run_pipeline
  enqueue_delayed-cut now t s = elim (Option-cases (c.marshal t)) [
    | inl e ↦ rw (e, enqueue_delayed)
    | inr (d, e) ↦ rw (e, enqueue_delayed)
  ]

  enqueue-cut : (t : Task) (s : r.Store) → (enqueue r c (cut zero) t.queue_name t s).1 ≡ s
  unfolding enqueue enqueue_with_cap run_script
  enqueue-cut t s = elim (Option-cases (c.marshal t)) [
    | inl e ↦ rw (e, enqueue_with_cap)
    | inr (d, e) ↦ rw (e, enqueue_with_cap)
  ]

  push_task-cut :
      (request : Request) (t : Task) (s : r.Store)
      → request.push ≡ cut zero
      → push_task r c m request t s ≡ s
  unfolding push_task
  push_task-cut request t s lost = elim (Bool-cases (is_deferred r c m t)) [
    | inl e ↦ rw (e, lost) (enqueue_delayed-cut request.now t s)
    | inr e ↦ rw (e, lost) (enqueue-cut t s)
  ]

  -- The task's marshalled text is in the ready set or its id in the inflight hash.
  abbrev pub InRedis : r.Store → Task → Type 0
  InRedis s t = (d : Text) × (c.marshal t ≡ some d) × (is_held r c s t d ≡ true)

  -- A submission whose row MySQL takes and that Redis does not hear of returns no error and changes
  -- nothing in Redis. The next compensation that comes after the threshold, reaches the servers and does
  -- not fill its batch puts the task into Redis, if every pending row that it reads marshals, whatever
  -- happens in between as long as the task's row stays as it is.
  pub lost_push_recovered :
      ⦃redis : IsRedis r⦄ (mysql : IsMysql m) (request : Request) (hooks : Hooks) (task : Task)
      (s later_s : r.Store) (db row_in later_db : m.Db) (calls : Calls) (now older_than limit : ℕ)
      → request.insert ≡ up
      → request.push ≡ cut zero
      → refusal hooks (fill_in request task) ≡ none
      → m.insert_task db (fill_in request task) ≡ some row_in
      → m.find_task later_db (submitted r c m request task).id ≡ some (submitted r c m request task)
      → request.now < now - older_than
      → ((j : Text) → calls.push j ≡ up)
      → Marshalled r c m (m.find_stale later_db pending (now - older_than) limit)
      → length (m.find_stale later_db pending (now - older_than) limit) < limit
      → let t = submitted r c m request task in
        let (error, t', s', db') = submit_task r c m request hooks task s db in
        let (n, stop, s'', db'') =
          compensate_orphaned_tasks r c m up calls now older_than limit later_s later_db in
        (error ≡ none)
        × (s' ≡ s)
        × (m.find_task db' t.id ≡ some t)
        × (stop ≡ none)
        × InRedis s'' t
        × Grown r c later_s s''
  unfolding fill_in
  lost_push_recovered mysql request hooks task s later_s db row_in later_db calls now older_than
        limit reach lost pass taken row old links all short =
      let t = submitted r c m request task in
      let (run, found) = submit_fresh r c m mysql request hooks task s db row_in reach pass taken in
      let (s'', db'', done, held, grown) =
        compensate_outcome r c m calls now older_than limit later_s later_db links all in
      let there =
        mysql.stale_complete later_db pending (now - older_than) limit t.id t row refl old short in
      rw (run, done)
        (
          refl,
          push_task-cut request t s lost,
          found t.id ∙ rw (same_refl t.id) refl,
          refl,
          All-Occurs (InRedis s'') t (m.find_stale later_db pending (now - older_than) limit) held
              there,
          grown,
        )
