-- ===== src/Worker/Process/Runs.antt =====
-- Whole runs of `processTask`.
use dispatchhub.Prelude.{
  ◌+◌, ◌≡◌, ◌≢◌, refl, ap, ◌∙◌, Text, Bool, true, Option, none, some, List, codes, arith,
}
use dispatchhub.Entity.{Task, TaskResult, is_terminal}
use dispatchhub.Entity.State.{completed, cancelled}
use dispatchhub.Redis.{Redis, IsRedis}
use dispatchhub.Redis.Call.{up, Reply}
use dispatchhub.Broker.Codec.{Codec}
use dispatchhub.Broker.Settle.{ack}
use dispatchhub.Broker.Settle.Outcome.{Released, counter, SameQueues, ack_outcome}
use dispatchhub.Mysql.Interface.{Mysql, IsMysql}
use dispatchhub.Mysql.Tasks.{get}
use dispatchhub.Mysql.Tasks.Locking.{bumped, update_miss}
use dispatchhub.Worker.Env.{Call, check, start, Env, Handler, wrap, safe_handle}
use dispatchhub.Worker.Settle.{save, handle_success}
use dispatchhub.Worker.Settle.Quiet.{Quiet, on_db-quiet, drop-quiet}
use dispatchhub.Worker.Settle.Effects.{success_outcome}
use dispatchhub.Worker.Process.{
  running_task, read, settle_result, run_handler, after_check, process_task,
}

module _ (r : Redis) (c : Codec) (m : Mysql) ⦃redis : IsRedis r⦄ (mysql : IsMysql m)
    (env : Env r m) where
  read-quiet :
      Quiet r c m mysql env
      → (call : Call) (id : Text) (s : r.Store) (db : m.Db)
      → read r c m env call id (s, db) ≡ (Reply.ok (m.find_task db id), (s, db))
  unfolding get
  read-quiet quiet call id s db =
      on_db-quiet r c m mysql env quiet call (λ link at. get m link id) s db

  abbrev pub started : Text → Task → Task
  started worker task = bumped m mysql (env.now start) (running_task worker (env.now start) task)

  process_task-checked :
      Quiet r c m mysql env
      → (worker : Text) (is_cancelled : Bool) (middleware : List (Handler → Handler))
        (handlers : Text → Option Handler) (task row : Task) (s : r.Store) (db : m.Db)
      → m.find_task db task.id ≡ some row
      → process_task r c m env worker is_cancelled middleware handlers task (s, db)
        ≡ after_check r c m env worker is_cancelled middleware
            (handlers task.type)
            task
            (Reply.ok (some row))
            (s, db)
  unfolding process_task
  process_task-checked quiet worker is_cancelled middleware handlers task row s db e =
      ap
        (λ p.
          after_check r c m env worker is_cancelled middleware (handlers task.type) task p.0 p.1)
        (read-quiet quiet check task.id s db)
      ∙ ap
          (λ o.
            after_check r c m env worker is_cancelled middleware (handlers task.type) task
              (Reply.ok o) (s, db))
          e

  process_task-dropped :
      Quiet r c m mysql env
      → (worker : Text) (is_cancelled : Bool) (middleware : List (Handler → Handler))
        (handlers : Text → Option Handler) (task row : Task) (s : r.Store) (db : m.Db)
      → m.find_task db task.id ≡ some row
      → is_terminal row ≡ true
      → process_task r c m env worker is_cancelled middleware handlers task (s, db)
        ≡ ((ack r c up task.queue_name task.id s).1, db)
  unfolding after_check
  process_task-dropped quiet worker is_cancelled middleware handlers task row s db e done =
      process_task-checked quiet worker is_cancelled middleware handlers task row s db e
      ∙ rw (done, after_check) (drop-quiet r c m mysql env quiet task s db)

  -- The run from the look-up of the handler on, when it returns no error; what the Update to running
  -- reports does not matter.
  run_handler-returned :
      Quiet r c m mysql env
      → (worker : Text) (is_cancelled : Bool) (middleware : List (Handler → Handler))
        (handler : Handler) (task : Task) (result : TaskResult) (s : r.Store) (db : m.Db)
      → safe_handle (wrap middleware handler) (started worker task) ≡ some result
      → result.error ≡ none
      → let t = running_task worker (env.now start) task in
        (save r c m env t up (env.now start) db).0.1 ≡ started worker task
        → run_handler r c m env worker is_cancelled middleware (some handler) task (s, db)
          ≡ handle_success r c m env (started worker task) result (
            s,
            (save r c m env (running_task worker (env.now start) task) up (env.now start) db).1,
          )
  unfolding run_handler settle_result handle_success
  run_handler-returned quiet worker is_cancelled middleware handler task result s db returned
        no_error b =
      let t = running_task worker (env.now start) task in
      let db1 = (save r c m env t up (env.now start) db).1 in
      ap
        (λ p.
          settle_result r c m env is_cancelled p.0.1 (safe_handle (wrap middleware handler) p.0.1)
            p.1)
        (on_db-quiet r c m mysql env quiet start (save r c m env t) s db)
      ∙ ap
          (λ u.
            settle_result r c m env is_cancelled u (safe_handle (wrap middleware handler) u)
              (s, db1))
          b
      ∙ ap (λ o. settle_result r c m env is_cancelled (started worker task) o (s, db1)) returned
      ∙ rw (no_error, settle_result) refl

  -- A task whose row is terminal is not run: it is released and counted, and the database and the
  -- queues stay as they are, whatever the handlers are.
  pub process_terminal :
      Quiet r c m mysql env
      → (worker : Text) (is_cancelled : Bool) (middleware : List (Handler → Handler))
        (handlers : Text → Option Handler) (task row : Task) (s : r.Store) (db : m.Db)
      → m.find_task db task.id ≡ some row
      → is_terminal row ≡ true
      → let (s', db') =
          process_task r c m env worker is_cancelled middleware handlers task (s, db) in
        (db' ≡ db)
        × Released r c s' task.queue_name task.id
        × (counter r c s' task.queue_name (codes "completed")
            ≡ counter r c s task.queue_name (codes "completed") + 1)
        × SameQueues r c s s'
  process_terminal quiet worker is_cancelled middleware handlers task row s db e done =
      let (reply, released, count, rest, same_queues) = ack_outcome r c s task.queue_name task.id in
      rw (process_task-dropped quiet worker is_cancelled middleware handlers task row s db e done)
        (refl, released, count, same_queues)

  -- With the servers in reach and nobody else writing, a cancellation that is written after the second Get, and before the Update to running, is lost when
  -- the handler returns no error: that Update fails on the newer row, but the struct's version has
  -- risen, so the next one succeeds and records the cancelled task as completed.
  pub cancel_lost :
      Quiet r c m mysql env
      → (worker : Text) (is_cancelled : Bool) (middleware : List (Handler → Handler))
        (handler : Handler) (task row : Task) (result : TaskResult) (s : r.Store) (db : m.Db)
      → m.find_task db task.id ≡ some row
      → row.state ≡ cancelled
      → row.version ≡ task.version + 1
      → safe_handle (wrap middleware handler) (started worker task) ≡ some result
      → result.error ≡ none
      → let (s', db') =
          run_handler r c m env worker is_cancelled middleware (some handler) task (s, db) in
        (row' : Task) × (m.find_task db' task.id ≡ some row') × (row'.state ≡ completed)
  unfolding save
  cancel_lost quiet worker is_cancelled middleware handler task row result s db e gone v returned
        no_error =
      let now = env.now start in
      let t = running_task worker now task in
      let ne : row.version ≢ t.version = omega arith in
      let (miss, b, keep) = update_miss m mysql db now t row e ne in
      let ((row', at, state, output, version), released, count, same_queues) =
        success_outcome r c m mysql env quiet s (save r c m env t up now db).1 (started worker task)
          row result (keep task.id ∙ e, v) in
      rw
        (run_handler-returned quiet worker is_cancelled middleware handler task result s db returned
          no_error b)
        (row', at, state)
