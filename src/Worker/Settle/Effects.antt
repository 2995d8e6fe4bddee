-- ===== src/Worker/Settle/Effects.antt =====
-- What a worker leaves behind when a task has succeeded or failed, on a database row and in the store.
use dispatchhub.Prelude.{◌+◌, ◌≡◌, refl, ap, ◌∙◌, Text, true, false, some, codes, arith}
use dispatchhub.Prelude.Int.{pos, ◌+ℤ◌, neg, ltb_ℤ}
use dispatchhub.Entity.{Task, TaskResult, can_retry, is_terminal}
use dispatchhub.Entity.State.{completed, retrying, failed}
use dispatchhub.Redis.{Redis, IsRedis}
use dispatchhub.Redis.Call.{up}
use dispatchhub.Broker.Codec.{Codec}
use dispatchhub.Broker.Keys.{delayed_key_for, ready_key_for}
use dispatchhub.Broker.Backoff.{compute_retry_backoff}
use dispatchhub.Broker.Reply.{unix_milli}
use dispatchhub.Broker.Settle.{ack, nack}
use dispatchhub.Broker.Settle.Outcome.{
  Released, counter, SameQueues, ack_outcome, nack_outcome, ack-failed,
}
use dispatchhub.Mysql.Interface.{Mysql, IsMysql, merge, or_old}
use dispatchhub.Mysql.Tasks.{UpdateResult, updated}
use dispatchhub.Mysql.Tasks.Locking.{bumped}
use dispatchhub.Worker.Env.{settle_row, settle_queue, Env}
use dispatchhub.Worker.Settle.{
  save, drop, requeue_saved, handle_success, handle_failure, attempted, completed_task,
  retrying_task, failed_task,
}
use dispatchhub.Worker.Settle.Quiet.{
  Quiet, Current, on_db-quiet, on_store-quiet, drop-quiet, save_hit,
}

module _ (r : Redis) (c : Codec) (m : Mysql) ⦃redis : IsRedis r⦄ (mysql : IsMysql m)
    (env : Env r m) where
  handle_success-quiet :
      Quiet r c m mysql env
      → (task : Task) (result : TaskResult) (s : r.Store) (db : m.Db)
      → handle_success r c m env task result (s, db) ≡ (
        (ack r c up task.queue_name task.id s).1,
        (save r c m env
            (completed_task r c m env (env.now settle_row) task result.output)
            up
            (env.now settle_row)
            db).1,
      )
  unfolding handle_success
  handle_success-quiet quiet task result s db =
      let t = completed_task r c m env (env.now settle_row) task result.output in
      ap (λ p. drop r c m env task p.1)
        (on_db-quiet r c m mysql env quiet settle_row (save r c m env t) s db)
      ∙ drop-quiet r c m mysql env quiet task s _

  -- With the servers in reach, nobody else writing and the row current, handleSuccess records the state
  -- completed and the output, or keeps the row's result if that is empty, releases the task, counts it
  -- as completed and changes no queue.
  pub success_outcome :
      Quiet r c m mysql env
      → (s : r.Store) (db : m.Db) (task row : Task) (result : TaskResult)
      → Current r c m mysql env db task row
      → let (s', db') = handle_success r c m env task result (s, db) in
        ((row' : Task) × (m.find_task db' task.id ≡ some row')
          × (row'.state ≡ completed)
          × (row'.result ≡ or_old result.output row.result)
          × (row'.version ≡ task.version + 1))
        × Released r c s' task.queue_name task.id
        × (counter r c s' task.queue_name (codes "completed")
            ≡ counter r c s task.queue_name (codes "completed") + 1)
        × SameQueues r c s s'
  success_outcome quiet s db task row result current =
      let now = env.now settle_row in
      let t = completed_task r c m env now task result.output in
      let (hit, b, found) = save_hit r c m mysql env quiet db now t row current in
      let (reply, released, count, rest, same_queues) = ack_outcome r c s task.queue_name task.id in
      rw (handle_success-quiet quiet task result s db) (
        (merge row (bumped m mysql now t) now, found, refl, refl, ground arith),
        released,
        count,
        same_queues,
      )

  -- The struct that handleFailure hands to Nack.
  abbrev pub requeued : Task → Text → Task
  requeued task error =
      bumped m mysql (env.now settle_row) (retrying_task r c m env (attempted r c m env task error))

  abbrev pub exhausted : Task → Text → Task
  exhausted task error =
      bumped m mysql (env.now settle_row)
        (failed_task r c m env (env.now settle_row) (attempted r c m env task error))

  requeued-can_retry :
      (task : Task) (error : Text)
      → can_retry (attempted r c m env task error) ≡ true
      → can_retry (requeued task error) ≡ true
  unfolding can_retry is_terminal
  requeued-can_retry task error h = ground arith

  requeue_saved-quiet :
      Quiet r c m mysql env
      → (reply : UpdateResult × Task) → reply.0 ≡ updated
      → (s : r.Store) (db : m.Db)
      → requeue_saved r c m env reply (s, db)
        ≡ ((nack r c up env.rand (env.now settle_queue) reply.1.queue_name reply.1 s).1, db)
  unfolding requeue_saved
  requeue_saved-quiet quiet reply hit s db =
      rw (hit, requeue_saved)
        (ap (λ x. x.1)
          (on_store-quiet r c m mysql env quiet settle_queue
            (λ link at. nack r c link env.rand at reply.1.queue_name reply.1) s db))

  handle_failure-retry :
      Quiet r c m mysql env
      → (task row : Task) (error : Text) (s : r.Store) (db : m.Db)
      → Current r c m mysql env db task row
      → can_retry (attempted r c m env task error) ≡ true
      → handle_failure r c m env task error (s, db) ≡ (
        (nack r c up env.rand (env.now settle_queue) task.queue_name (requeued task error) s).1,
        (save r c m env
            (retrying_task r c m env (attempted r c m env task error))
            up
            (env.now settle_row)
            db).1,
      )
  unfolding handle_failure
  handle_failure-retry quiet task row error s db current retry =
      let t = retrying_task r c m env (attempted r c m env task error) in
      let (hit, b, found) = save_hit r c m mysql env quiet db (env.now settle_row) t row current in
      rw (retry, handle_failure)
        (ap (λ p. requeue_saved r c m env p.0 p.1)
            (on_db-quiet r c m mysql env quiet settle_row (save r c m env t) s db)
          ∙ requeue_saved-quiet quiet _ hit s _
          ∙ ap
              (λ u. (
                (nack r c up env.rand (env.now settle_queue) u.queue_name u s).1,
                (save r c m env t up (env.now settle_row) db).1,
              ))
              b)

  handle_failure-exhausted :
      Quiet r c m mysql env
      → (task : Task) (error : Text) (s : r.Store) (db : m.Db)
      → can_retry (attempted r c m env task error) ≡ false
      → handle_failure r c m env task error (s, db) ≡ (
        (ack r c up task.queue_name task.id s).1,
        (save r c m env
            (failed_task r c m env (env.now settle_row) (attempted r c m env task error))
            up
            (env.now settle_row)
            db).1,
      )
  unfolding handle_failure
  handle_failure-exhausted quiet task error s db done =
      let t = failed_task r c m env (env.now settle_row) (attempted r c m env task error) in
      rw (done, handle_failure)
        (ap (λ p. drop r c m env task p.1)
            (on_db-quiet r c m mysql env quiet settle_row (save r c m env t) s db)
          ∙ drop-quiet r c m mysql env quiet task s _)

  -- When the row is current, handleFailure counts the attempt. A task with attempts left is recorded
  -- as retrying, released, and, if it marshals, put in the delayed set when it has a backoff and in
  -- the ready set when it has none.
  pub retry_outcome :
      Quiet r c m mysql env
      → (s : r.Store) (db : m.Db) (task row : Task) (error d : Text)
      → Current r c m mysql env db task row
      → can_retry (attempted r c m env task error) ≡ true
      → c.marshal (requeued task error) ≡ some d
      → let (s', db') = handle_failure r c m env task error (s, db) in
        ((row' : Task) × (m.find_task db' task.id ≡ some row')
          × (row'.state ≡ retrying)
          × (row'.retry_count ≡ task.retry_count + 1)
          × (row'.version ≡ task.version + 1))
        × Released r c s' task.queue_name task.id
        × (ltb_ℤ (pos 0) task.retry_backoff ≡ true
            → r.zscore s' (delayed_key_for task.queue_name) d
              ≡ some (
                  unix_milli (
                    pos (env.now settle_queue)
                    +ℤ compute_retry_backoff env.rand task.retry_backoff (task.retry_count + 1))))
        × (ltb_ℤ (pos 0) task.retry_backoff ≡ false
            → r.zscore s' (ready_key_for task.queue_name) d ≡ some (neg task.priority))
  retry_outcome quiet s db task row error d current retry mar =
      let now = env.now settle_row in
      let t = retrying_task r c m env (attempted r c m env task error) in
      let (hit, b, found) = save_hit r c m mysql env quiet db now t row current in
      let attempts = requeued-can_retry task error retry in
      let (reply, released, placed) =
        nack_outcome r c s env.rand (env.now settle_queue) task.queue_name (requeued task error) d
          mar in
      rw (handle_failure-retry quiet task row error s db current retry) (
        (merge row (bumped m mysql now t) now, found, refl, ground arith, ground arith),
        released,
        placed.0 attempts,
        placed.1 attempts,
      )

  -- When the row is current, a task without attempts left is recorded as failed and released, and no
  -- queue changes; in Redis it is counted as completed, not as failed.
  pub exhausted_outcome :
      Quiet r c m mysql env
      → (s : r.Store) (db : m.Db) (task row : Task) (error : Text)
      → Current r c m mysql env db task row
      → can_retry (attempted r c m env task error) ≡ false
      → let (s', db') = handle_failure r c m env task error (s, db) in
        ((row' : Task) × (m.find_task db' task.id ≡ some row')
          × (row'.state ≡ failed)
          × (row'.retry_count ≡ task.retry_count + 1)
          × (row'.version ≡ task.version + 1))
        × Released r c s' task.queue_name task.id
        × (counter r c s' task.queue_name (codes "completed")
            ≡ counter r c s task.queue_name (codes "completed") + 1)
        × (counter r c s' task.queue_name (codes "failed")
            ≡ counter r c s task.queue_name (codes "failed"))
        × SameQueues r c s s'
  exhausted_outcome quiet s db task row error current done =
      let now = env.now settle_row in
      let t = failed_task r c m env now (attempted r c m env task error) in
      let (hit, b, found) = save_hit r c m mysql env quiet db now t row current in
      let (reply, released, count, rest, same_queues) = ack_outcome r c s task.queue_name task.id in
      rw (handle_failure-exhausted quiet task error s db done) (
        (merge row (bumped m mysql now t) now, found, refl, ground arith, ground arith),
        released,
        count,
        ack-failed r c s task.queue_name task.id,
        same_queues,
      )
