-- ===== src/Api/Service/Submit.antt =====
-- What a submission leaves behind.
use dispatchhub.Prelude.{
  ℕ, zero, suc, ◌+◌, ◌/◌, ◌==◌, is_empty, codes, ◌≡◌, ◌≢◌, if◌then◌else◌, refl, ap, ◌∙◌, Text, Bool,
  true, false, Option, none, some, same, same_refl, arith,
}
use dispatchhub.Prelude.Int.{◌+ℤ◌, ℤ, pos, negsuc, neg, is_zero}
use dispatchhub.Entity.{Task}
use dispatchhub.Entity.State.{pending}
use dispatchhub.Redis.{Redis, IsRedis}
use dispatchhub.Redis.Laws.{redis_laws}
use dispatchhub.Redis.Call.{up, run_script, run_pipeline}
use dispatchhub.Broker.Codec.{Codec}
use dispatchhub.Broker.Reply.{unix_milli}
use dispatchhub.Broker.Keys.{ready_key_for, delayed_key_for}
use dispatchhub.Broker.Keys.Apart.{keys}
use dispatchhub.Broker.Queue.{enqueue, enqueue_with_cap, enqueue_delayed, execute_at}
use dispatchhub.Mysql.Interface.{Mysql, IsMysql}
use dispatchhub.Mysql.Tasks.{create, with_version, inserted, create_result}
use dispatchhub.Api.Service.{
  ServiceError, Request, Hooks, fill_in, refusal, is_deferred, push_task, after_insert,
  unless_refused, submit_task,
}

ruleset store_rules = (redis_laws, keys, same_refl)

module _ (r : Redis) (c : Codec) (m : Mysql) where
  inserted_store :
      (request : Request) (p : Bool × Task × m.Db) (s : r.Store)
      → (after_insert r c m request p s).0 ≢ none
      → (after_insert r c m request p s).2 ≡ s
  unfolding after_insert
  inserted_store request (true, t, db) s h = absurd (h refl)
  inserted_store request (false, t, db) s h = refl

  refused_store :
      (request : Request) (o : Option ServiceError) (t : Task) (s : r.Store) (db : m.Db)
      → (unless_refused r c m request o t s db).0 ≢ none
      → (unless_refused r c m request o t s db).2 ≡ s
  unfolding unless_refused
  refused_store request (some e) t s db h = refl
  refused_store request none t s db h = inserted_store request (create m request.insert t db) s h

  -- Whatever goes wrong, a submission that returns an error has put nothing into Redis.
  pub submit_error_safe :
      (request : Request) (hooks : Hooks) (task : Task) (s : r.Store) (db : m.Db)
      → (submit_task r c m request hooks task s db).0 ≢ none
      → (submit_task r c m request hooks task s db).2 ≡ s
  unfolding submit_task
  submit_error_safe request hooks task s db h =
      refused_store request (refusal hooks (fill_in request task)) (fill_in request task) s db h

  -- The task as it is stored.
  abbrev pub submitted : Request → Task → Task
  submitted request task = with_version m (fill_in request task)

  create_taken_in :
      (mysql : IsMysql m) (t : Task) (db db' : m.Db)
      → m.insert_task db t ≡ some db'
      → (create m up t db ≡ (true, with_version m t, db'))
        × ((j : Text)
            → m.find_task db' j
              ≡ (if same t.id j then some (with_version m t) else m.find_task db j))
  unfolding create run_script
  create_taken_in mysql t db db' ins =
      (ap (λ o. create_result m t (inserted m db o)) ins, λ j. mysql.find-insert db t db' j ins)

  -- A submission that nothing refuses comes down to the insertion and the call of Redis.
  pub submit_fresh :
      (mysql : IsMysql m) (request : Request) (hooks : Hooks) (task : Task) (s : r.Store)
      (db db' : m.Db)
      → request.insert ≡ up
      → refusal hooks (fill_in request task) ≡ none
      → m.insert_task db (fill_in request task) ≡ some db'
      → (submit_task r c m request hooks task s db
          ≡ (none, submitted request task, push_task r c m request (submitted request task) s, db'))
        × ((j : Text)
            → m.find_task db' j ≡ (
                if same (fill_in request task).id j
                then some (submitted request task)
                else m.find_task db j))
  unfolding submit_task unless_refused after_insert
  submit_fresh mysql request hooks task s db db' reach pass taken =
      let t = fill_in request task in
      let (run, found) = create_taken_in mysql t db db' taken in
      (
        ap (λ o. unless_refused r c m request o t s db) pass
            ∙ ap (λ l. after_insert r c m request (create m l t db) s) reach
            ∙ ap (λ p. after_insert r c m request p s) run,
        found,
      )

  -- With MySQL in reach, a task that nothing refuses and whose row MySQL takes is stored, whatever
  -- becomes of the call of Redis, and SubmitTask returns no error: its state is pending, both its times
  -- are now, a missing id is the new one, and an empty queue is "default", a priority of zero 5,
  -- retries of zero 3, a timeout of zero five minutes and a version of zero 1. No other field and no
  -- other row changes.
  pub submit_stored :
      (mysql : IsMysql m) (request : Request) (hooks : Hooks) (task : Task) (s : r.Store)
      (db row_in : m.Db)
      → request.insert ≡ up
      → refusal hooks (fill_in request task) ≡ none
      → m.insert_task db (fill_in request task) ≡ some row_in
      → let (error, t, s', db') = submit_task r c m request hooks task s db in
        (error ≡ none)
        × (t ≡ record task {
          id = if is_empty task.id then request.uuid else task.id;
          queue_name = if is_empty task.queue_name then codes "default" else task.queue_name;
          priority = if is_zero task.priority then pos 5 else task.priority;
          max_retries = if is_zero task.max_retries then pos 3 else task.max_retries;
          timeout_after =
              if is_zero task.timeout_after then pos 300000000000 else task.timeout_after;
          state = pending;
          created_at = request.now;
          updated_at = request.now;
          version = if task.version == 0 then 1 else task.version;
        })
        × (m.find_task db' t.id ≡ some t)
        × (t.state ≡ pending)
        × ((j : Text) → same t.id j ≡ false → m.find_task db' j ≡ m.find_task db j)
  unfolding fill_in
  submit_stored mysql request hooks task s db row_in reach pass taken =
      let (run, found) = submit_fresh mysql request hooks task s db row_in reach pass taken in
      let t = submitted request task in
      rw run (refl, refl, found t.id ∙ rw (same_refl t.id) refl, refl, λ j ne. found j ∙ rw ne refl)

  module _ ⦃redis : IsRedis r⦄ where
    enqueue_delayed-zscore :
        (now : ℕ) (t : Task) (d : Text) (s : r.Store)
        → c.marshal t ≡ some d
        → r.zscore (enqueue_delayed r c up now t.queue_name t s).1 (delayed_key_for t.queue_name) d
          ≡ some (execute_at r c now t)
    unfolding enqueue_delayed run_pipeline
    enqueue_delayed-zscore now t d s mar = rw (mar, enqueue_delayed) (simp store_rules)

    enqueue-zscore :
        (t : Task) (d : Text) (s : r.Store)
        → c.marshal t ≡ some d
        → r.zscore (enqueue r c up t.queue_name t s).1 (ready_key_for t.queue_name) d
          ≡ some (neg t.priority)
    unfolding enqueue enqueue_with_cap
    enqueue-zscore t d s mar = rw (mar, enqueue_with_cap) (simp store_rules)

    -- Where a task waits for its turn, and with which score: at its time in milliseconds if it has one,
    -- after its delay if that is positive, else with its priority among the ready.
    abbrev pub Waits : Option ℕ → ℤ → ℕ → Text → ℤ → Text → r.Store → Type 0
    Waits (some at) delay now queue priority d s =
        r.zscore s (delayed_key_for queue) d ≡ some (pos (at / 1000000))
    Waits none (pos (suc n)) now queue priority d s =
        r.zscore s (delayed_key_for queue) d ≡ some (pos ((now + suc n) / 1000000))
    Waits none (pos zero) now queue priority d s =
        r.zscore s (ready_key_for queue) d ≡ some (neg priority)
    Waits none (negsuc n) now queue priority d s =
        r.zscore s (ready_key_for queue) d ≡ some (neg priority)

    push_task-delayed :
        (request : Request) (t : Task) (d : Text) (s : r.Store)
        → request.push ≡ up
        → c.marshal t ≡ some d
        → is_deferred r c m t ≡ true
        → r.zscore (push_task r c m request t s) (delayed_key_for t.queue_name) d
          ≡ some (execute_at r c request.now t)
    unfolding push_task
    push_task-delayed request t d s reach mar deferred =
        rw (deferred, reach) (enqueue_delayed-zscore request.now t d s mar)

    push_task-ready :
        (request : Request) (t : Task) (d : Text) (s : r.Store)
        → request.push ≡ up
        → c.marshal t ≡ some d
        → is_deferred r c m t ≡ false
        → r.zscore (push_task r c m request t s) (ready_key_for t.queue_name) d
          ≡ some (neg t.priority)
    unfolding push_task
    push_task-ready request t d s reach mar ready = rw (ready, reach) (enqueue-zscore t d s mar)

    push_task-Waits :
        (request : Request) (t : Task) (at : Option ℕ) (delay : ℤ) (d : Text) (s : r.Store)
        → request.push ≡ up
        → c.marshal t ≡ some d
        → t.schedule_at ≡ at
        → t.delay ≡ delay
        → Waits at delay request.now t.queue_name t.priority d (push_task r c m request t s)
    unfolding is_deferred
    push_task-Waits request t (some at) delay d s reach mar e f =
        push_task-delayed request t d s reach mar (rw e refl) ∙ ap some (rw e refl)
    push_task-Waits request t none (pos (suc n)) d s reach mar e f =
        push_task-delayed request t d s reach mar (rw (e, f) (ground arith))
        ∙ ap some (rw (e, f) (ap unix_milli (later request.now (suc n))))
      where
        later : (a b : ℕ) → pos a +ℤ pos b ≡ pos (a + b)
        later a b = ground arith
    push_task-Waits request t none (pos zero) d s reach mar e f =
        push_task-ready request t d s reach mar (rw (e, f) refl)
    push_task-Waits request t none (negsuc n) d s reach mar e f =
        push_task-ready request t d s reach mar (rw (e, f) (ground arith))

    -- Where a task waits that MySQL takes, with both servers in reach, when it marshals: in the delayed
    -- set of its queue, scored by its time, or by now and its delay when it has no time and a positive
    -- delay, in milliseconds; else in the ready set, scored by its negated priority.
    pub submit_queued :
        (mysql : IsMysql m) (request : Request) (hooks : Hooks) (task : Task) (d : Text)
        (s : r.Store) (db row_in : m.Db)
        → request.insert ≡ up
        → request.push ≡ up
        → refusal hooks (fill_in request task) ≡ none
        → m.insert_task db (fill_in request task) ≡ some row_in
        → c.marshal (submitted request task) ≡ some d
        → let (error, t, s', db') = submit_task r c m request hooks task s db in
          Waits task.schedule_at task.delay request.now t.queue_name t.priority d s'
    unfolding fill_in
    submit_queued mysql request hooks task d s db row_in reach reach' pass taken mar =
        let (run, found) = submit_fresh mysql request hooks task s db row_in reach pass taken in
        rw run (
          push_task-Waits request (submitted request task) task.schedule_at task.delay d s reach'
            mar refl refl)
