-- ===== src/Scheduler/App/Steps.antt =====
-- The ticks of the loops as steps, and each tick as a sequence of the Redis calls that it makes.
use dispatchhub.Prelude.{
  subst, ℕ, ◌+◌, ◌≡◌, refl, sym, Text, Bool, true, false, Option, none, some, List, [], ◌∷◌,
}
use dispatchhub.Prelude.Int.{ℤ}
use dispatchhub.Entity.{Task}
use dispatchhub.Entity.Worker.{WorkerEvent}
use dispatchhub.Redis.{Redis}
use dispatchhub.Redis.Call.{Link, Reply}
use dispatchhub.Broker.Codec.{Codec}
use dispatchhub.Broker.Reply.{BrokerError, Result, ok, err}
use dispatchhub.Broker.Queue.{enqueue}
use dispatchhub.Broker.Maintain.{promote_delayed, reclaim_inflight, enqueue_if_not_inflight}
use dispatchhub.Mysql.Interface.{Mysql}
use dispatchhub.Scheduler.Cron.{Turn}
use dispatchhub.Scheduler.Maintenance.{
  MaintenanceError, Calls, QueueCalls, after_find, compensate_loop, after_enqueue, reclaim_queues,
}
use dispatchhub.Scheduler.App.{
  SchedulerAppConfig, PromoteCalls, App, promote_queues, promote_tick, health_tick, compensate_tick,
  cron_tick, cleanup_tick, reclaim_tick, event_received,
}

module _ (r : Redis) (c : Codec) (m : Mysql) (next_run : Text → ℕ → Option ℕ) where
  -- A tick of one of the loops.
  pub data Tick (cfg : SchedulerAppConfig) : App r c m next_run → App r c m next_run → Type 0 where
    promote :
        (calls : PromoteCalls) (a : App r c m next_run)
        → Tick cfg a (promote_tick r c m next_run calls a)
    health : (now : ℕ) (a : App r c m next_run) → Tick cfg a (health_tick r c m next_run cfg now a)
    compensate :
        (link : Link) (calls : Calls) (now : ℕ) (a : App r c m next_run)
        → Tick cfg a (compensate_tick r c m next_run cfg link calls now a)
    cron :
        (link : Link) (turns : Text → Turn) (now : ℕ) (a b : App r c m next_run)
        → cron_tick r c m next_run cfg link turns now a ≡ some b
        → Tick cfg a b
    cleanup :
        (link : Link) (now : ℕ) (a : App r c m next_run)
        → Tick cfg a (cleanup_tick r c m next_run cfg link now a)
    reclaim :
        (calls : QueueCalls) (a : App r c m next_run)
        → Tick cfg a (reclaim_tick r c m next_run cfg calls a)
    watch :
        (event : WorkerEvent) (a : App r c m next_run)
        → Tick cfg a (event_received r c m next_run event a)

  -- One call of the scheduler that writes to Redis, however it ends.
  pub data Call : r.Store → r.Store → Type 0 where
    promoted :
        (link : Link) (now : ℕ) (queue : Text) (s : r.Store)
        → Call s (promote_delayed r c link now queue 100 s).1
    reclaimed :
        (link : Link) (now : ℕ) (queue : Text) (batch_size : ℤ) (s : r.Store)
        → Call s (reclaim_inflight r c link now queue batch_size s).1
    compensated :
        (link : Link) (t : Task) (s : r.Store)
        → Call s (enqueue_if_not_inflight r c link t.queue_name t s).1
    triggered :
        (link : Link) (t : Task) (s : r.Store) → Call s (enqueue r c link t.queue_name t s).1

  -- Some calls, one after the other. Loops that run at the same time make such a sequence, too, since
  -- Redis executes one call at a time.
  pub data Sequence : r.Store → r.Store → Type 0 where
    done : (s : r.Store) → Sequence s s
    then_call : {s s' s'' : r.Store} → Call s s' → Sequence s' s'' → Sequence s s''

  pub Sequence-trans : {s s' s'' : r.Store} → Sequence s s' → Sequence s' s'' → Sequence s s''
  Sequence-trans (done s) q = q
  Sequence-trans (then_call x p) q = then_call x (Sequence-trans p q)

  pub one : {s s' : r.Store} → Call s s' → Sequence s s'
  one x = then_call x (done _)

  pub promote_queues-Sequence :
      (calls : PromoteCalls) (qs : List Text) (s : r.Store)
      → Sequence s (promote_queues r c m next_run calls qs s)
  unfolding promote_queues
  promote_queues-Sequence calls [] s = done s
  promote_queues-Sequence calls (q ∷ qs) s =
      then_call (promoted (calls.promote q) (calls.now q) q s) (promote_queues-Sequence calls qs _)

  abbrev next_queue :
      QueueCalls
      → ℤ
      → ℕ
      → Option BrokerError
      → List Text
      → Result ℕ
      → r.Store
      → ℕ × Option BrokerError × r.Store
  next_queue calls batch_size total last_err qs result s = elim result [
    | err e ↦ reclaim_queues r c m calls batch_size total (some e) qs s
    | ok n ↦ reclaim_queues r c m calls batch_size (total + n) last_err qs s
  ]

  next_queue-Sequence :
      (calls : QueueCalls) (batch_size : ℤ) (total : ℕ) (last_err : Option BrokerError)
      (qs : List Text) (result : Result ℕ) (s : r.Store)
      → ((total : ℕ) (last_err : Option BrokerError)
          → Sequence s (reclaim_queues r c m calls batch_size total last_err qs s).2)
      → Sequence s (next_queue calls batch_size total last_err qs result s).2
  next_queue-Sequence calls batch_size total last_err qs (err e) s rest = rest total (some e)
  next_queue-Sequence calls batch_size total last_err qs (ok n) s rest = rest (total + n) last_err

  pub reclaim_queues-Sequence :
      (calls : QueueCalls) (batch_size : ℤ) (total : ℕ) (last_err : Option BrokerError)
      (qs : List Text) (s : r.Store)
      → Sequence s (reclaim_queues r c m calls batch_size total last_err qs s).2
  unfolding reclaim_queues
  reclaim_queues-Sequence calls batch_size total last_err [] s = done s
  reclaim_queues-Sequence calls batch_size total last_err (q ∷ qs) s =
      let (result, s') = reclaim_inflight r c (calls.reclaim q) (calls.now q) q batch_size s in
      then_call (reclaimed (calls.reclaim q) (calls.now q) q batch_size s) (
        next_queue-Sequence calls batch_size total last_err qs result s'
          (λ k e. reclaim_queues-Sequence calls batch_size k e qs s'))

  after_enqueue-store :
      (calls : Calls) (n : ℕ) (t : Task) (db : m.Db) (p : Result Bool × r.Store)
      → (after_enqueue r c m calls n t db p).2 ≡ p.1
  unfolding after_enqueue
  after_enqueue-store calls n t db (err e, s) = refl
  after_enqueue-store calls n t db (ok false, s) = refl
  after_enqueue-store calls n t db (ok true, s) = refl

  -- An error stops the loop.
  abbrev next_task :
      Calls
      → ℕ
      → List Task
      → Option MaintenanceError
      → r.Store
      → m.Db
      → ℕ × Option MaintenanceError × r.Store × m.Db
  next_task calls n ts stop s db = elim stop [
    | none ↦ compensate_loop r c m calls n ts s db
    | some e ↦ (n, some e, s, db)
  ]

  next_task-Sequence :
      (calls : Calls) (n : ℕ) (ts : List Task) (stop : Option MaintenanceError) (s : r.Store)
      (db : m.Db)
      → Sequence s (compensate_loop r c m calls n ts s db).2
      → Sequence s (next_task calls n ts stop s db).2
  next_task-Sequence calls n ts none s db rest = rest
  next_task-Sequence calls n ts (some e) s db rest = done s

  compensate_loop-Sequence :
      (calls : Calls) (n : ℕ) (ts : List Task) (s : r.Store) (db : m.Db)
      → Sequence s (compensate_loop r c m calls n ts s db).2
  unfolding compensate_loop
  compensate_loop-Sequence calls n [] s db = done s
  compensate_loop-Sequence calls n (t ∷ ts) s db =
      let p = enqueue_if_not_inflight r c (calls.push t.id) t.queue_name t s in
      let (n', stop, s', db') = after_enqueue r c m calls n t db p in
      let first : Sequence s s' =
        subst (Sequence s) (sym (after_enqueue-store calls n t db p))
          (one (compensated (calls.push t.id) t s)) in
      Sequence-trans first
        (next_task-Sequence calls n' ts stop s' db' (compensate_loop-Sequence calls n' ts s' db'))

  pub after_find-Sequence :
      (calls : Calls) (reply : Reply (List Task)) (s : r.Store) (db : m.Db)
      → Sequence s (after_find r c m calls reply s db).2
  unfolding after_find
  after_find-Sequence calls Reply.err s db = done s
  after_find-Sequence calls (Reply.ok tasks) s db = compensate_loop-Sequence calls 0 tasks s db
