-- ===== src/Scheduler/App/Triggering.antt =====
-- TriggerDueCronJobs as a sequence of the Redis calls that it makes.
use dispatchhub.Prelude.{ℕ, Text, Bool, true, false, Option, none, some, List, [], ◌∷◌}
use dispatchhub.Entity.{Task, CronJob, ConcurrencyPolicy, allow, forbid}
use dispatchhub.Redis.{Redis}
use dispatchhub.Redis.Call.{Link, Reply}
use dispatchhub.Broker.Codec.{Codec}
use dispatchhub.Mysql.Interface.{Mysql}
use dispatchhub.Scheduler.Cron.{
  Turn, Trigger, trigger_one, at_times, by_policy, after_running, claim_and_create, after_claim,
  after_create,
}
use dispatchhub.Scheduler.Cron.Due.{trigger_due_cron_jobs, after_query, trigger_loop, after_trigger}
use dispatchhub.Scheduler.App.Steps.{Sequence, done, Sequence-trans, one, triggered}

module _ (r : Redis) (c : Codec) (m : Mysql) (next_run : Text → ℕ → Option ℕ) where
  -- What a turn comes to, with the sequence that it makes of the store.
  abbrev After : r.Store → Trigger × r.Store × m.Db → Type 0
  After s p = Sequence r c m next_run s p.1

  after_create-Sequence :
      (turn : Turn) (created : Bool) (t : Task) (s : r.Store) (db : m.Db)
      → After s (after_create r c m next_run turn created t s db)
  unfolding after_create
  after_create-Sequence turn false t s db = done s
  after_create-Sequence turn true t s db = one r c m next_run (triggered turn.push t s)

  after_claim-Sequence :
      (turn : Turn) (job : CronJob) (claimed : Reply Bool) (s : r.Store) (db : m.Db)
      → After s (after_claim r c m next_run turn job claimed s db)
  unfolding after_claim
  after_claim-Sequence turn job Reply.err s db = done s
  after_claim-Sequence turn job (Reply.ok false) s db = done s
  after_claim-Sequence turn job (Reply.ok true) s db = after_create-Sequence turn _ _ s _

  after_running-Sequence :
      (turn : Turn) (job : CronJob) (expected next : ℕ) (running : Reply Bool) (s : r.Store)
      (db : m.Db)
      → After s (after_running r c m next_run turn job expected next running s db)
  unfolding after_running claim_and_create
  after_running-Sequence turn job expected next Reply.err s db = done s
  after_running-Sequence turn job expected next (Reply.ok true) s db = done s
  after_running-Sequence turn job expected next (Reply.ok false) s db =
      after_claim-Sequence turn job _ s _

  by_policy-Sequence :
      (turn : Turn) (job : CronJob) (expected next : ℕ) (policy : ConcurrencyPolicy) (s : r.Store)
      (db : m.Db)
      → After s (by_policy r c m next_run turn job expected next policy s db)
  unfolding by_policy claim_and_create
  by_policy-Sequence turn job expected next allow s db = after_claim-Sequence turn job _ s _
  by_policy-Sequence turn job expected next forbid s db =
      after_running-Sequence turn job expected next _ s _

  at_times-Sequence :
      (turn : Turn) (job : CronJob) (next expected : Option ℕ) (s : r.Store) (db : m.Db)
      → After s (at_times r c m next_run turn job next expected s db)
  unfolding at_times
  at_times-Sequence turn job none expected s db = done s
  at_times-Sequence turn job (some next) none s db = done s
  at_times-Sequence turn job (some next) (some expected) s db =
      by_policy-Sequence turn job expected next job.concurrency_policy s db

  abbrev next_job :
      (Text → Turn)
      → List CronJob
      → Option (ℕ × Bool)
      → r.Store
      → m.Db
      → Option (ℕ × Bool × r.Store × m.Db)
  next_job turns jobs o s db = elim o [
    | none ↦ none
    | some p ↦ trigger_loop r c m next_run turns p.0 p.1 jobs s db
  ]

  -- The store that the loop comes to, if it comes to its end.
  abbrev pub Comes : r.Store → Option (ℕ × Bool × r.Store × m.Db) → Type 0
  Comes s none = Unit
  Comes s (some p) = Sequence r c m next_run s p.2

  Comes-trans :
      {s s' : r.Store} (o : Option (ℕ × Bool × r.Store × m.Db))
      → Sequence r c m next_run s s'
      → Comes s' o
      → Comes s o
  Comes-trans none p q = tt
  Comes-trans (some x) p q = Sequence-trans r c m next_run p q

  next_job-Comes :
      (turns : Text → Turn) (jobs : List CronJob) (o : Option (ℕ × Bool)) (s : r.Store) (db : m.Db)
      → ((n : ℕ) (failed : Bool) → Comes s (trigger_loop r c m next_run turns n failed jobs s db))
      → Comes s (next_job turns jobs o s db)
  next_job-Comes turns jobs none s db rest = tt
  next_job-Comes turns jobs (some (n, failed)) s db rest = rest n failed

  trigger_loop-Comes :
      (turns : Text → Turn) (n : ℕ) (failed : Bool) (jobs : List CronJob) (s : r.Store) (db : m.Db)
      → Comes s (trigger_loop r c m next_run turns n failed jobs s db)
  unfolding trigger_loop trigger_one
  trigger_loop-Comes turns n failed [] s db = done s
  trigger_loop-Comes turns n failed (job ∷ jobs) s db =
      let (o, s', db') = trigger_one r c m next_run (turns job.id) job s db in
      let turn = turns job.id in
      Comes-trans (next_job turns jobs (after_trigger o n failed) s' db')
        (at_times-Sequence turn job (next_run job.cron_expr turn.now) job.next_run_at s db)
        (next_job-Comes turns jobs (after_trigger o n failed) s' db'
          (λ k f. trigger_loop-Comes turns k f jobs s' db'))

  after_query-Comes :
      (turns : Text → Turn) (reply : Reply (List CronJob)) (s : r.Store) (db : m.Db)
      → Comes s (after_query r c m next_run turns reply s db)
  unfolding after_query
  after_query-Comes turns Reply.err s db = done s
  after_query-Comes turns (Reply.ok jobs) s db = trigger_loop-Comes turns 0 false jobs s db

  pub trigger_due-Comes :
      (link : Link) (turns : Text → Turn) (now limit : ℕ) (s : r.Store) (db : m.Db)
      → Comes s (trigger_due_cron_jobs r c m next_run link turns now limit s db)
  unfolding trigger_due_cron_jobs
  trigger_due-Comes link turns now limit s db = after_query-Comes turns _ s _
