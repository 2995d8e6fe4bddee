-- ===== src/Scheduler/Cron.antt =====
-- One turn of the loop of `TriggerDueCronJobs`, for a job that `FindDueCronJobs` returned, and
-- `ClaimCronJob` of internal/shared/infrastructure/persistence/mysql/cronjob_repository.go.
-- `next_run` stands for cronutil.NextRunTime.
pub mod Once
pub mod Twice
pub mod Due
use dispatchhub.Prelude.{ℕ, Text, Bool, true, false, Option, none, some, ◌==◌}
use dispatchhub.Entity.{Task, CronJob, ConcurrencyPolicy, allow, forbid, to_task}
use dispatchhub.Entity.State.{pending}
use dispatchhub.Redis.{Redis}
use dispatchhub.Redis.Call.{Link, Reply, run_script}
use dispatchhub.Broker.Codec.{Codec}
use dispatchhub.Broker.Reply.{Result, ok, err}
use dispatchhub.Broker.Queue.{enqueue}
use dispatchhub.Mysql.Interface.{Mysql}
use dispatchhub.Mysql.Tasks.{create, has_running_tasks}

-- The links of the calls of one turn, the time, and the new task's id.
pub record Turn : Type 0 where
  pub ask : Link
  pub claim : Link
  pub insert : Link
  pub push : Link
  pub now : ℕ
  pub uuid : Text

-- Triggered; passed over without an error; an error that becomes `lastErr`; a nil NextRunAt.
pub data Trigger : Type 0 where
  triggered skipped errored panicked : Trigger

module _ (r : Redis) (c : Codec) (m : Mysql) (next_run : Text → ℕ → Option ℕ) where
  unfoldable pub claim_cron_job : Link → Text → ℕ → ℕ → ℕ → m.Db → Reply Bool × m.Db
  unfolding run_script
  claim_cron_job link id expected last next db =
      run_script link
        (λ d. let (rows, d') = m.claim_cron d id expected last next in (Reply.ok (rows == 1), d'))
        db

  abbrev new_task : Turn → CronJob → Task
  new_task turn job = record (to_task job) {
    id = turn.uuid;
    state = pending;
    created_at = turn.now;
    updated_at = turn.now;
  }

  abbrev outcome_of : Result (Unit {0}) → Trigger
  outcome_of (ok u) = triggered
  outcome_of (err e) = errored

  -- The task is enqueued as Create has left it; an error leaves what was written.
  unfoldable pub after_create : Turn → Bool → Task → r.Store → m.Db → Trigger × r.Store × m.Db
  after_create turn false task s db = (errored, s, db)
  after_create turn true task s db =
      let (result, s') = enqueue r c turn.push task.queue_name task s in (outcome_of result, s', db)

  unfoldable pub after_claim :
      Turn → CronJob → Reply Bool → r.Store → m.Db → Trigger × r.Store × m.Db
  unfolding after_create to_task
  after_claim turn job Reply.err s db = (errored, s, db)
  after_claim turn job (Reply.ok false) s db = (skipped, s, db)
  after_claim turn job (Reply.ok true) s db =
      let (created, task, db') = create m turn.insert (new_task turn job) db in
      after_create turn created task s db'

  unfoldable pub claim_and_create :
      Turn → CronJob → ℕ → ℕ → r.Store → m.Db → Trigger × r.Store × m.Db
  unfolding after_claim
  claim_and_create turn job expected next s db =
      let (claimed, db') = claim_cron_job turn.claim job.id expected turn.now next db in
      after_claim turn job claimed s db'

  abbrev skip_unless : Reply Bool → Trigger
  skip_unless Reply.err = errored
  skip_unless (Reply.ok claimed) = skipped

  -- Under the policy Forbid a job that still runs is claimed, so that its time advances, and skipped.
  unfoldable pub after_running :
      Turn → CronJob → ℕ → ℕ → Reply Bool → r.Store → m.Db → Trigger × r.Store × m.Db
  unfolding claim_and_create
  after_running turn job expected next Reply.err s db = (errored, s, db)
  after_running turn job expected next (Reply.ok true) s db =
      let (claimed, db') = claim_cron_job turn.claim job.id expected turn.now next db in
      (skip_unless claimed, s, db')
  after_running turn job expected next (Reply.ok false) s db =
      claim_and_create turn job expected next s db

  unfoldable pub by_policy :
      Turn → CronJob → ℕ → ℕ → ConcurrencyPolicy → r.Store → m.Db → Trigger × r.Store × m.Db
  unfolding after_running
  by_policy turn job expected next allow s db = claim_and_create turn job expected next s db
  by_policy turn job expected next forbid s db =
      let (running, db') = has_running_tasks m turn.ask job.type job.namespace db in
      after_running turn job expected next running s db'

  unfoldable pub at_times :
      Turn → CronJob → Option ℕ → Option ℕ → r.Store → m.Db → Trigger × r.Store × m.Db
  unfolding by_policy
  at_times turn job none expected s db = (errored, s, db)
  at_times turn job (some next) none s db = (panicked, s, db)
  at_times turn job (some next) (some expected) s db =
      by_policy turn job expected next job.concurrency_policy s db

  unfoldable pub trigger_one : Turn → CronJob → r.Store → m.Db → Trigger × r.Store × m.Db
  unfolding at_times
  trigger_one turn job s db =
      at_times turn job (next_run job.cron_expr turn.now) job.next_run_at s db
