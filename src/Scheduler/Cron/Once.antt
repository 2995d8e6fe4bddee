-- ===== src/Scheduler/Cron/Once.antt =====
-- A run of a cron job is triggered once, however many schedulers have read it as due.
use dispatchhub.Prelude.{
  ℕ, zero, suc, ◌≡◌, ◌≢◌, refl, ◌∙◌, Text, Bool, true, false, Option, none, some, ==_iff, arith,
  Option-cases, inl, inr,
}
use dispatchhub.Entity.{CronJob, ConcurrencyPolicy, allow, forbid}
use dispatchhub.Redis.{Redis}
use dispatchhub.Redis.Call.{Link, up, cut, Reply, run_script}
use dispatchhub.Broker.Codec.{Codec}
use dispatchhub.Mysql.Interface.{Mysql, IsMysql, matches_next_run}
use dispatchhub.Mysql.Tasks.{has_running_tasks}
use dispatchhub.Scheduler.Cron.{
  Turn, Trigger, triggered, claim_cron_job, after_claim, claim_and_create, after_running, by_policy,
  at_times, trigger_one, skip_unless,
}

module _ (r : Redis) (c : Codec) (m : Mysql) (mysql : IsMysql m)
    (next_run : Text → ℕ → Option ℕ) where
  -- Nothing is triggered: no task is created or enqueued.
  abbrev pub Untouched : r.Store → m.Db → Trigger × r.Store × m.Db → Type 0
  Untouched s db (o, s', db') =
      (o ≢ triggered) × (s' ≡ s) × ((id : Text) → m.find_task db' id ≡ m.find_task db id)

  -- The row's next run is no longer the expected one.
  abbrev pub Moved : m.Db → CronJob → ℕ → Type 0
  Moved db job expected =
      (row : CronJob) × (m.find_cron db job.id ≡ some row) × (row.next_run_at ≢ some expected)

  missed :
      (expected : ℕ) (row : CronJob)
      → row.next_run_at ≢ some expected
      → matches_next_run expected (some row) ≡ 0
  missed expected row ne = elim (Option-cases row.next_run_at) [
    | inl e ↦ ground (arith, e)
    | inr (n, e) ↦ ground (arith, e, ==_iff n expected)
  ]

  claim-Moved :
      (link : Link) (db : m.Db) (job : CronJob) (expected last next : ℕ)
      → Moved db job expected
      → let (reply, db') = claim_cron_job r c m next_run link job.id expected last next db in
        (reply ≢ Reply.ok true) × ((id : Text) → m.find_task db' id ≡ m.find_task db id)
  unfolding claim_cron_job run_script
  claim-Moved up db job expected last next (row, e, ne) =
      let found : m.find_cron db job.id ≡ some row = e in
      let none_hit = missed expected row ne in
      (
        (λ h. ground (arith, mysql.rows-claim db job.id expected last next, none_hit)),
        λ id. mysql.find-claim db job.id expected last next id,
      )
  claim-Moved (cut zero) db job expected last next moved = ((λ h. cc h), λ id. refl)
  claim-Moved (cut (suc n)) db job expected last next moved =
      ((λ h. cc h), λ id. mysql.find-claim db job.id expected last next id)

  after_claim-Untouched :
      (turn : Turn) (job : CronJob) (claimed : Reply Bool) (s : r.Store) (db : m.Db)
      → claimed ≢ Reply.ok true
      → Untouched s db (after_claim r c m next_run turn job claimed s db)
  unfolding after_claim
  after_claim-Untouched turn job Reply.err s db h = ((λ e. cc e), refl, λ id. refl)
  after_claim-Untouched turn job (Reply.ok false) s db h = ((λ e. cc e), refl, λ id. refl)
  after_claim-Untouched turn job (Reply.ok true) s db h = absurd (h refl)

  claim_and_create-Untouched :
      (turn : Turn) (job : CronJob) (expected next : ℕ) (s : r.Store) (db : m.Db)
      → Moved db job expected
      → Untouched s db (claim_and_create r c m next_run turn job expected next s db)
  unfolding claim_and_create
  claim_and_create-Untouched turn job expected next s db moved =
      let (ne, keep) = claim-Moved turn.claim db job expected turn.now next moved in
      let (o, same_store, same_tasks) = after_claim-Untouched turn job _ s _ ne in
      (o, same_store, λ id. same_tasks id ∙ keep id)

  pub skip_unless-triggered : (reply : Reply Bool) → skip_unless r c m next_run reply ≢ triggered
  skip_unless-triggered Reply.err h = cc h
  skip_unless-triggered (Reply.ok claimed) h = cc h

  after_running-Untouched :
      (turn : Turn) (job : CronJob) (expected next : ℕ) (running : Reply Bool) (s : r.Store)
      (db : m.Db)
      → Moved db job expected
      → Untouched s db (after_running r c m next_run turn job expected next running s db)
  unfolding after_running
  after_running-Untouched turn job expected next Reply.err s db moved =
      ((λ e. cc e), refl, λ id. refl)
  after_running-Untouched turn job expected next (Reply.ok true) s db moved =
      let (ne, keep) = claim-Moved turn.claim db job expected turn.now next moved in
      (skip_unless-triggered _, refl, keep)
  after_running-Untouched turn job expected next (Reply.ok false) s db moved =
      claim_and_create-Untouched turn job expected next s db moved

  pub has_running_tasks-db :
      (link : Link) (type namespace : Text) (db : m.Db)
      → (has_running_tasks m link type namespace db).1 ≡ db
  unfolding has_running_tasks run_script
  has_running_tasks-db up type namespace db = refl
  has_running_tasks-db (cut zero) type namespace db = refl
  has_running_tasks-db (cut (suc n)) type namespace db = refl

  by_policy-Untouched :
      (turn : Turn) (job : CronJob) (expected next : ℕ) (policy : ConcurrencyPolicy) (s : r.Store)
      (db : m.Db)
      → Moved db job expected
      → Untouched s db (by_policy r c m next_run turn job expected next policy s db)
  unfolding by_policy
  by_policy-Untouched turn job expected next allow s db moved =
      claim_and_create-Untouched turn job expected next s db moved
  by_policy-Untouched turn job expected next forbid s db moved =
      rw (has_running_tasks-db turn.ask job.type job.namespace db)
        (after_running-Untouched turn job expected next _ s db moved)

  at_times-Untouched :
      (turn : Turn) (job : CronJob) (next expected : Option ℕ) (s : r.Store) (db : m.Db)
      → (row : CronJob) → m.find_cron db job.id ≡ some row
      → row.next_run_at ≢ expected
      → Untouched s db (at_times r c m next_run turn job next expected s db)
  unfolding at_times
  at_times-Untouched turn job none expected s db row e ne = ((λ h. cc h), refl, λ id. refl)
  at_times-Untouched turn job (some next) none s db row e ne = ((λ h. cc h), refl, λ id. refl)
  at_times-Untouched turn job (some next) (some expected) s db row e ne =
      by_policy-Untouched turn job expected next job.concurrency_policy s db (row, e, ne)

  -- A scheduler that still holds a job as it was before its row's next run was moved triggers nothing,
  -- whatever its links and the job's policy: it neither creates nor enqueues a task.
  pub stale_job :
      (turn : Turn) (job row : CronJob) (s : r.Store) (db : m.Db)
      → m.find_cron db job.id ≡ some row
      → row.next_run_at ≢ job.next_run_at
      → let (o, s', db') = trigger_one r c m next_run turn job s db in
        (o ≢ triggered) × (s' ≡ s) × ((id : Text) → m.find_task db' id ≡ m.find_task db id)
  unfolding trigger_one
  stale_job turn job row s db e ne =
      at_times-Untouched turn job (next_run job.cron_expr turn.now) job.next_run_at s db row e ne
