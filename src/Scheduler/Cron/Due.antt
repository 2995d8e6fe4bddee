-- ===== src/Scheduler/Cron/Due.antt =====
-- `TriggerDueCronJobs`: the query and the loop over the jobs that it returns.
use dispatchhub.Prelude.{
  ℕ, zero, suc, ◌+◌, ◌≤◌, ◌≡◌, ◌≢◌, refl, ap, ◌∙◌, Text, Bool, true, false, Option, none, some,
  List, [], ◌∷◌, All, length, is_some, Option-cases, inl, inr, arith,
}
use dispatchhub.Entity.{Task, CronJob, ConcurrencyPolicy, allow, forbid}
use dispatchhub.Redis.{Redis}
use dispatchhub.Redis.Call.{Link, up, cut, Reply, run_script}
use dispatchhub.Broker.Codec.{Codec}
use dispatchhub.Broker.Reply.{Result, ok, err}
use dispatchhub.Mysql.Interface.{Mysql, IsMysql, is_due}
use dispatchhub.Mysql.Crons.{find_due_cron_jobs}
use dispatchhub.Scheduler.Cron.{
  Turn, Trigger, triggered, skipped, errored, panicked, trigger_one, at_times, by_policy,
  after_running, claim_and_create, after_claim, after_create, skip_unless, outcome_of,
}

-- The count and whether some job has failed; `none` is a panic, which ends the process.
unfoldable pub after_trigger : Trigger → ℕ → Bool → Option (ℕ × Bool)
after_trigger triggered n failed = some (suc n, failed)
after_trigger skipped n failed = some (n, failed)
after_trigger errored n failed = some (n, true)
after_trigger panicked n failed = none

module _ (r : Redis) (c : Codec) (m : Mysql) (next_run : Text → ℕ → Option ℕ) where
  -- `turns` is what each job's turn takes, by the job's id.
  unfoldable pub trigger_loop :
      (Text → Turn) → ℕ → Bool → List CronJob → r.Store → m.Db → Option (ℕ × Bool × r.Store × m.Db)
  unfolding after_trigger
  trigger_loop turns n failed [] s db = some (n, failed, s, db)
  trigger_loop turns n failed (job ∷ jobs) s db =
      let (o, s', db') = trigger_one r c m next_run (turns job.id) job s db in
      elim (after_trigger o n failed) [
        | none ↦ none
        | some p ↦ trigger_loop turns p.0 p.1 jobs s' db'
      ]

  unfoldable pub after_query :
      (Text → Turn) → Reply (List CronJob) → r.Store → m.Db → Option (ℕ × Bool × r.Store × m.Db)
  unfolding trigger_loop
  after_query turns Reply.err s db = some (0, true, s, db)
  after_query turns (Reply.ok jobs) s db = trigger_loop turns 0 false jobs s db

  unfoldable pub trigger_due_cron_jobs :
      Link → (Text → Turn) → ℕ → ℕ → r.Store → m.Db → Option (ℕ × Bool × r.Store × m.Db)
  unfolding after_query
  trigger_due_cron_jobs link turns now limit s db =
      let (reply, db') = find_due_cron_jobs m link now limit db in after_query turns reply s db'

  outcome_of-ran : (x : Result (Unit {0})) → outcome_of r c m next_run x ≢ panicked
  outcome_of-ran (ok u) h = cc h
  outcome_of-ran (err e) h = cc h

  after_create-ran :
      (turn : Turn) (created : Bool) (t : Task) (s : r.Store) (db : m.Db)
      → (after_create r c m next_run turn created t s db).0 ≢ panicked
  unfolding after_create
  after_create-ran turn false t s db h = cc h
  after_create-ran turn true t s db h = outcome_of-ran _ h

  after_claim-ran :
      (turn : Turn) (job : CronJob) (claimed : Reply Bool) (s : r.Store) (db : m.Db)
      → (after_claim r c m next_run turn job claimed s db).0 ≢ panicked
  unfolding after_claim
  after_claim-ran turn job Reply.err s db h = cc h
  after_claim-ran turn job (Reply.ok false) s db h = cc h
  after_claim-ran turn job (Reply.ok true) s db h = after_create-ran turn _ _ s _ h

  skip_unless-ran : (reply : Reply Bool) → skip_unless r c m next_run reply ≢ panicked
  skip_unless-ran Reply.err h = cc h
  skip_unless-ran (Reply.ok claimed) h = cc h

  after_running-ran :
      (turn : Turn) (job : CronJob) (expected next : ℕ) (running : Reply Bool) (s : r.Store)
      (db : m.Db)
      → (after_running r c m next_run turn job expected next running s db).0 ≢ panicked
  unfolding after_running claim_and_create
  after_running-ran turn job expected next Reply.err s db h = cc h
  after_running-ran turn job expected next (Reply.ok true) s db h = skip_unless-ran _ h
  after_running-ran turn job expected next (Reply.ok false) s db h =
      after_claim-ran turn job _ s _ h

  by_policy-ran :
      (turn : Turn) (job : CronJob) (expected next : ℕ) (policy : ConcurrencyPolicy) (s : r.Store)
      (db : m.Db)
      → (by_policy r c m next_run turn job expected next policy s db).0 ≢ panicked
  unfolding by_policy claim_and_create
  by_policy-ran turn job expected next allow s db h = after_claim-ran turn job _ s _ h
  by_policy-ran turn job expected next forbid s db h =
      after_running-ran turn job expected next _ s _ h

  at_times-ran :
      (turn : Turn) (job : CronJob) (next expected : Option ℕ) (s : r.Store) (db : m.Db)
      → is_some expected ≡ true
      → (at_times r c m next_run turn job next expected s db).0 ≢ panicked
  unfolding at_times
  at_times-ran turn job none expected s db e h = cc h
  at_times-ran turn job (some next) none s db e h = cc e
  at_times-ran turn job (some next) (some expected) s db e h =
      by_policy-ran turn job expected next job.concurrency_policy s db h

  trigger_one-ran :
      (turn : Turn) (job : CronJob) (s : r.Store) (db : m.Db)
      → is_some job.next_run_at ≡ true
      → (trigger_one r c m next_run turn job s db).0 ≢ panicked
  unfolding trigger_one
  trigger_one-ran turn job s db e h =
      at_times-ran turn job (next_run job.cron_expr turn.now) job.next_run_at s db e h

  after_trigger-counted :
      (o : Trigger) (n : ℕ) (failed : Bool)
      → o ≢ panicked
      → (k : ℕ) × (failed' : Bool) × (after_trigger o n failed ≡ some (k, failed'))
        × (n ≤ k)
        × (k ≤ n + 1)
  unfolding after_trigger
  after_trigger-counted triggered n failed h = (suc n, failed, refl, omega arith, omega arith)
  after_trigger-counted skipped n failed h = (n, failed, refl, omega arith, omega arith)
  after_trigger-counted errored n failed h = (n, true, refl, omega arith, omega arith)
  after_trigger-counted panicked n failed h = absurd (h refl)

  abbrev Timed : List CronJob → Type 0
  Timed = All (λ job. is_some job.next_run_at ≡ true)

  loop_total :
      (turns : Text → Turn) (n : ℕ) (failed : Bool) (jobs : List CronJob) (s : r.Store) (db : m.Db)
      → Timed jobs
      → (k : ℕ) × (failed' : Bool) × (s' : r.Store) × (db' : m.Db) × (trigger_loop turns n failed
            jobs s db
          ≡ some (k, failed', s', db'))
        × (n ≤ k)
        × (k ≤ n + length jobs)
  unfolding trigger_loop
  loop_total turns n failed [] s db all = (n, failed, s, db, refl, omega arith, omega arith)
  loop_total turns n failed (job ∷ jobs) s db (e, all) =
      let (o, s1, db1) = trigger_one r c m next_run (turns job.id) job s db in
      let (k1, f1, run1, low1, high1) =
        after_trigger-counted o n failed (trigger_one-ran (turns job.id) job s db e) in
      let (k, f, s', db', run, low, high) = loop_total turns k1 f1 jobs s1 db1 all in
      (
        k,
        f,
        s',
        db',
        ap (λ x. elim x [ none ↦ none | some p ↦ trigger_loop turns p.0 p.1 jobs s1 db1 ]) run1
            ∙ run,
        omega arith,
        omega arith,
      )

  is_due-Timed :
      (now : ℕ) (jobs : List CronJob) → All (λ job. is_due now job ≡ true) jobs → Timed jobs
  is_due-Timed now [] all = tt
  is_due-Timed now (job ∷ jobs) (e, all) = (timed job e, is_due-Timed now jobs all)
    where
      timed : (job : CronJob) → is_due now job ≡ true → is_some job.next_run_at ≡ true
      timed job e = elim (Option-cases job.next_run_at) [
        | inl nil ↦ ground (arith, e, nil)
        | inr (n, found) ↦ rw found refl
      ]

  -- TriggerDueCronJobs comes to its end without a panic, whatever fails on the way, and triggers at most
  -- as many tasks as its limit.
  pub due_total :
      (mysql : IsMysql m) (turns : Text → Turn) (link : Link) (now limit : ℕ) (s : r.Store)
      (db : m.Db)
      → (k : ℕ) × (failed : Bool) × (s' : r.Store) × (db' : m.Db) × (trigger_due_cron_jobs link
            turns now limit s db
          ≡ some (k, failed, s', db'))
        × (k ≤ limit)
  unfolding trigger_due_cron_jobs after_query find_due_cron_jobs run_script
  due_total mysql turns up now limit s db =
      let (k, f, s', db', run, low, high) =
        loop_total turns 0 false (m.find_due db now limit) s db
          (is_due-Timed now (m.find_due db now limit) (mysql.due_sound db now limit)) in
      (k, f, s', db', run, omega (arith, mysql.due_limit db now limit))
  due_total mysql turns (cut zero) now limit s db = (0, true, s, db, refl, omega arith)
  due_total mysql turns (cut (suc n)) now limit s db = (0, true, s, db, refl, omega arith)
