-- ===== src/Scheduler/Cron/Twice.antt =====
-- A triggered run moves the job's next run, so that no other scheduler triggers it again.
use dispatchhub.Prelude.{
  ℕ, zero, suc, ◌≡◌, ◌≢◌, refl, sym, ap, ◌∙◌, Text, Bool, true, false, Option, some, ◌==◌, arith,
  same_refl, Option-cases, inl, inr,
}
use dispatchhub.Entity.{Task, CronJob, ConcurrencyPolicy, allow, forbid}
use dispatchhub.Redis.{Redis}
use dispatchhub.Redis.Call.{Link, up, cut, Reply, run_script}
use dispatchhub.Broker.Codec.{Codec}
use dispatchhub.Mysql.Interface.{Mysql, IsMysql, matches_next_run, claimed_job}
use dispatchhub.Mysql.Tasks.{create, inserted, create_result}
use dispatchhub.Scheduler.Cron.{
  Turn, triggered, claim_cron_job, after_create, after_claim, claim_and_create, after_running,
  by_policy, at_times, trigger_one, new_task,
}
use dispatchhub.Scheduler.Cron.Once.{skip_unless-triggered, has_running_tasks-db, stale_job}

module _ (r : Redis) (c : Codec) (m : Mysql) (mysql : IsMysql m)
    (next_run : Text → ℕ → Option ℕ) where
  -- The job's row has this next run.
  abbrev Next : m.Db → CronJob → ℕ → Type 0
  Next db job next =
      (row : CronJob) × (m.find_cron db job.id ≡ some row) × (row.next_run_at ≡ some next)

  claimed_row :
      (expected last next updated : ℕ) (row : CronJob)
      → (matches_next_run expected (some row) == 1) ≡ true
      → (row' : CronJob) × (claimed_job expected last next updated (some row) ≡ some row')
        × (row'.next_run_at ≡ some next)
  claimed_row expected last next updated row h = elim (Option-cases row.next_run_at) [
    | inl e ↦ cc (rw e at h)
    | inr (n, e) ↦ (
      record row { last_run_at = some last; next_run_at = some next; updated_at = updated },
      ground (arith, e),
      refl,
    )
  ]

  ok_injective : (b : Bool) → ◌≡◌ {A = Reply Bool} (Reply.ok b) (Reply.ok true) → b ≡ true
  ok_injective b h = cc h

  claim-Next :
      (link : Link) (db : m.Db) (job row : CronJob) (expected last next : ℕ)
      → m.find_cron db job.id ≡ some row
      → (claim_cron_job r c m next_run link job.id expected last next db).0 ≡ Reply.ok true
      → Next (claim_cron_job r c m next_run link job.id expected last next db).1 job next
  unfolding claim_cron_job run_script
  claim-Next up db job row expected last next e h =
      let hit = ok_injective _ h in
      let rows = mysql.rows-claim db job.id expected last next in
      let (updated, law) = mysql.find_cron-claim db job.id expected last next job.id in
      let (row', e', moved) = claimed_row expected last next updated row (rw (rows, e) at hit) in
      (row', (rw (same_refl job.id, e) at law) ∙ e', moved)
  claim-Next (cut zero) db job row expected last next e h = cc h
  claim-Next (cut (suc n)) db job row expected last next e h = cc h

  inserted-find_cron :
      (task : Task) (db : m.Db) (j : Text)
      → m.find_cron (inserted m db (m.insert_task db task)).1 j ≡ m.find_cron db j
  inserted-find_cron task db j = elim (Option-cases (m.insert_task db task)) [
    | inl e ↦ ground (arith, e)
    | inr (db', e) ↦ rw (e, inserted) (mysql.find_cron-insert db task db' j e)
  ]

  create_result-db : (task : Task) (p : Reply (Unit {0}) × m.Db) → (create_result m task p).2 ≡ p.1
  create_result-db task (Reply.ok u, db) = refl
  create_result-db task (Reply.err, db) = refl

  create-find_cron :
      (link : Link) (task : Task) (db : m.Db) (j : Text)
      → m.find_cron (create m link task db).2 j ≡ m.find_cron db j
  unfolding create run_script
  create-find_cron up task db j =
      ap (λ d. m.find_cron d j) (create_result-db task (inserted m db (m.insert_task db task)))
      ∙ inserted-find_cron task db j
  create-find_cron (cut zero) task db j = refl
  create-find_cron (cut (suc n)) task db j = inserted-find_cron task db j

  after_create-db :
      (turn : Turn) (created : Bool) (task : Task) (s : r.Store) (db : m.Db)
      → (after_create r c m next_run turn created task s db).2 ≡ db
  unfolding after_create
  after_create-db turn true task s db = refl
  after_create-db turn false task s db = refl

  after_claim-Next :
      (turn : Turn) (job : CronJob) (next : ℕ) (claimed : Reply Bool) (s : r.Store) (db : m.Db)
      → (claimed ≡ Reply.ok true → Next db job next)
      → (after_claim r c m next_run turn job claimed s db).0 ≡ triggered
      → Next (after_claim r c m next_run turn job claimed s db).2 job next
  unfolding after_claim
  after_claim-Next turn job next Reply.err s db h e = cc e
  after_claim-Next turn job next (Reply.ok false) s db h e = cc e
  after_claim-Next turn job next (Reply.ok true) s db h e =
      let (row, at, moved) = h refl in
      (
        row,
        ap (λ d. m.find_cron d job.id) (after_create-db turn _ _ s _)
            ∙ create-find_cron turn.insert (new_task r c m next_run turn job) db job.id
            ∙ at,
        moved,
      )

  claim_and_create-Next :
      (turn : Turn) (job row : CronJob) (expected next : ℕ) (s : r.Store) (db : m.Db)
      → m.find_cron db job.id ≡ some row
      → (claim_and_create r c m next_run turn job expected next s db).0 ≡ triggered
      → Next (claim_and_create r c m next_run turn job expected next s db).2 job next
  unfolding claim_and_create
  claim_and_create-Next turn job row expected next s db e h =
      after_claim-Next turn job next _ s _
        (λ claimed. claim-Next turn.claim db job row expected turn.now next e claimed) h

  after_running-Next :
      (turn : Turn) (job row : CronJob) (expected next : ℕ) (running : Reply Bool) (s : r.Store)
      (db : m.Db)
      → m.find_cron db job.id ≡ some row
      → (after_running r c m next_run turn job expected next running s db).0 ≡ triggered
      → Next (after_running r c m next_run turn job expected next running s db).2 job next
  unfolding after_running
  after_running-Next turn job row expected next Reply.err s db e h = cc h
  after_running-Next turn job row expected next (Reply.ok true) s db e h =
      absurd (skip_unless-triggered r c m mysql next_run _ h)
  after_running-Next turn job row expected next (Reply.ok false) s db e h =
      claim_and_create-Next turn job row expected next s db e h

  by_policy-Next :
      (turn : Turn) (job row : CronJob) (expected next : ℕ) (policy : ConcurrencyPolicy)
      (s : r.Store) (db : m.Db)
      → m.find_cron db job.id ≡ some row
      → (by_policy r c m next_run turn job expected next policy s db).0 ≡ triggered
      → Next (by_policy r c m next_run turn job expected next policy s db).2 job next
  unfolding by_policy
  by_policy-Next turn job row expected next allow s db e h =
      claim_and_create-Next turn job row expected next s db e h
  by_policy-Next turn job row expected next forbid s db e h =
      after_running-Next turn job row expected next _ s _
        (ap (λ d. m.find_cron d job.id)
            (has_running_tasks-db r c m mysql next_run turn.ask job.type job.namespace db)
          ∙ e)
        h

  trigger_one-times :
      (turn : Turn) (job : CronJob) (expected next : ℕ) (s : r.Store) (db : m.Db)
      → job.next_run_at ≡ some expected
      → next_run job.cron_expr turn.now ≡ some next
      → trigger_one r c m next_run turn job s db
        ≡ by_policy r c m next_run turn job expected next job.concurrency_policy s db
  unfolding trigger_one at_times
  trigger_one-times turn job expected next s db due later =
      ap (λ o. at_times r c m next_run turn job o job.next_run_at s db) later
      ∙ ap (λ o. at_times r c m next_run turn job (some next) o s db) due

  some_eq : {a b : ℕ} → some a ≡ some b → a ≡ b
  some_eq e = cc e

  -- When one scheduler has triggered a job, and the job's next run is another time than the one it was
  -- due at, a second scheduler that has read the same job triggers nothing: whatever its links, its
  -- clock and the policy, it neither creates nor enqueues a task.
  pub trigger_once :
      (turn turn' : Turn) (job row : CronJob) (expected next : ℕ) (s : r.Store) (db : m.Db)
      → m.find_cron db job.id ≡ some row
      → job.next_run_at ≡ some expected
      → next_run job.cron_expr turn.now ≡ some next
      → next ≢ expected
      → (trigger_one r c m next_run turn job s db).0 ≡ triggered
      → let (o, s1, db1) = trigger_one r c m next_run turn job s db in
        let (o', s2, db2) = trigger_one r c m next_run turn' job s1 db1 in
        (o' ≢ triggered) × (s2 ≡ s1) × ((id : Text) → m.find_task db2 id ≡ m.find_task db1 id)
  trigger_once turn turn' job row expected next s db e due later ne o =
      let same_run = trigger_one-times turn job expected next s db due later in
      let (row', at, moved) =
        by_policy-Next turn job row expected next job.concurrency_policy s db e
          (ap (λ x. x.0) (sym same_run) ∙ o) in
      stale_job r c m mysql next_run turn' job row' _ _
        (ap (λ x. m.find_cron x.2 job.id) same_run ∙ at) (λ q. ne (some_eq (sym moved ∙ q ∙ due)))
