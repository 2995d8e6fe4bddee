-- ===== src/Mysql/Crons.antt =====
-- internal/shared/infrastructure/persistence/mysql/cronjob_repository.go, but for ClaimCronJob, which
-- stands with the trigger that calls it.
use dispatchhub.Prelude.{ℕ, Text, Option, none, some, List, is_empty, if◌then◌else◌}
use dispatchhub.Prelude.Int.{ℤ, pos_part}
use dispatchhub.Entity.{CronJob}
use dispatchhub.Redis.Call.{Link, Reply, run_script}
use dispatchhub.Mysql.Interface.{Mysql, or_old_count}
use dispatchhub.Mysql.Tasks.{limit_of, unless_failed}

module _ (m : Mysql) where
  open m use {Db}

  abbrev inserted_job : Db → Option Db → Reply (Unit {0}) × Db
  inserted_job db none = (Reply.err, db)
  inserted_job db (some db') = (Reply.ok tt, db')

  -- GORM writes the times into the struct before the INSERT, where they are zero.
  unfoldable pub stamped : ℕ → CronJob → CronJob
  stamped now job = record job {
    created_at = or_old_count job.created_at now;
    updated_at = or_old_count job.updated_at now;
  }

  unfoldable pub create_cron_job : Link → ℕ → CronJob → Db → Reply (Unit {0}) × CronJob × Db
  unfolding run_script stamped
  create_cron_job link now job db =
      let job' = stamped now job in
      let (reply, db') = run_script link (λ d. inserted_job d (m.insert_cron d job')) db in
      (reply, job', db')

  -- `Reply.ok none` is (nil, nil): no such row.
  unfoldable pub get_cron_job : Link → Text → Db → Reply (Option CronJob) × Db
  unfolding run_script
  get_cron_job link id db = run_script link (λ d. (Reply.ok (m.find_cron d id), d)) db

  unfoldable pub delete_cron_job : Link → Text → Db → Reply (Unit {0}) × Db
  unfolding run_script
  delete_cron_job link id db = run_script link (λ d. (Reply.ok tt, m.delete_cron d id)) db

  abbrev in_namespace : Text → Option Text
  in_namespace namespace = if is_empty namespace then none else some namespace

  -- The rows and their count without the limit.
  unfoldable pub list_cron_jobs : Link → Link → Text → ℤ → ℤ → Db → Reply (ℕ × List CronJob) × Db
  unfolding run_script
  list_cron_jobs count_link select_link namespace limit offset db =
      let (total, db') =
        run_script count_link (λ d. (Reply.ok (m.count_crons d (in_namespace namespace)), d)) db in
      unless_failed total
        (run_script select_link
          (λ d. (
            Reply.ok (m.select_crons d (in_namespace namespace) (limit_of limit) (pos_part offset)),
            d,
          ))
          db')
        db'

  unfoldable pub find_due_cron_jobs : Link → ℕ → ℕ → Db → Reply (List CronJob) × Db
  unfolding run_script
  find_due_cron_jobs link now limit db =
      run_script link (λ d. (Reply.ok (m.find_due d now limit), d)) db
