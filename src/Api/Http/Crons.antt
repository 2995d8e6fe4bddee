-- ===== src/Api/Http/Crons.antt =====
-- The cron job handlers of internal/apiserver/interfaces/http/server.go. `next_run` stands for
-- cronutil.NextRunTime.
use dispatchhub.Prelude.{ℕ, Text, true, ◌||◌, Option, none, some, List, is_empty, if◌then◌else◌}
use dispatchhub.Prelude.Int.{ℤ, pos}
use dispatchhub.Entity.{CronJob, allow}
use dispatchhub.Redis.{Redis}
use dispatchhub.Redis.Call.{Link, Reply}
use dispatchhub.Broker.Codec.{Codec}
use dispatchhub.Mysql.Interface.{Mysql}
use dispatchhub.Mysql.Crons.{get_cron_job, list_cron_jobs, delete_cron_job}
use dispatchhub.Api.Service.{ServiceError, submit_cron_job}
use dispatchhub.Api.Http.{
  Answer, answer, refuse, CreateCronJobBody, duration_field, number_field, status_ok,
  status_created, status_bad_request, status_not_found, status_internal_server_error,
}

-- The fields that handleCreateCronJob leaves out have Go's zero values, and an empty policy is Allow.
unfoldable pub job_of_body : (Text → Option ℤ) → CreateCronJobBody → ℕ → CronJob
job_of_body parse_duration body next = record {
  id = List.[];
  name = body.name;
  namespace = body.namespace;
  type = body.type;
  payload = body.payload;
  labels = body.labels;
  cron_expr = body.cron_expr;
  queue_name = body.queue_name;
  priority = body.priority;
  timeout_after = duration_field parse_duration body.timeout_after;
  max_retries = body.max_retries;
  retry_backoff = duration_field parse_duration body.retry_backoff;
  concurrency_policy = allow;
  enabled = true;
  last_run_at = none;
  next_run_at = some next;
  created_at = 0;
  updated_at = 0;
}

unfoldable pub created_page : Option ServiceError → CronJob → Answer CronJob
created_page (some e) job = refuse status_internal_server_error
created_page none job = answer status_created job

unfoldable pub cron_page : Reply (Option CronJob) → Answer CronJob
cron_page Reply.err = refuse status_internal_server_error
cron_page (Reply.ok none) = refuse status_not_found
cron_page (Reply.ok (some job)) = answer status_ok job

unfoldable pub crons_page : Reply (ℕ × List CronJob) → Answer (List CronJob × ℕ)
crons_page Reply.err = refuse status_internal_server_error
crons_page (Reply.ok (total, jobs)) = answer status_ok (jobs, total)

unfoldable pub deleted_page : Reply (Unit {0}) → Answer (Unit {0})
deleted_page Reply.err = refuse status_internal_server_error
deleted_page (Reply.ok u) = answer status_ok tt

module _ (r : Redis) (c : Codec) (m : Mysql) (parse_duration : Text → Option ℤ)
    (atoi : Text → Option ℤ) (next_run : Text → ℕ → Option ℕ) where
  -- After the expression has been read, as `next`.
  unfoldable pub handle_at :
      Link → Text → ℕ → CreateCronJobBody → Option ℕ → m.Db → Answer CronJob × m.Db
  unfolding created_page
  handle_at link uuid now body none db = (refuse status_bad_request, db)
  handle_at link uuid now body (some next) db =
      let (error, job, db') =
        submit_cron_job r c m link uuid now (job_of_body parse_duration body next) db in
      (created_page error job, db')

  unfoldable pub handle_create_cron_job :
      Link → Text → ℕ → Option CreateCronJobBody → m.Db → Answer CronJob × m.Db
  unfolding handle_at
  handle_create_cron_job link uuid now none db = (refuse status_bad_request, db)
  handle_create_cron_job link uuid now (some body) db =
      if is_empty body.type || is_empty body.cron_expr
      then (refuse status_bad_request, db)
      else handle_at link uuid now body (next_run body.cron_expr now) db

  unfoldable pub handle_get_cron_job : Link → Text → m.Db → Answer CronJob × m.Db
  unfolding cron_page
  handle_get_cron_job link id db =
      let (reply, db') = get_cron_job m link id db in (cron_page reply, db')

  unfoldable pub handle_list_cron_jobs :
      Link → Link → Text → Text → Text → m.Db → Answer (List CronJob × ℕ) × m.Db
  unfolding crons_page
  handle_list_cron_jobs count_link select_link namespace limit offset db =
      let (reply, db') =
        list_cron_jobs m count_link select_link namespace (number_field atoi (pos 100) limit)
          (number_field atoi (pos 0) offset) db in
      (crons_page reply, db')

  unfoldable pub handle_delete_cron_job : Link → Text → m.Db → Answer (Unit {0}) × m.Db
  unfolding deleted_page
  handle_delete_cron_job link id db =
      let (reply, db') = delete_cron_job m link id db in (deleted_page reply, db')
