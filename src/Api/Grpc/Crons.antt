-- ===== src/Api/Grpc/Crons.antt =====
-- The cron job methods of internal/apiserver/interfaces/grpc/server.go. `next_run` stands for
-- cronutil.NextRunTime.
use dispatchhub.Prelude.{
  ℕ, Text, true, ◌||◌, Option, none, some, List, is_empty, map, get_or, if◌then◌else◌,
}
use dispatchhub.Prelude.Int.{ℤ, pos}
use dispatchhub.Entity.{CronJob, allow}
use dispatchhub.Redis.{Redis}
use dispatchhub.Redis.Call.{Link, Reply}
use dispatchhub.Broker.Codec.{Codec}
use dispatchhub.Mysql.Interface.{Mysql}
use dispatchhub.Mysql.Crons.{get_cron_job, list_cron_jobs, delete_cron_job}
use dispatchhub.Api.Service.{ServiceError, submit_cron_job}
use dispatchhub.Api.Grpc.{ProtoCronJob, entity_to_proto_cron_job}
use dispatchhub.Api.Grpc.Tasks.{Answer, ok, err, invalid_argument, not_found, internal}

pub record CreateCronJobRequest : Type 0 where
  pub name : Text
  pub namespace : Text
  pub type : Text
  pub payload : Text
  pub labels : Text
  pub cron_expr : Text
  pub queue_name : Text
  pub priority : ℤ
  pub timeout_after : Option ℤ
  pub max_retries : ℤ
  pub retry_backoff : Option ℤ

-- The fields that CreateCronJob leaves out have Go's zero values, and an empty policy is Allow.
unfoldable pub job_of_request : CreateCronJobRequest → ℕ → CronJob
job_of_request request next = record {
  id = List.[];
  name = request.name;
  namespace = request.namespace;
  type = request.type;
  payload = request.payload;
  labels = request.labels;
  cron_expr = request.cron_expr;
  queue_name = request.queue_name;
  priority = request.priority;
  timeout_after = get_or (pos 0) request.timeout_after;
  max_retries = request.max_retries;
  retry_backoff = get_or (pos 0) request.retry_backoff;
  concurrency_policy = allow;
  enabled = true;
  last_run_at = none;
  next_run_at = some next;
  created_at = 0;
  updated_at = 0;
}

unfoldable pub create_answer : Option ServiceError → CronJob → Answer ProtoCronJob
create_answer (some e) job = err internal
create_answer none job = ok (entity_to_proto_cron_job job)

unfoldable pub get_cron_answer : Reply (Option CronJob) → Answer ProtoCronJob
get_cron_answer Reply.err = err internal
get_cron_answer (Reply.ok none) = err not_found
get_cron_answer (Reply.ok (some job)) = ok (entity_to_proto_cron_job job)

unfoldable pub list_cron_answer : Reply (ℕ × List CronJob) → Answer (List ProtoCronJob × ℕ)
list_cron_answer Reply.err = err internal
list_cron_answer (Reply.ok (total, jobs)) = ok (map entity_to_proto_cron_job jobs, total)

unfoldable pub delete_answer : Reply (Unit {0}) → Answer (Unit {0})
delete_answer Reply.err = err internal
delete_answer (Reply.ok u) = ok tt

module _ (r : Redis) (c : Codec) (m : Mysql) (next_run : Text → ℕ → Option ℕ) where
  -- After the expression has been read, as `next`.
  unfoldable pub create_at :
      Link → Text → ℕ → CreateCronJobRequest → Option ℕ → m.Db → Answer ProtoCronJob × m.Db
  unfolding create_answer
  create_at link uuid now request none db = (err invalid_argument, db)
  create_at link uuid now request (some next) db =
      let (error, job, db') =
        submit_cron_job r c m link uuid now (job_of_request request next) db in
      (create_answer error job, db')

  unfoldable pub rpc_create_cron_job :
      Link → Text → ℕ → CreateCronJobRequest → m.Db → Answer ProtoCronJob × m.Db
  unfolding create_at
  rpc_create_cron_job link uuid now request db =
      if is_empty request.type || is_empty request.cron_expr
      then (err invalid_argument, db)
      else create_at link uuid now request (next_run request.cron_expr now) db

  unfoldable pub rpc_get_cron_job : Link → Text → m.Db → Answer ProtoCronJob × m.Db
  unfolding get_cron_answer
  rpc_get_cron_job link id db =
      let (reply, db') = get_cron_job m link id db in (get_cron_answer reply, db')

  unfoldable pub rpc_list_cron_jobs :
      Link → Link → Text → ℤ → ℤ → m.Db → Answer (List ProtoCronJob × ℕ) × m.Db
  unfolding list_cron_answer
  rpc_list_cron_jobs count_link select_link namespace limit offset db =
      let (reply, db') = list_cron_jobs m count_link select_link namespace limit offset db in
      (list_cron_answer reply, db')

  unfoldable pub rpc_delete_cron_job : Link → Text → m.Db → Answer (Unit {0}) × m.Db
  unfolding delete_answer
  rpc_delete_cron_job link id db =
      let (reply, db') = delete_cron_job m link id db in (delete_answer reply, db')
