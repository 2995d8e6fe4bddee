-- ===== src/Api/Protocols.antt =====
-- The two servers, internal/apiserver/interfaces/grpc/server.go and
-- internal/apiserver/interfaces/http/server.go, against each other.
pub mod Cancellation
use dispatchhub.Prelude.{
  ℕ, ◌≡◌, refl, ap, ◌∙◌, [], ◌∷◌, Text, Bool, true, false, ◌||◌, Option, none, some, is_empty,
  get_or, ◌==◌, if◌then◌else◌, Bool-cases, inl, inr,
}
use dispatchhub.Prelude.Int.{ℤ, pos}
use dispatchhub.Entity.{Task, CronJob}
use dispatchhub.Redis.{Redis}
use dispatchhub.Redis.Call.{Link}
use dispatchhub.Broker.Codec.{Codec}
use dispatchhub.Mysql.Interface.{Mysql}
use dispatchhub.Api.Service.{ServiceError, Request, Hooks, submit_task, submit_cron_job}
use dispatchhub.Api.Grpc.{
  TaskSpec, ProtoTask, ProtoCronJob, task_of_spec, entity_to_proto_task, entity_to_proto_cron_job,
}
use dispatchhub.Api.Grpc.Tasks.{
  Code, invalid_argument, not_found, internal, rpc_submit_task, submit_answer,
}
use dispatchhub.Api.Grpc.Tasks
use dispatchhub.Api.Grpc.Crons.{
  CreateCronJobRequest, job_of_request, create_answer, create_at, rpc_create_cron_job,
}
use dispatchhub.Api.Http.{
  Answer, answer, refuse, SubmitTaskBody, CreateCronJobBody, duration_field, status_bad_request,
  status_not_found,
}
use dispatchhub.Api.Http.Tasks.{task_of_body, submitted_page, handle_submit_task}
use dispatchhub.Api.Http.Crons.{job_of_body, created_page, handle_at, handle_create_cron_job}

-- The code that stands for an HTTP status of a refusal.
abbrev pub code_of : ℕ → Code
code_of status =
    if status == status_bad_request
    then invalid_argument
    else if status == status_not_found
    then not_found
    else internal

-- An answer of the one protocol in the terms of the other.
abbrev pub over_grpc : {A B : Type 0} → (A → B) → Answer A → Tasks.Answer B
over_grpc f (answer status a) = Tasks.ok (f a)
over_grpc f (refuse status) = Tasks.err (code_of status)

abbrev pub proto_submitted : Text × Task → Text × ProtoTask
proto_submitted (id, t) = (id, entity_to_proto_task t)

-- A duration in text, as the message has it: left out if it is empty or does not parse.
abbrev given : (Text → Option ℤ) → Text → Option ℤ
given parse_duration x = if is_empty x then none else parse_duration x

given_lem :
    (parse_duration : Text → Option ℤ) (x : Text)
    → duration_field parse_duration x ≡ get_or (pos 0) (given parse_duration x)
given_lem parse_duration [] = refl
given_lem parse_duration (a ∷ x) = refl

-- The message with the fields of a body; it has no time, and no backoff.
abbrev pub spec_of_body : (Text → Option ℤ) → SubmitTaskBody → TaskSpec
spec_of_body parse_duration body = record {
  name = body.name;
  namespace = body.namespace;
  group = body.group;
  type = body.type;
  payload = body.payload;
  labels = body.labels;
  priority = body.priority;
  delay = given parse_duration body.delay;
  schedule_at = none;
  timeout_after = given parse_duration body.timeout_after;
  max_retries = body.max_retries;
  retry_backoff = none;
  queue_name = body.queue_name;
}

abbrev pub request_of_body : (Text → Option ℤ) → CreateCronJobBody → CreateCronJobRequest
request_of_body parse_duration body = record {
  name = body.name;
  namespace = body.namespace;
  type = body.type;
  payload = body.payload;
  labels = body.labels;
  cron_expr = body.cron_expr;
  queue_name = body.queue_name;
  priority = body.priority;
  timeout_after = given parse_duration body.timeout_after;
  max_retries = body.max_retries;
  retry_backoff = given parse_duration body.retry_backoff;
}

task_of_body_lem :
    (parse_duration : Text → Option ℤ) (body : SubmitTaskBody)
    → task_of_body parse_duration body ≡ task_of_spec (spec_of_body parse_duration body)
unfolding task_of_body task_of_spec
task_of_body_lem p body = rw (given_lem p body.delay, given_lem p body.timeout_after) refl

job_of_body_lem :
    (parse_duration : Text → Option ℤ) (body : CreateCronJobBody) (next : ℕ)
    → job_of_body parse_duration body next
      ≡ job_of_request (request_of_body parse_duration body) next
unfolding job_of_body job_of_request
job_of_body_lem p body next =
    rw (given_lem p body.timeout_after, given_lem p body.retry_backoff) refl

submitted_page_lem :
    (error : Option ServiceError) (t : Task)
    → submit_answer error t ≡ over_grpc proto_submitted (submitted_page error t)
unfolding submit_answer submitted_page
submitted_page_lem none t = refl
submitted_page_lem (some e) t = refl

created_page_lem :
    (error : Option ServiceError) (job : CronJob)
    → create_answer error job ≡ over_grpc entity_to_proto_cron_job (created_page error job)
unfolding create_answer created_page
created_page_lem none job = refl
created_page_lem (some e) job = refl

module _ (r : Redis) (c : Codec) (m : Mysql) (parse_duration : Text → Option ℤ)
    (atoi : Text → Option ℤ) (next_run : Text → ℕ → Option ℕ) where
  -- A task that is submitted over HTTP gets the answer that gRPC gives to the message with the fields of
  -- the HTTP body, which has neither a schedule time nor a retry backoff, and leaves the same behind in Redis and in MySQL, errors included.
  pub submit_same :
      (request : Request) (hooks : Hooks) (body : SubmitTaskBody) (s : r.Store) (db : m.Db)
      → let (page, s', db') =
          handle_submit_task r c m parse_duration atoi request hooks (some body) s db in
        rpc_submit_task r c m request hooks (some (spec_of_body parse_duration body)) s db
        ≡ (over_grpc proto_submitted page, s', db')
  unfolding handle_submit_task rpc_submit_task
  submit_same request hooks body s db = elim (Bool-cases (is_empty body.type)) [
    | inl e ↦ rw (e, rpc_submit_task, handle_submit_task) refl
    | inr e ↦
        rw (e, task_of_body_lem parse_duration body)
          (let (error, t, s', db') =
              submit_task r c m request hooks (task_of_spec (spec_of_body parse_duration body)) s
                db in
            ap (λ a. (a, s', db')) (submitted_page_lem error t))
  ]

  create_at_lem :
      (link : Link) (uuid : Text) (now : ℕ) (body : CreateCronJobBody) (next : Option ℕ) (db : m.Db)
      → let (page, db') = handle_at r c m parse_duration atoi next_run link uuid now body next db in
        create_at r c m next_run link uuid now (request_of_body parse_duration body) next db
        ≡ (over_grpc entity_to_proto_cron_job page, db')
  unfolding create_at handle_at
  create_at_lem link uuid now body none db = refl
  create_at_lem link uuid now body (some next) db = rw (job_of_body_lem parse_duration body next) (
      let (error, job, db') =
        submit_cron_job r c m link uuid now
          (job_of_request (request_of_body parse_duration body) next) db in
      ap (λ a. (a, db')) (created_page_lem error job))

  -- The same of a cron job.
  pub create_same :
      (link : Link) (uuid : Text) (now : ℕ) (body : CreateCronJobBody) (db : m.Db)
      → let (page, db') =
          handle_create_cron_job r c m parse_duration atoi next_run link uuid now (some body) db in
        rpc_create_cron_job r c m next_run link uuid now (request_of_body parse_duration body) db
        ≡ (over_grpc entity_to_proto_cron_job page, db')
  unfolding handle_create_cron_job rpc_create_cron_job
  create_same link uuid now body db =
      elim (Bool-cases (is_empty body.type || is_empty body.cron_expr)) [
        | inl e ↦ rw e refl
        | inr e ↦ rw e (create_at_lem link uuid now body (next_run body.cron_expr now) db)
      ]
