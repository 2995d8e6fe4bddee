-- ===== src/Tests/Crons.antt =====
-- Runs of the cron trigger on the servers in memory.
use dispatchhub.Prelude.{
  ℕ, ◌≡◌, ◌≢◌, refl, Text, true, Option, none, some, [], ◌∷◌, codes, same, same_refl, arith,
}
use dispatchhub.Prelude.Int.{pos}
use dispatchhub.Entity.{CronJob, allow, to_task}
use dispatchhub.Redis.Call.{up, cut, run_script}
use dispatchhub.Redis.Memory.{empty, memory}
use dispatchhub.Redis.Memory.Table.{lookup}
use dispatchhub.Broker.Codec.{Codec}
use dispatchhub.Broker.Queue.{enqueue, enqueue_with_cap}
use dispatchhub.Mysql.Memory.{Rows, no_rows, database, database-IsMysql}
use dispatchhub.Mysql.Tasks.{create}
use dispatchhub.Scheduler.Cron.{
  Turn, triggered, trigger_one, at_times, by_policy, claim_and_create, claim_cron_job, after_claim,
  after_create,
}
use dispatchhub.Scheduler.Cron.Twice.{trigger_once}

abbrev codec : Codec
codec = record { marshal = λ t. some (codes "{}"); unmarshal = λ d. none; cjson_decode = λ d. none }

abbrev pub next_run : Text → ℕ → Option ℕ
next_run expr after = some 200

abbrev pub turn : Turn
turn = record { ask = up; claim = up; insert = up; push = up; now = 150; uuid = codes "u1" }

abbrev late_turn : Turn
late_turn = record { ask = up; claim = cut 1; insert = up; push = up; now = 160; uuid = codes "u2" }

abbrev pub job : CronJob
job = record {
  id = codes "j1";
  name = codes "nightly";
  namespace = codes "ns";
  type = codes "report";
  payload = codes "{}";
  labels = [];
  cron_expr = codes "@daily";
  queue_name = codes "mail";
  priority = pos 5;
  timeout_after = pos 0;
  max_retries = pos 3;
  retry_backoff = pos 0;
  concurrency_policy = allow;
  enabled = true;
  last_run_at = none;
  next_run_at = some 100;
  created_at = 1;
  updated_at = 1;
}

abbrev pub with_job : CronJob → Rows
with_job row = record no_rows { jobs = ([], row.id, row) ∷ [] }

find_cron-with_job : (row : CronJob) → database.find_cron (with_job row) row.id ≡ some row
unfolding lookup
find_cron-with_job row = simp same_refl refl

first_run : (trigger_one memory codec database next_run turn job empty (with_job job)).0 ≡ triggered
unfolding trigger_one at_times by_policy claim_and_create claim_cron_job after_claim after_create
    create enqueue enqueue_with_cap run_script lookup same to_task
first_run = refl

trigger_once_example :
    let (o, s1, db1) = trigger_one memory codec database next_run turn job empty (with_job job) in
    let (o', s2, db2) = trigger_one memory codec database next_run late_turn job s1 db1 in
    (o' ≢ triggered)
    × (s2 ≡ s1)
    × ((id : Text) → database.find_task db2 id ≡ database.find_task db1 id)
trigger_once_example =
    trigger_once memory codec database database-IsMysql next_run turn late_turn job job 100 200
      empty (with_job job) (find_cron-with_job job) refl refl (λ e. omega arith) first_run
