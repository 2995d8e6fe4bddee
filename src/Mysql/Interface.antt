-- ===== src/Mysql/Interface.antt =====
-- MySQL behind GORM, which are not part of the repository: the queries of
-- internal/shared/infrastructure/persistence/mysql as operations on an abstract database, and the
-- documented behaviour that the theorems use.
use dispatchhub.Prelude.{
  ℕ, ◌≤◌, Text, Bool, true, false, Option, none, some, List, [], ◌∷◌, is_empty, ◌≡◌, same, ◌==◌,
  ltb, leb, if◌then◌else◌, ◌&&◌, ◌||◌, ◌⊎◌, All, Occurs, ◌<◌, length,
}
use dispatchhub.Prelude.Int.{ℤ, is_zero}
use dispatchhub.Entity.{Task, CronJob}
use dispatchhub.Entity.State.{TaskState, pending, state_name}

-- GORM's Updates with a struct writes the fields that are not zero values, and `updated_at`.
abbrev pub or_old : Text → Text → Text
or_old new old = if is_empty new then old else new

abbrev pub or_old_number : ℤ → ℤ → ℤ
or_old_number new old = if is_zero new then old else new

abbrev pub or_old_count : ℕ → ℕ → ℕ
or_old_count new old = if new == 0 then old else new

abbrev pub or_old_time : Option ℕ → Option ℕ → Option ℕ
or_old_time none old = old
or_old_time (some t) old = some t

abbrev pub or_old_state : TaskState → TaskState → TaskState
or_old_state pending old = old
or_old_state new old = new

abbrev pub merge : Task → Task → ℕ → Task
merge row t now = record {
  id = row.id;
  name = or_old t.name row.name;
  namespace = or_old t.namespace row.namespace;
  group = or_old t.group row.group;
  type = or_old t.type row.type;
  payload = or_old t.payload row.payload;
  labels = or_old t.labels row.labels;
  priority = or_old_number t.priority row.priority;
  delay = or_old_number t.delay row.delay;
  schedule_at = or_old_time t.schedule_at row.schedule_at;
  timeout_after = or_old_number t.timeout_after row.timeout_after;
  max_retries = or_old_number t.max_retries row.max_retries;
  retry_count = or_old_count t.retry_count row.retry_count;
  retry_backoff = or_old_number t.retry_backoff row.retry_backoff;
  state = or_old_state t.state row.state;
  result = or_old t.result row.result;
  error = or_old t.error row.error;
  worker_id = or_old t.worker_id row.worker_id;
  queue_name = or_old t.queue_name row.queue_name;
  created_at = or_old_count t.created_at row.created_at;
  updated_at = now;
  started_at = or_old_time t.started_at row.started_at;
  finished_at = or_old_time t.finished_at row.finished_at;
  version = or_old_count t.version row.version;
}

-- A condition of a WHERE clause on the tasks, and whether a row meets all of them.
pub data Condition : Type 0 where
  namespace_is group_is type_is queue_is worker_is : Text → Condition
  state_is : TaskState → Condition

abbrev pub meets : Task → Condition → Bool
meets t (namespace_is x) = same t.namespace x
meets t (group_is x) = same t.group x
meets t (type_is x) = same t.type x
meets t (queue_is x) = same t.queue_name x
meets t (worker_is x) = same t.worker_id x
meets t (state_is x) = same (state_name t.state) (state_name x)

abbrev pub meets_all : List Condition → Task → Bool
meets_all [] t = true
meets_all (c ∷ cs) t = meets t c && meets_all cs t

-- The state is one of the list.
abbrev pub in_states : List TaskState → TaskState → Bool
in_states [] x = false
in_states (y ∷ ys) x = same (state_name y) (state_name x) || in_states ys x

abbrev pub finished_before : ℕ → Option ℕ → Bool
finished_before t none = false
finished_before t (some f) = ltb f t

pub record Mysql : Type 1 where
  pub Db : Type 0
  -- SELECT * FROM tasks WHERE id = ? LIMIT 1
  pub find_task : Db → Text → Option Task
  -- INSERT, which fails on an id that is there; a version of 0 becomes the default 1
  pub insert_task : Db → Task → Option Db
  -- UPDATE tasks SET … WHERE id = ? AND version = ?, and the rows affected
  pub update_task : Db → Text → ℕ → Task → ℕ → ℕ × Db
  -- UPDATE tasks SET updated_at = ? WHERE id = ?
  pub touch_task : Db → Text → ℕ → Db
  -- SELECT * FROM tasks WHERE state = ? AND updated_at < ? ORDER BY updated_at LIMIT ?
  pub find_stale : Db → TaskState → ℕ → ℕ → List Task
  -- SELECT count(*) > 0 FROM tasks WHERE type = ? AND namespace = ? AND state = running
  pub has_running : Db → Text → Text → Bool
  pub find_cron : Db → Text → Option CronJob
  -- SELECT * FROM cron_jobs WHERE enabled AND next_run_at <= ? ORDER BY next_run_at LIMIT ?
  pub find_due : Db → ℕ → ℕ → List CronJob
  -- UPDATE cron_jobs SET last_run_at = ?, next_run_at = ? WHERE id = ? AND next_run_at = ?
  pub claim_cron : Db → Text → ℕ → ℕ → ℕ → ℕ × Db
  -- SELECT count(*) FROM tasks WHERE …
  pub count_tasks : Db → List Condition → ℕ
  -- SELECT * FROM tasks WHERE … ORDER BY priority DESC, created_at ASC LIMIT ? OFFSET ?
  pub select_tasks : Db → List Condition → ℕ → ℕ → List Task
  -- DELETE FROM tasks WHERE state IN (…) AND finished_at < ? LIMIT ?, and the rows affected
  pub delete_terminal : Db → List TaskState → ℕ → ℕ → ℕ × Db
  -- INSERT, which fails on an id that is there
  pub insert_cron : Db → CronJob → Option Db
  -- DELETE FROM cron_jobs WHERE id = ?
  pub delete_cron : Db → Text → Db
  -- SELECT count(*) FROM cron_jobs, with WHERE namespace = ? if one is given
  pub count_crons : Db → Option Text → ℕ
  -- SELECT * FROM cron_jobs … ORDER BY created_at DESC LIMIT ? OFFSET ?
  pub select_crons : Db → Option Text → ℕ → ℕ → List CronJob

abbrev pub matches_version : ℕ → Option Task → ℕ
matches_version v none = 0
matches_version v (some row) = if row.version == v then 1 else 0

abbrev pub written : ℕ → Task → ℕ → Option Task → Option Task
written v t now none = none
written v t now (some row) = if row.version == v then some (merge row t now) else some row

abbrev pub matches_next_run : ℕ → Option CronJob → ℕ
matches_next_run expected none = 0
matches_next_run expected (some job) = elim job.next_run_at [
  | none ↦ 0
  | some n ↦ if n == expected then 1 else 0
]

-- The fourth number is the time of the statement, which GORM writes into updated_at.
abbrev pub claimed_job : ℕ → ℕ → ℕ → ℕ → Option CronJob → Option CronJob
claimed_job expected last next updated none = none
claimed_job expected last next updated (some job) = elim job.next_run_at [
  | none ↦ some job
  | some n ↦
      if n == expected
      then some
          (record job { last_run_at = some last; next_run_at = some next; updated_at = updated })
      else some job
]

-- enabled AND next_run_at <= ?
abbrev pub is_due : ℕ → CronJob → Bool
is_due now job = elim job.next_run_at [ none ↦ false | some n ↦ job.enabled && leb n now ]

module _ (m : Mysql) where
  open m use {
    find_stale, find_due, Db, find_task, insert_task, update_task, find_cron, claim_cron,
    select_tasks, delete_terminal, insert_cron, delete_cron,
  }

  pub record IsMysql : Type 0 where
    pub rows-update :
        (db : Db) (id : Text) (v : ℕ) (t : Task) (now : ℕ)
        → (update_task db id v t now).0 ≡ matches_version v (find_task db id)
    pub find-update :
        (db : Db) (id : Text) (v : ℕ) (t : Task) (now : ℕ) (j : Text)
        → find_task (update_task db id v t now).1 j
          ≡ (if same id j then written v t now (find_task db id) else find_task db j)
    pub find_cron-update :
        (db : Db) (id : Text) (v : ℕ) (t : Task) (now : ℕ) (j : Text)
        → find_cron (update_task db id v t now).1 j ≡ find_cron db j
    pub rows-claim :
        (db : Db) (id : Text) (expected last next : ℕ)
        → (claim_cron db id expected last next).0 ≡ matches_next_run expected (find_cron db id)
    pub find_cron-claim :
        (db : Db) (id : Text) (expected last next : ℕ) (j : Text)
        → (updated : ℕ) × (find_cron (claim_cron db id expected last next).1 j ≡ (
            if same id j
            then claimed_job expected last next updated (find_cron db id)
            else find_cron db j))
    pub find-claim :
        (db : Db) (id : Text) (expected last next : ℕ) (j : Text)
        → find_task (claim_cron db id expected last next).1 j ≡ find_task db j
    -- A new row is found under its id, with the default version when it had none.
    pub find-insert :
        (db : Db) (t : Task) (db' : Db) (j : Text)
        → insert_task db t ≡ some db'
        → find_task db' j ≡ (
            if same t.id j
            then some (record t { version = or_old_count t.version 1 })
            else find_task db j)
    pub find_cron-insert :
        (db : Db) (t : Task) (db' : Db) (j : Text)
        → insert_task db t ≡ some db'
        → find_cron db' j ≡ find_cron db j
    pub insert_taken :
        (db : Db) (t : Task) (row : Task) → find_task db t.id ≡ some row → insert_task db t ≡ none
    -- SELECT returns rows that meet the conditions, and no more than the limit.
    pub select_sound :
        (db : Db) (conditions : List Condition) (limit offset : ℕ)
        → All (λ t. meets_all conditions t ≡ true) (select_tasks db conditions limit offset)
    pub select_limit :
        (db : Db) (conditions : List Condition) (limit offset : ℕ)
        → length (select_tasks db conditions limit offset) ≤ limit
    -- A row that meets the query is in its result, unless the limit cuts the result off.
    pub stale_complete :
        (db : Db) (state : TaskState) (before limit : ℕ) (id : Text) (row : Task)
        → find_task db id ≡ some row
        → row.state ≡ state
        → row.updated_at < before
        → length (find_stale db state before limit) < limit
        → Occurs row (find_stale db state before limit)
    pub due_sound :
        (db : Db) (now limit : ℕ) → All (λ job. is_due now job ≡ true) (find_due db now limit)
    pub due_limit : (db : Db) (now limit : ℕ) → length (find_due db now limit) ≤ limit
    -- DELETE keeps a row, or removes one that meets its conditions.
    pub find-delete :
        (db : Db) (states : List TaskState) (before limit : ℕ) (j : Text)
        → (find_task (delete_terminal db states before limit).1 j ≡ find_task db j)
          ⊎ ((row : Task) × (find_task db j ≡ some row)
              × (in_states states row.state ≡ true)
              × (finished_before before row.finished_at ≡ true)
              × (find_task (delete_terminal db states before limit).1 j ≡ none))
    pub find_cron-insert_cron :
        (db : Db) (job : CronJob) (db' : Db) (j : Text)
        → insert_cron db job ≡ some db'
        → find_cron db' j ≡ (if same job.id j then some job else find_cron db j)
    pub find_cron-delete :
        (db : Db) (id j : Text)
        → find_cron (delete_cron db id) j ≡ (if same id j then none else find_cron db j)
