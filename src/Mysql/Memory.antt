-- ===== src/Mysql/Memory.antt =====
-- A database held in memory. It has the documented behaviour, so that the theorems' hypotheses about
-- MySQL can be met.
mod Select
use Select.{
  find-without, find, put, keep_if, find-put, ids_where, remove, find-sweep, keep_if_sound,
  Occurs-keep_if,
}
use dispatchhub.Prelude.{
  ℕ, Text, Bool, true, false, Option, none, some, List, [], ◌∷◌, ◌≡◌, refl, same, same_iff,
  if◌then◌else◌, ◌&&◌, ltb, leb, take, arith, inl, inr, Option-cases, ◌⊎◌, drop, length,
  length-take-le, Occurs, ◌<◌, subst, sym, ap, same_refl, All, All-take, All-drop,
}
use dispatchhub.Entity.{Task, CronJob}
use dispatchhub.Entity.State.{TaskState, running, state_name}
use dispatchhub.Mysql.Interface.{
  is_due, Mysql, IsMysql, or_old_count, matches_version, written, matches_next_run, claimed_job,
  Condition, meets_all, in_states, finished_before,
}
use dispatchhub.Redis.Memory.Ranking.{take-whole}
use dispatchhub.Redis.Memory.Table.{Occurs-members, Table, lookup, without, members, lookup-without}

pub record Rows : Type 0 where
  pub tasks : Table Task
  pub jobs : Table CronJob

abbrev pub no_rows : Rows
no_rows = record { tasks = []; jobs = [] }

abbrev is_stale : TaskState → ℕ → Task → Bool
is_stale state before t = same (state_name t.state) (state_name state) && ltb t.updated_at before

abbrev is_running : Text → Text → Task → Bool
is_running type namespace t =
    same t.type type && same t.namespace namespace && same (state_name t.state) (state_name running)

abbrev any : {V : Type 0} → List V → Bool
any [] = false
any (x ∷ xs) = true

abbrev insert_task : Rows → Task → Option Rows
insert_task db t = elim (find db.tasks t.id) [
  | none ↦ some (record db {
    tasks = put t.id (some (record t { version = or_old_count t.version 1 })) db.tasks;
  })
  | some row ↦ none
]

abbrev touched : ℕ → Option Task → Option Task
touched now none = none
touched now (some row) = some (record row { updated_at = now })

abbrev insert_job : Rows → CronJob → Option Rows
insert_job db job = elim (find db.jobs job.id) [
  | none ↦ some (record db { jobs = put job.id (some job) db.jobs })
  | some row ↦ none
]

abbrev is_old : List TaskState → ℕ → Task → Bool
is_old states before t = in_states states t.state && finished_before before t.finished_at

abbrev doomed : Rows → List TaskState → ℕ → ℕ → List Text
doomed db states before limit =
    take limit (ids_where (is_old states before) (members [] db.tasks) db.tasks)

abbrev in_namespace : Option Text → CronJob → Bool
in_namespace none job = true
in_namespace (some n) job = same job.namespace n

abbrev matching : Rows → List Condition → List Task
matching db conditions = keep_if (meets_all conditions) (members [] db.tasks) db.tasks

abbrev jobs_in : Rows → Option Text → List CronJob
jobs_in db namespace = keep_if (in_namespace namespace) (members [] db.jobs) db.jobs

abbrev pub database : Mysql
database = record {
  Db = Rows;
  find_task = λ db id. find db.tasks id;
  insert_task = insert_task;
  update_task = λ db id v t now. (
    matches_version v (find db.tasks id),
    record db { tasks = put id (written v t now (find db.tasks id)) db.tasks },
  );
  touch_task = λ db id now. record db { tasks = put id (touched now (find db.tasks id)) db.tasks };
  find_stale = λ db state before limit.
      take limit (keep_if (is_stale state before) (members [] db.tasks) db.tasks);
  has_running =
      λ db type namespace. any (keep_if (is_running type namespace) (members [] db.tasks) db.tasks);
  find_cron = λ db id. find db.jobs id;
  find_due = λ db now limit. take limit (keep_if (is_due now) (members [] db.jobs) db.jobs);
  claim_cron = λ db id expected last next. (
    matches_next_run expected (find db.jobs id),
    record db { jobs = put id (claimed_job expected last next last (find db.jobs id)) db.jobs },
  );
  count_tasks = λ db conditions. length (matching db conditions);
  select_tasks = λ db conditions limit offset. take limit (drop offset (matching db conditions));
  delete_terminal = λ db states before limit. (
    length (doomed db states before limit),
    record db { tasks = remove (doomed db states before limit) db.tasks },
  );
  insert_cron = insert_job;
  delete_cron = λ db id. record db { jobs = without [] id db.jobs };
  count_crons = λ db namespace. length (jobs_in db namespace);
  select_crons = λ db namespace limit offset. take limit (drop offset (jobs_in db namespace));
}

written-none : (v : ℕ) (t : Task) (now : ℕ) (o : Option Task) → written v t now o ≡ none → o ≡ none
written-none v t now none h = refl
written-none v t now (some row) h = ground arith

claimed-none :
    (expected last next : ℕ) (o : Option CronJob)
    → claimed_job expected last next last o ≡ none
    → o ≡ none
claimed-none expected last next none h = refl
claimed-none expected last next (some job) h = ground arith

find-insert :
    (db : Rows) (t : Task) (db' : Rows) (j : Text)
    → insert_task db t ≡ some db'
    → find db'.tasks j ≡ (
        if same t.id j
        then some (record t { version = or_old_count t.version 1 })
        else find db.tasks j)
find-insert db t db' j h =
    let put_lem =
      find-put db.tasks t.id (some (record t { version = or_old_count t.version 1 })) j
        (λ e. cc e) in
    elim (Option-cases (find db.tasks t.id)) [
      | inl e ↦ ground (arith, e, put_lem)
      | inr (row, e) ↦ ground (arith, e)
    ]

find_cron-insert :
    (db : Rows) (t : Task) (db' : Rows) (j : Text)
    → insert_task db t ≡ some db'
    → find db'.jobs j ≡ find db.jobs j
find_cron-insert db t db' j h = elim (Option-cases (find db.tasks t.id)) [
  | inl e ↦ ground (arith, e)
  | inr (row, e) ↦ ground (arith, e)
]

select_sound :
    (db : Rows) (conditions : List Condition) (limit offset : ℕ)
    → All (λ t. meets_all conditions t ≡ true) (take limit (drop offset (matching db conditions)))
select_sound db conditions limit offset =
    let sound = keep_if_sound (meets_all conditions) (members [] db.tasks) db.tasks in
    All-take _ limit (drop offset (matching db conditions))
      (All-drop _ offset (matching db conditions) sound)

is_old-parts :
    (states : List TaskState) (before : ℕ) (t : Task)
    → is_old states before t ≡ true
    → (in_states states t.state ≡ true) × (finished_before before t.finished_at ≡ true)
is_old-parts states before t h = (ground arith, ground arith)

find-delete :
    (db : Rows) (states : List TaskState) (before limit : ℕ) (j : Text)
    → (find (remove (doomed db states before limit) db.tasks) j ≡ find db.tasks j)
      ⊎ ((row : Task) × (find db.tasks j ≡ some row)
          × (in_states states row.state ≡ true)
          × (finished_before before row.finished_at ≡ true)
          × (find (remove (doomed db states before limit) db.tasks) j ≡ none))
find-delete db states before limit j =
    elim (find-sweep limit (is_old states before) (members [] db.tasks) db.tasks j) [
      | inl same_row ↦ inl same_row
      | inr (row, e, old, gone) ↦
          let parts = is_old-parts states before row old in inr (row, e, parts.0, parts.1, gone)
    ]

find_cron-insert_cron :
    (db : Rows) (job : CronJob) (db' : Rows) (j : Text)
    → insert_job db job ≡ some db'
    → find db'.jobs j ≡ (if same job.id j then some job else find db.jobs j)
find_cron-insert_cron db job db' j h =
    let put_lem = find-put db.jobs job.id (some job) j (λ e. cc e) in
    elim (Option-cases (find db.jobs job.id)) [
      | inl e ↦ ground (arith, e, put_lem)
      | inr (row, e) ↦ ground (arith, e)
    ]

stale_complete :
    (db : Rows) (state : TaskState) (before limit : ℕ) (id : Text) (row : Task)
    → find db.tasks id ≡ some row
    → row.state ≡ state
    → row.updated_at < before
    → length (take limit (keep_if (is_stale state before) (members [] db.tasks) db.tasks)) < limit
    → Occurs row (take limit (keep_if (is_stale state before) (members [] db.tasks) db.tasks))
stale_complete db state before limit id row e is old short =
    let rows = keep_if (is_stale state before) (members [] db.tasks) db.tasks in
    subst (Occurs row) (sym (take-whole limit rows short)) (
      Occurs-keep_if (is_stale state before) (members [] db.tasks) db.tasks id row
        (Occurs-members [] id row db.tasks e) e
        (rw (ap state_name is, same_refl (state_name state)) (ground arith)))

pub database-IsMysql : IsMysql database
database-IsMysql = record {
  rows-update = λ db id v t now. refl;
  find-update = λ db id v t now j.
      find-put db.tasks id (written v t now (find db.tasks id)) j (written-none v t now _);
  find_cron-update = λ db id v t now j. refl;
  rows-claim = λ db id expected last next. refl;
  find_cron-claim = λ db id expected last next j. (
    last,
    find-put db.jobs id (claimed_job expected last next last (find db.jobs id)) j
        (claimed-none expected last next _),
  );
  find-claim = λ db id expected last next j. refl;
  find-insert = find-insert;
  find_cron-insert = find_cron-insert;
  insert_taken = λ db t row e. ground (arith, e);
  select_sound = select_sound;
  select_limit =
      λ db conditions limit offset. length-take-le limit (drop offset (matching db conditions));
  stale_complete = stale_complete;
  due_sound = λ db now limit.
      All-take _ limit (keep_if (is_due now) (members [] db.jobs) db.jobs)
        (keep_if_sound (is_due now) (members [] db.jobs) db.jobs);
  due_limit =
      λ db now limit. length-take-le limit (keep_if (is_due now) (members [] db.jobs) db.jobs);
  find-delete = find-delete;
  find_cron-insert_cron = find_cron-insert_cron;
  find_cron-delete = λ db id j. find-without db.jobs id j;
}
