-- ===== src/Mysql/Tasks.antt =====
-- internal/shared/infrastructure/persistence/mysql/task_repository.go.
pub mod Locking
pub mod Queries
use dispatchhub.Prelude.{
  ℕ, suc, Text, Bool, Option, none, some, List, [], ◌==◌, if◌then◌else◌, ◌-◌, ◌+◌,
}
use dispatchhub.Prelude.{is_empty, ◌∷◌}
use dispatchhub.Prelude.Int.{ℤ, pos, pos_part, ltb_ℤ}
use dispatchhub.Entity.{Task, TaskFilter}
use dispatchhub.Entity.State.{TaskState, completed, failed, cancelled, timeout}
use dispatchhub.Mysql.Interface.{
  Mysql, or_old_count, Condition, namespace_is, group_is, type_is, state_is, queue_is, worker_is,
}
use dispatchhub.Redis.Call.{Link, Reply, run_script}

pub data UpdateResult : Type 0 where
  updated conflict db_error : UpdateResult

abbrev pub wanted : Text → (Text → Condition) → List Condition → List Condition
wanted x condition rest = if is_empty x then rest else condition x ∷ rest

abbrev pub wanted_state : Option TaskState → List Condition → List Condition
wanted_state none rest = rest
wanted_state (some x) rest = state_is x ∷ rest

-- The filter's labels are not read.
unfoldable pub conditions_of : TaskFilter → List Condition
conditions_of f = wanted f.namespace namespace_is (
    wanted f.group group_is (
      wanted f.type type_is
        (wanted_state f.state (wanted f.queue_name queue_is (wanted f.worker_id worker_is [])))))

abbrev pub limit_of : ℤ → ℕ
limit_of limit = if ltb_ℤ (pos 0) limit then pos_part limit else 100

abbrev pub paired : {A B : Type 0} → Reply A → Reply B → Reply (A × B)
paired (Reply.ok a) (Reply.ok b) = Reply.ok (a, b)
paired (Reply.ok a) Reply.err = Reply.err
paired Reply.err b = Reply.err

abbrev pub unless_failed : {A B D : Type 0} → Reply A → Reply B × D → D → Reply (A × B) × D
unless_failed Reply.err next db = (Reply.err, db)
unless_failed (Reply.ok a) next db = (paired (Reply.ok a) next.0, next.1)

abbrev pub terminal_states : List TaskState
terminal_states = completed ∷ failed ∷ cancelled ∷ timeout ∷ []

module _ (m : Mysql) where
  open m use {Db}

  -- GORM writes the default version into the struct before the INSERT.
  abbrev pub with_version : Task → Task
  with_version t = record t { version = or_old_count t.version 1 }

  abbrev pub inserted : m.Db → Option m.Db → Reply (Unit {0}) × m.Db
  inserted db none = (Reply.err, db)
  inserted db (some db') = (Reply.ok tt, db')

  abbrev pub create_result : Task → Reply (Unit {0}) × m.Db → Bool × Task × m.Db
  create_result task (Reply.ok u, db) = (Bool.true, with_version task, db)
  create_result task (Reply.err, db) = (Bool.false, with_version task, db)

  unfoldable pub create : Link → Task → Db → Bool × Task × Db
  unfolding run_script
  create link task db =
      create_result task (run_script link (λ d. inserted d (m.insert_task d task)) db)

  -- `Reply.ok none` is (nil, nil): no such row.
  unfoldable pub get : Link → Text → Db → Reply (Option Task) × Db
  unfolding run_script
  get link id db = run_script link (λ d. (Reply.ok (m.find_task d id), d)) db

  abbrev update_result : Reply ℕ → UpdateResult
  update_result Reply.err = db_error
  update_result (Reply.ok rows) = if rows == 0 then conflict else updated

  -- The version in memory rises before the query is sent, whatever becomes of the query. GORM also
  -- writes the new `updated_at` into the struct.
  unfoldable pub update : Link → ℕ → Task → Db → UpdateResult × Task × Db
  unfolding run_script
  update link now task db =
      let old_version = task.version in
      let task' : Task = record task { version = task.version + 1; updated_at = now } in
      let (reply, db') =
        run_script link
          (λ d.
            let (rows, d') = m.update_task d task.id old_version task' now in (Reply.ok rows, d'))
          db in
      (update_result reply, task', db')

  unfoldable pub find_stale_by_state : Link → ℕ → TaskState → ℕ → ℕ → Db → Reply (List Task) × Db
  unfolding run_script
  find_stale_by_state link now state older_than limit db =
      run_script link (λ d. (Reply.ok (m.find_stale d state (now - older_than) limit), d)) db

  unfoldable pub touch_updated_at : Link → ℕ → Text → Db → Reply (Unit {0}) × Db
  unfolding run_script
  touch_updated_at link now id db = run_script link (λ d. (Reply.ok tt, m.touch_task d id now)) db

  unfoldable pub has_running_tasks : Link → Text → Text → Db → Reply Bool × Db
  unfolding run_script
  has_running_tasks link type namespace db =
      run_script link (λ d. (Reply.ok (m.has_running d type namespace), d)) db

  -- The rows and their count without the limit.
  unfoldable pub list : Link → Link → TaskFilter → Db → Reply (ℕ × List Task) × Db
  unfolding run_script conditions_of
  list count_link select_link filter db =
      let conditions = conditions_of filter in
      let (total, db') =
        run_script count_link (λ d. (Reply.ok (m.count_tasks d conditions), d)) db in
      unless_failed total
        (run_script select_link
          (λ d. (
            Reply.ok (m.select_tasks d conditions (limit_of filter.limit) (pos_part filter.offset)),
            d,
          ))
          db')
        db'

  unfoldable pub delete_terminal_older_than : Link → ℕ → ℕ → ℕ → Db → Reply ℕ × Db
  unfolding run_script
  delete_terminal_older_than link now older_than limit db =
      run_script link
        (λ d.
          let (rows, d') = m.delete_terminal d terminal_states (now - older_than) limit in
          (Reply.ok rows, d'))
        db
