-- ===== src/Mysql/Tasks/Queries.antt =====
-- What `List` returns and what `DeleteTerminalOlderThan` removes.
use dispatchhub.Prelude.{
  ℕ, ◌≤◌, ◌-◌, zero, suc, ◌≡◌, refl, sym, ◌∙◌, Text, Bool, true, none, some, ◌||◌, List, [], ◌∷◌,
  Option, same, is_empty, All, length, arith, ◌⊎◌, inl, inr,
}
use dispatchhub.Prelude.Int.{pos_part}
use dispatchhub.Entity.{Task, TaskFilter, is_terminal, terminal_state}
use dispatchhub.Entity.State.{
  TaskState, state_name, pending, scheduled, running, retrying, completed, failed, cancelled,
  timeout,
}
use dispatchhub.Mysql.Interface.{
  Mysql, IsMysql, Condition, namespace_is, group_is, type_is, queue_is, worker_is, meets, meets_all,
  in_states, finished_before,
}
use dispatchhub.Mysql.Tasks.{
  wanted, wanted_state, conditions_of, limit_of, list, delete_terminal_older_than, terminal_states,
}
use dispatchhub.Redis.Call.{up, cut, Link, Reply, run_script}

abbrev any_or : Text → Text → Bool
any_or want x = is_empty want || same x want

abbrev any_or_state : Option TaskState → TaskState → Bool
any_or_state none x = true
any_or_state (some want) x = same (state_name x) (state_name want)

-- The task has every value that the filter gives.
abbrev pub Fits : TaskFilter → Task → Type 0
Fits f t =
    (any_or f.namespace t.namespace ≡ true)
    × (any_or f.group t.group ≡ true)
    × (any_or f.type t.type ≡ true)
    × (any_or_state f.state t.state ≡ true)
    × (any_or f.queue_name t.queue_name ≡ true)
    × (any_or f.worker_id t.worker_id ≡ true)

All-map : {P Q : Task → Type 0} (ts : List Task) → ((t : Task) → P t → Q t) → All P ts → All Q ts
All-map [] f h = tt
All-map (t ∷ ts) f h = (f t h.0, All-map ts f h.1)

in_states_lem : (x : TaskState) → in_states terminal_states x ≡ terminal_state x
unfolding same state_name
in_states_lem pending = refl
in_states_lem scheduled = refl
in_states_lem running = refl
in_states_lem retrying = refl
in_states_lem completed = refl
in_states_lem failed = refl
in_states_lem cancelled = refl
in_states_lem timeout = refl

is_terminal-in_states : (t : Task) → in_states terminal_states t.state ≡ is_terminal t
unfolding is_terminal
is_terminal-in_states t = in_states_lem t.state

wanted-meets :
    (x : Text) (condition : Text → Condition) (rest : List Condition) (t : Task)
    → meets_all (wanted x condition rest) t ≡ true
    → ((is_empty x || meets t (condition x)) ≡ true) × (meets_all rest t ≡ true)
wanted-meets x condition rest t h = ground arith

wanted_state-meets :
    (o : Option TaskState) (rest : List Condition) (t : Task)
    → meets_all (wanted_state o rest) t ≡ true
    → (any_or_state o t.state ≡ true) × (meets_all rest t ≡ true)
wanted_state-meets none rest t h = (refl, h)
wanted_state-meets (some x) rest t h = ground arith

module _ (m : Mysql) (mysql : IsMysql m) where
  conditions_of-Fits : (f : TaskFilter) (t : Task) → meets_all (conditions_of f) t ≡ true → Fits f t
  unfolding conditions_of
  conditions_of-Fits f t h =
      let (n, h1) = wanted-meets f.namespace namespace_is _ t h in
      let (g, h2) = wanted-meets f.group group_is _ t h1 in
      let (y, h3) = wanted-meets f.type type_is _ t h2 in
      let (x, h4) = wanted_state-meets f.state _ t h3 in
      let (q, h5) = wanted-meets f.queue_name queue_is _ t h4 in
      let (w, h6) = wanted-meets f.worker_id worker_is _ t h5 in (n, g, y, x, q, w)

  -- List changes nothing, and returns rows that have every value the filter gives, as many as its
  -- limit at most, or 100 when it has none.
  pub list_outcome :
      (f : TaskFilter) (db : m.Db)
      → (total : ℕ) × (ts : List Task) × (list m up up f db ≡ (Reply.ok (total, ts), db))
        × All (Fits f) ts
        × (length ts ≤ limit_of f.limit)
  unfolding list
  list_outcome f db =
      let cs = conditions_of f in
      let ts = m.select_tasks db cs (limit_of f.limit) (pos_part f.offset) in
      (
        m.count_tasks db cs,
        ts,
        refl,
        All-map ts (conditions_of-Fits f) (mysql.select_sound db cs _ _),
        mysql.select_limit db cs _ _,
      )

  swept :
      (now older_than limit : ℕ) (db : m.Db) (j : Text)
      → let db' = (m.delete_terminal db terminal_states (now - older_than) limit).1 in
        (m.find_task db' j ≡ m.find_task db j)
        ⊎ ((row : Task) × (m.find_task db j ≡ some row)
            × (is_terminal row ≡ true)
            × (finished_before (now - older_than) row.finished_at ≡ true)
            × (m.find_task db' j ≡ none))
  swept now older_than limit db j =
      elim (mysql.find-delete db terminal_states (now - older_than) limit j) [
        | inl e ↦ inl e
        | inr (row, e, x, f, gone) ↦ inr (row, e, sym (is_terminal-in_states row) ∙ x, f, gone)
      ]

  -- DeleteTerminalOlderThan, however the call ends, keeps every row but terminal ones that finished
  -- before the threshold.
  pub cleanup_keeps :
      (link : Link) (now older_than limit : ℕ) (db : m.Db) (j : Text)
      → let (reply, db') = delete_terminal_older_than m link now older_than limit db in
        (m.find_task db' j ≡ m.find_task db j)
        ⊎ ((row : Task) × (m.find_task db j ≡ some row)
            × (is_terminal row ≡ true)
            × (finished_before (now - older_than) row.finished_at ≡ true)
            × (m.find_task db' j ≡ none))
  unfolding delete_terminal_older_than run_script
  cleanup_keeps up now older_than limit db j = swept now older_than limit db j
  cleanup_keeps (cut zero) now older_than limit db j = inl refl
  cleanup_keeps (cut (suc n)) now older_than limit db j = swept now older_than limit db j
