-- ===== src/Worker/Process.antt =====
-- `processTask` of worker_app_service.go.
pub mod Runs
use dispatchhub.Prelude.{
  ℕ, Text, Bool, true, false, Option, none, some, List, ◌++◌, codes, same, if◌then◌else◌,
}
use dispatchhub.Entity.{Task, TaskResult, is_terminal}
use dispatchhub.Entity.State.{TaskState, running, cancelled, state_name}
use dispatchhub.Redis.{Redis}
use dispatchhub.Redis.Call.{Reply}
use dispatchhub.Broker.Codec.{Codec}
use dispatchhub.Mysql.Interface.{Mysql}
use dispatchhub.Mysql.Tasks.{get}
use dispatchhub.Worker.Env.{
  Call, check, recheck, start, ask, World, Env, on_db, Handler, wrap, safe_handle,
}
use dispatchhub.Worker.Settle.{save, drop, handle_success, handle_failure}

abbrev pub is_row_terminal : Reply (Option Task) → Bool
is_row_terminal Reply.err = false
is_row_terminal (Reply.ok none) = false
is_row_terminal (Reply.ok (some t)) = is_terminal t

abbrev pub is_row_cancelled : Reply (Option Task) → Bool
is_row_cancelled Reply.err = false
is_row_cancelled (Reply.ok none) = false
is_row_cancelled (Reply.ok (some t)) = same (state_name t.state) (state_name cancelled)

abbrev pub running_task : Text → ℕ → Task → Task
running_task worker now task = record task {
  state = running;
  worker_id = worker;
  started_at = some now;
}

module _ (r : Redis) (c : Codec) (m : Mysql) (env : Env r m) where
  abbrev read : Call → Text → World r m → Reply (Option Task) × World r m
  read call id w = on_db r m env call (λ link at. get m link id) w

  -- The handler's error after its context has been cancelled: a Get tells whether the task was.
  unfoldable pub settle_error : Bool → Task → Text → World r m → World r m
  unfolding on_db drop
  settle_error is_cancelled task error w =
      if is_cancelled
      then (let (reply, w1) = read ask task.id w in
          if is_row_cancelled reply
          then drop r c m env task w1
          else handle_failure r c m env task error w1)
      else handle_failure r c m env task error w

  unfoldable pub settle_result : Bool → Task → Option TaskResult → World r m → World r m
  unfolding settle_error
  settle_result is_cancelled task none w = w
  settle_result is_cancelled task (some result) w = elim result.error [
    | some error ↦ settle_error is_cancelled task error w
    | none ↦ handle_success r c m env task result w
  ]

  -- From the look-up of the handler on. `is_cancelled` is whether the task's context was cancelled
  -- when the handler returned; an error of the Update to running is logged only.
  unfoldable pub run_handler :
      Text → Bool → List (Handler → Handler) → Option Handler → Task → World r m → World r m
  unfolding settle_result on_db
  run_handler worker is_cancelled middleware none task w =
      handle_failure r c m env task (codes "no handler for type: " ++ task.type) w
  run_handler worker is_cancelled middleware (some handler) task w =
      let (saved, w1) =
        on_db r m env start (save r c m env (running_task worker (env.now start) task)) w in
      settle_result is_cancelled saved.1 (safe_handle (wrap middleware handler) saved.1) w1

  -- After the second Get, which closes the window before the cancel function is registered.
  unfoldable pub after_recheck :
      Text
      → Bool
      → List (Handler → Handler)
      → Option Handler
      → Task
      → Reply (Option Task)
      → World r m
      → World r m
  unfolding run_handler
  after_recheck worker is_cancelled middleware handler task again w =
      if is_row_terminal again
      then drop r c m env task w
      else run_handler worker is_cancelled middleware handler task w

  unfoldable pub after_check :
      Text
      → Bool
      → List (Handler → Handler)
      → Option Handler
      → Task
      → Reply (Option Task)
      → World r m
      → World r m
  unfolding after_recheck
  after_check worker is_cancelled middleware handler task latest w =
      if is_row_terminal latest
      then drop r c m env task w
      else (let (again, w1) = read recheck task.id w in
          after_recheck worker is_cancelled middleware handler task again w1)

  unfoldable pub process_task :
      Text
      → Bool
      → List (Handler → Handler)
      → (Text → Option Handler)
      → Task
      → World r m
      → World r m
  unfolding after_check
  process_task worker is_cancelled middleware handlers task w =
      let (latest, w1) = read check task.id w in
      after_check worker is_cancelled middleware (handlers task.type) task latest w1
