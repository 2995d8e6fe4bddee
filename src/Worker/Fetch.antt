-- ===== src/Worker/Fetch.antt =====
-- `fetchLoop` of worker_app_service.go with the goroutines that it starts, as steps: the semaphore, the
-- tasks that run, and the backoff. Each step is one that the scheduler of goroutines may take next. The end of the loop is left out.
pub mod Slots
use dispatchhub.Prelude.{ℕ, suc, ◌-◌, ◌*◌, ◌<◌, ltb, if◌then◌else◌}

-- Before the loop has a slot of the semaphore, while it calls Dequeue, and while it waits after it has
-- found no task.
pub data Phase : Type 0 where
  waiting fetching backing_off : Phase

-- `slots` counts the values in the channel `sem`.
pub record Fetch : Type 0 where
  pub phase : Phase
  pub slots : ℕ
  pub running : ℕ
  pub backoff : ℕ

abbrev pub min_backoff : ℕ
min_backoff = 100000000

abbrev pub max_backoff : ℕ
max_backoff = 2000000000

-- The backoff after a wait for a task.
unfoldable pub next_backoff : ℕ → ℕ
next_backoff backoff = if ltb backoff max_backoff then backoff * 2 else backoff

abbrev pub fetch_start : Fetch
fetch_start = record { phase = waiting; slots = 0; running = 0; backoff = min_backoff }

unfoldable pub slot_acquired : Fetch → Fetch
slot_acquired f = record f { phase = fetching; slots = suc f.slots }

-- After an error of Dequeue.
unfoldable pub dequeue_failed : Fetch → Fetch
dequeue_failed f = record f { phase = waiting; slots = f.slots - 1 }

-- Dequeue has returned no task.
unfoldable pub queues_empty : Fetch → Fetch
queues_empty f = record f { phase = backing_off; slots = f.slots - 1 }

unfoldable pub wait_over : Fetch → Fetch
unfolding next_backoff
wait_over f = record f { phase = waiting; backoff = next_backoff f.backoff }

-- The slot of a task is given back by its goroutine.
unfoldable pub task_spawned : Fetch → Fetch
task_spawned f = record f { phase = waiting; running = suc f.running; backoff = min_backoff }

unfoldable pub task_finished : Fetch → Fetch
task_finished f = record f { slots = f.slots - 1; running = f.running - 1 }
