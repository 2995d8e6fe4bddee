-- ===== src/Tests/Fetching.antt =====
-- A run of the fetch loop of a worker with one slot: it finds a task and starts it.
use dispatchhub.Prelude.{◌≤◌, ◌<◌, ◌*◌, ◌+◌, ◌≡◌, refl, arith}
use dispatchhub.Worker.Fetch.{
  fetching, min_backoff, max_backoff, fetch_start, slot_acquired, task_spawned,
}
use dispatchhub.Worker.Fetch.Slots.{Reached, Step, own, fetch_bounds}

at_dequeue : (slot_acquired fetch_start).phase ≡ fetching
unfolding slot_acquired
at_dequeue = refl

fetch_bounds_example :
    let f = task_spawned (slot_acquired fetch_start) in
    (f.running ≤ 1)
    × (f.slots ≡ f.running + own f.phase)
    × (min_backoff ≤ f.backoff)
    × (f.backoff < max_backoff * 2)
fetch_bounds_example = fetch_bounds 1 (task_spawned (slot_acquired fetch_start)) (
    Reached.then_step
      (Reached.then_step Reached.at_start (Step.acquire fetch_start refl (omega arith)))
      (Step.spawn (slot_acquired fetch_start) at_dequeue))
