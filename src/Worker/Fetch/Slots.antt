-- ===== src/Worker/Fetch/Slots.antt =====
-- How many tasks run at a time, and how long the loop waits.
use dispatchhub.Prelude.{ℕ, ◌+◌, ◌*◌, ◌≤◌, ◌<◌, ◌≡◌, refl, ap, arith}
use dispatchhub.Worker.Fetch.{
  Phase, waiting, fetching, backing_off, Fetch, min_backoff, max_backoff, next_backoff, fetch_start,
  slot_acquired, dequeue_failed, queues_empty, wait_over, task_spawned, task_finished,
}

-- The steps of a worker with this concurrency. A send on the full channel blocks.
pub data Step (concurrency : ℕ) : Fetch → Fetch → Type 0 where
  acquire :
      (f : Fetch) → f.phase ≡ waiting → f.slots < concurrency → Step concurrency f (slot_acquired f)
  fail : (f : Fetch) → f.phase ≡ fetching → Step concurrency f (dequeue_failed f)
  find_none : (f : Fetch) → f.phase ≡ fetching → Step concurrency f (queues_empty f)
  wait : (f : Fetch) → f.phase ≡ backing_off → Step concurrency f (wait_over f)
  spawn : (f : Fetch) → f.phase ≡ fetching → Step concurrency f (task_spawned f)
  finish : (f : Fetch) → 0 < f.running → Step concurrency f (task_finished f)

pub data Reached (concurrency : ℕ) : Fetch → Type 0 where
  at_start : Reached concurrency fetch_start
  then_step : {f g : Fetch} → Reached concurrency f → Step concurrency f g → Reached concurrency g

-- The slot that the loop itself holds.
abbrev pub own : Phase → ℕ
own waiting = 0
own fetching = 1
own backing_off = 0

-- Each slot belongs to a task or to the loop, and there are no more than the channel holds.
abbrev pub IsBalanced : ℕ → Fetch → Type 0
IsBalanced concurrency f =
    (f.slots ≡ f.running + own f.phase)
    × (f.slots ≤ concurrency)
    × (min_backoff ≤ f.backoff)
    × (f.backoff < max_backoff * 2)

next_backoff-least : (b : ℕ) → min_backoff ≤ b → min_backoff ≤ next_backoff b
unfolding next_backoff
next_backoff-least b h = ground arith

next_backoff-most : (b : ℕ) → b < max_backoff * 2 → next_backoff b < max_backoff * 2
unfolding next_backoff
next_backoff-most b h = ground arith

Step-IsBalanced : (n : ℕ) {f g : Fetch} → Step n f g → IsBalanced n f → IsBalanced n g
unfolding slot_acquired dequeue_failed queues_empty wait_over task_spawned task_finished
Step-IsBalanced n (acquire f e room) (own_slots, most, low, high) =
    let o = ap own e in (omega (arith, o), omega arith, low, high)
Step-IsBalanced n (fail f e) (own_slots, most, low, high) =
    let o = ap own e in (omega (arith, o), omega arith, low, high)
Step-IsBalanced n (find_none f e) (own_slots, most, low, high) =
    let o = ap own e in (omega (arith, o), omega arith, low, high)
Step-IsBalanced n (wait f e) (own_slots, most, low, high) =
    let o = ap own e in
    (omega (arith, o), most, next_backoff-least f.backoff low, next_backoff-most f.backoff high)
Step-IsBalanced n (spawn f e) (own_slots, most, low, high) =
    let o = ap own e in (omega (arith, o), most, omega arith, omega arith)
Step-IsBalanced n (finish f busy) (own_slots, most, low, high) =
    (omega arith, omega arith, low, high)

Reached-IsBalanced : (n : ℕ) {f : Fetch} → Reached n f → IsBalanced n f
Reached-IsBalanced n at_start = (refl, omega arith, omega arith, omega arith)
Reached-IsBalanced n (then_step r s) = Step-IsBalanced n s (Reached-IsBalanced n r)

-- Whatever order the steps come in, no more tasks run than the worker's concurrency, every slot of the
-- semaphore belongs to one of them or to the loop, and the backoff is at least the least and below twice
-- the most.
pub fetch_bounds :
    (concurrency : ℕ) (f : Fetch)
    → Reached concurrency f
    → (f.running ≤ concurrency)
      × (f.slots ≡ f.running + own f.phase)
      × (min_backoff ≤ f.backoff)
      × (f.backoff < max_backoff * 2)
fetch_bounds concurrency f r =
    let (slots, most, low, high) = Reached-IsBalanced concurrency r in
    (omega arith, slots, low, high)
