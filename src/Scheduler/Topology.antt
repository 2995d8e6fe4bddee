-- ===== src/Scheduler/Topology.antt =====
-- The workers that the scheduler knows, and what it takes from them: SyncWorkers, HandleWorkerEvent,
-- DetectStaleWorkers and Queues of internal/scheduler/domain/service/scheduler.go. The map is a list of
-- entries, and the order in which Go visits a map is that of the list.
pub mod Known
pub mod Reading
use dispatchhub.Prelude.{
  ℕ, Text, Bool, true, false, Option, none, some, List, [], ◌∷◌, same, add_all, codes, length,
  if◌then◌else◌,
}
use dispatchhub.Prelude.Int.{pos, sub_ℕ, ltb_ℤ}
use dispatchhub.Entity.Worker.{
  WorkerInfo, is_online, WorkerEvent, WorkerEventType, joined, left, updated,
}
use dispatchhub.Redis.Call.{Reply}

abbrev pub Workers : Type 0
Workers = List (Text × WorkerInfo)

-- s.workers[id] = w
unfoldable pub put_worker : Text → WorkerInfo → Workers → Workers
put_worker id w [] = (id, w) ∷ []
put_worker id w ((key, v) ∷ ws) =
    let rest = put_worker id w ws in if same key id then (key, w) ∷ ws else (key, v) ∷ rest

-- delete(s.workers, id)
unfoldable pub remove_worker : Text → Workers → Workers
remove_worker id [] = []
remove_worker id ((key, v) ∷ ws) =
    let rest = remove_worker id ws in if same key id then rest else (key, v) ∷ rest

-- The loop of SyncWorkers.
unfoldable pub put_online : List WorkerInfo → Workers → Workers
unfolding put_worker
put_online [] ws = ws
put_online (w ∷ rest) ws = put_online rest (if is_online w.state then put_worker w.id w ws else ws)

unfoldable pub sync_workers : Reply (List WorkerInfo) → Workers → Reply ℕ × Workers
unfolding put_online
sync_workers Reply.err ws = (Reply.err, ws)
sync_workers (Reply.ok workers) ws = let ws' = put_online workers [] in (Reply.ok (length ws'), ws')

abbrev put_if : Text → Option WorkerInfo → Workers → Workers
put_if id none ws = ws
put_if id (some w) ws = put_worker id w ws

abbrev by_type : WorkerEventType → Text → Option WorkerInfo → Workers → Workers
by_type joined id w ws = put_if id w ws
by_type left id w ws = remove_worker id ws
by_type updated id w ws = put_if id w ws

unfoldable pub handle_worker_event : WorkerEvent → Workers → Workers
handle_worker_event event ws = by_type event.type event.worker_id event.worker ws

-- w.LastHeartbeat.Before(time.Now().Add(-staleThreshold))
abbrev pub missed_heartbeat : ℕ → ℕ → WorkerInfo → Bool
missed_heartbeat now threshold w = ltb_ℤ (pos w.last_heartbeat) (sub_ℕ now threshold)

-- The ids that are stale, and the workers that are left.
unfoldable pub detect_stale_workers : ℕ → ℕ → Workers → List Text × Workers
detect_stale_workers now threshold [] = ([], [])
detect_stale_workers now threshold ((id, w) ∷ ws) =
    let (stale, kept) = detect_stale_workers now threshold ws in
    if missed_heartbeat now threshold w then (id ∷ stale, kept) else (stale, (id, w) ∷ kept)

unfoldable pub queue_set : Workers → List Text → List Text
queue_set [] set = set
queue_set ((id, w) ∷ ws) set = queue_set ws (add_all w.queues set)

abbrev pub default_queue : Text
default_queue = codes "default"

abbrev or_default : List Text → List Text
or_default [] = default_queue ∷ []
or_default (q ∷ qs) = q ∷ qs

unfoldable pub queues : Workers → List Text
unfolding queue_set
queues ws = or_default (queue_set ws [])
