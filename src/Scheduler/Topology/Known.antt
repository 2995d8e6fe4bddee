-- ===== src/Scheduler/Topology/Known.antt =====
-- Which workers are known after which calls.
use dispatchhub.Prelude.{
  ℕ, Text, Bool, false, Option, none, some, List, [], ◌∷◌, ◌≡◌, refl, same, same_iff, contains,
  if◌then◌else◌, arith, Bool-cases, inl, inr,
}
use dispatchhub.Entity.Worker.{
  WorkerInfo, is_online, WorkerEvent, WorkerEventType, joined, left, updated,
}
use dispatchhub.Redis.Call.{Reply}
use dispatchhub.Scheduler.Topology.{
  Workers, put_worker, remove_worker, put_online, sync_workers, by_type, handle_worker_event,
  missed_heartbeat, detect_stale_workers,
}

-- s.workers[id]
abbrev pub find_worker : Text → Workers → Option WorkerInfo
find_worker j [] = none
find_worker j ((id, w) ∷ ws) = if same id j then some w else find_worker j ws

-- No id has two entries.
abbrev pub IsMap : Workers → Type 0
IsMap [] = Unit
IsMap ((id, w) ∷ ws) = (find_worker id ws ≡ none) × IsMap ws

pub find_worker-put :
    (j id : Text) (w : WorkerInfo) (ws : Workers)
    → find_worker j (put_worker id w ws) ≡ (if same id j then some w else find_worker j ws)
unfolding put_worker
find_worker-put j id w [] = refl
find_worker-put j id w ((key, v) ∷ ws) =
    ground (arith, find_worker-put j id w ws, same_iff key id, same_iff key j, same_iff id j)

find_worker-remove :
    (j id : Text) (ws : Workers)
    → find_worker j (remove_worker id ws) ≡ (if same id j then none else find_worker j ws)
unfolding remove_worker
find_worker-remove j id [] = ground arith
find_worker-remove j id ((key, v) ∷ ws) =
    ground (arith, find_worker-remove j id ws, same_iff key id, same_iff key j, same_iff id j)

put_worker-IsMap :
    (id : Text) (w : WorkerInfo) (ws : Workers) → IsMap ws → IsMap (put_worker id w ws)
unfolding put_worker
put_worker-IsMap id w [] h = (refl, tt)
put_worker-IsMap id w ((key, v) ∷ ws) (new, h) = elim (Bool-cases (same key id)) [
  | inl e ↦ rw e (new, h)
  | inr e ↦ rw e (
    ground (arith, find_worker-put key id w ws, same_iff key id, same_iff id key),
    put_worker-IsMap id w ws h,
  )
]

remove_worker-IsMap : (id : Text) (ws : Workers) → IsMap ws → IsMap (remove_worker id ws)
unfolding remove_worker
remove_worker-IsMap id [] h = tt
remove_worker-IsMap id ((key, v) ∷ ws) (new, h) = elim (Bool-cases (same key id)) [
  | inl e ↦ rw e (remove_worker-IsMap id ws h)
  | inr e ↦ rw e (ground (arith, find_worker-remove key id ws), remove_worker-IsMap id ws h)
]

put_online-IsMap :
    (workers : List WorkerInfo) (ws : Workers) → IsMap ws → IsMap (put_online workers ws)
unfolding put_online
put_online-IsMap [] ws h = h
put_online-IsMap (w ∷ rest) ws h = elim (Bool-cases (is_online w.state)) [
  | inl e ↦ rw e (put_online-IsMap rest (put_worker w.id w ws) (put_worker-IsMap w.id w ws h))
  | inr e ↦ rw e (put_online-IsMap rest ws h)
]

-- What an event says of the worker that it names, given what was known of it.
abbrev pub told : WorkerEventType → Option WorkerInfo → Option WorkerInfo → Option WorkerInfo
told left w old = none
told joined none old = old
told joined (some w) old = some w
told updated none old = old
told updated (some w) old = some w

by_type_lem :
    (type : WorkerEventType) (id : Text) (w : Option WorkerInfo) (ws : Workers) (j : Text)
    → find_worker j (by_type type id w ws)
      ≡ (if same id j then told type w (find_worker j ws) else find_worker j ws)
by_type_lem left id w ws j = find_worker-remove j id ws
by_type_lem joined id none ws j = ground arith
by_type_lem joined id (some w) ws j = find_worker-put j id w ws
by_type_lem updated id none ws j = ground arith
by_type_lem updated id (some w) ws j = find_worker-put j id w ws

-- An event changes what is known of the worker that it names, and of no other; an event without its
-- worker changes nothing unless the worker left.
pub event_outcome :
    (event : WorkerEvent) (ws : Workers) (j : Text)
    → find_worker j (handle_worker_event event ws) ≡ (
        if same event.worker_id j
        then told event.type event.worker (find_worker j ws)
        else find_worker j ws)
unfolding handle_worker_event
event_outcome event ws j = by_type_lem event.type event.worker_id event.worker ws j

abbrev unless_stale : ℕ → ℕ → Option WorkerInfo → Option WorkerInfo
unless_stale now threshold none = none
unless_stale now threshold (some w) = if missed_heartbeat now threshold w then none else some w

abbrev was_stale : ℕ → ℕ → Option WorkerInfo → Bool
was_stale now threshold none = false
was_stale now threshold (some w) = missed_heartbeat now threshold w

detect-absent :
    (now threshold : ℕ) (ws : Workers) (j : Text)
    → find_worker j ws ≡ none
    → (find_worker j (detect_stale_workers now threshold ws).1 ≡ none)
      × (contains j (detect_stale_workers now threshold ws).0 ≡ false)
unfolding detect_stale_workers contains
detect-absent now threshold [] j h = (refl, refl)
detect-absent now threshold ((id, w) ∷ ws) j h = ground (arith, detect-absent now threshold ws j)

-- In a map the workers that missed their heartbeat are dropped, the others kept, and the ids that come
-- back are those of the dropped ones.
pub detect_outcome :
    (now threshold : ℕ) (ws : Workers) (j : Text)
    → IsMap ws
    → (find_worker j (detect_stale_workers now threshold ws).1
        ≡ unless_stale now threshold (find_worker j ws))
      × (contains j (detect_stale_workers now threshold ws).0
          ≡ was_stale now threshold (find_worker j ws))
unfolding detect_stale_workers contains
detect_outcome now threshold [] j h = (refl, refl)
detect_outcome now threshold ((id, w) ∷ ws) j (new, h) = ground (
  arith,
  detect_outcome now threshold ws j h,
  detect-absent now threshold ws id new,
  same_iff id j,
)

detect-IsMap :
    (now threshold : ℕ) (ws : Workers) → IsMap ws → IsMap (detect_stale_workers now threshold ws).1
unfolding detect_stale_workers
detect-IsMap now threshold [] h = tt
detect-IsMap now threshold ((id, w) ∷ ws) (new, h) =
    elim (Bool-cases (missed_heartbeat now threshold w)) [
      | inl e ↦ rw e (detect-IsMap now threshold ws h)
      | inr e ↦ rw e ((detect-absent now threshold ws id new).0, detect-IsMap now threshold ws h)
    ]

-- The calls that change what is known.
pub data Step : Workers → Workers → Type 0 where
  synced : (workers : Reply (List WorkerInfo)) (ws : Workers) → Step ws (sync_workers workers ws).1
  event : (e : WorkerEvent) (ws : Workers) → Step ws (handle_worker_event e ws)
  checked : (now threshold : ℕ) (ws : Workers) → Step ws (detect_stale_workers now threshold ws).1

-- What is known after some calls, from a new service on.
pub data Reached : Workers → Type 0 where
  started : Reached []
  then_step : {ws ws' : Workers} → Reached ws → Step ws ws' → Reached ws'

by_type-IsMap :
    (type : WorkerEventType) (id : Text) (w : Option WorkerInfo) (ws : Workers)
    → IsMap ws
    → IsMap (by_type type id w ws)
by_type-IsMap left id w ws h = remove_worker-IsMap id ws h
by_type-IsMap joined id none ws h = h
by_type-IsMap joined id (some w) ws h = put_worker-IsMap id w ws h
by_type-IsMap updated id none ws h = h
by_type-IsMap updated id (some w) ws h = put_worker-IsMap id w ws h

Step-IsMap : {ws ws' : Workers} → Step ws ws' → IsMap ws → IsMap ws'
unfolding sync_workers handle_worker_event
Step-IsMap (synced Reply.err ws) h = h
Step-IsMap (synced (Reply.ok workers) ws) h = put_online-IsMap workers [] tt
Step-IsMap (event e ws) h = by_type-IsMap e.type e.worker_id e.worker ws h
Step-IsMap (checked now threshold ws) h = detect-IsMap now threshold ws h

-- Whatever the scheduler has been told, no worker has two entries.
pub known-IsMap : {ws : Workers} → Reached ws → IsMap ws
known-IsMap started = tt
known-IsMap (then_step r s) = Step-IsMap s (known-IsMap r)
