-- ===== src/Registry/Listing.antt =====
-- SyncWorkers of internal/scheduler/domain/service/scheduler.go on the listing of worker_registry.go, and the
-- watch that follows it.
use dispatchhub.Prelude.{
  ◌≡◌, refl, ap, ◌∙◌, sym, Text, Bool, true, false, Option, none, some, List, [], ◌∷◌, All, same,
  same_iff, if◌then◌else◌,
}
use dispatchhub.Entity.Worker.{WorkerInfo, is_online}
use dispatchhub.Redis.Call.{Reply}
use dispatchhub.Registry.{Etcd, Json, worker_key, Change, workers_of, keep_decoded, previous}
use dispatchhub.Registry.Watch.{
  all_changed, view_of, IsWritten, IsEntry, IsListing, worker_at, deliver, Follows, changed_at,
  deliver-Follows,
}
use dispatchhub.Scheduler.Topology.{Workers, sync_workers, put_online, put_worker}
use dispatchhub.Scheduler.Topology.Known.{find_worker, find_worker-put}

module _ (e : Etcd) (json : Json) where
  -- What the listing says of an id, and what was known if it says nothing.
  or_known : Option WorkerInfo → Option WorkerInfo → Option WorkerInfo
  or_known none old = old
  or_known (some w) old = some w

  or_known-none : (o : Option WorkerInfo) → or_known o none ≡ o
  unfolding or_known
  or_known-none none = refl
  or_known-none (some w) = refl

  -- The entry put first is not overwritten by the later ones, which have other keys.
  or_known-put :
      (w : WorkerInfo) (at old : Option WorkerInfo) (same_id : Bool)
      → (same_id ≡ true → at ≡ none)
      → or_known at (if same_id then some w else old)
        ≡ or_known (if same_id then some w else at) old
  unfolding or_known
  or_known-put w at old true new = rw (new refl) refl
  or_known-put w at old false new = refl

  put_online-cons :
      (w : WorkerInfo) (rest : List WorkerInfo) (ws : Workers)
      → is_online w.state ≡ true
      → put_online (w ∷ rest) ws ≡ put_online rest (put_worker w.id w ws)
  unfolding put_online
  put_online-cons w rest ws live =
      ap (λ b. put_online rest (if b then put_worker w.id w ws else ws)) live

  worker_at-cons :
      (key value : Text) (w : WorkerInfo) (kvs : List (Text × Text)) (j : Text)
      → json.unmarshal value ≡ some w
      → key ≡ worker_key w.id
      → worker_at e json (view_of ((key, value) ∷ kvs)) j
        ≡ (if same w.id j then some w else worker_at e json (view_of kvs) j)
  worker_at-cons key value w kvs j back at =
      ap (λ k. worker_at e json (view_of ((k, value) ∷ kvs)) j) at
      ∙ (changed_at e json w.id j (some value) (view_of kvs (worker_key j))
          ∙ ap (λ o. if same w.id j then o else worker_at e json (view_of kvs) j) back)

  -- The workers of a listing are known, each under the key of its id.
  put_online-workers :
      (kvs : List (Text × Text)) (ws : Workers) (j : Text)
      → IsListing e json kvs
      → All (IsEntry e json) kvs
      → find_worker j (put_online (workers_of e json kvs) ws)
        ≡ or_known (worker_at e json (view_of kvs) j) (find_worker j ws)
  unfolding or_known workers_of put_online
  put_online-workers [] ws j fresh ok = refl
  put_online-workers ((key, value) ∷ kvs) ws j (new, fresh) ((w, back, at, live), ok) =
      let at_rest = worker_at e json (view_of kvs) in
      let rest = workers_of e json kvs in
      let alone : same w.id j ≡ true → at_rest j ≡ none = λ h.
        ap at_rest (sym ((same_iff w.id j).0 h))
        ∙ ap (λ o. previous e json o) (ap (view_of kvs) (sym at) ∙ new) in
      ap (λ o. find_worker j (put_online (keep_decoded e json o rest) ws)) back
      ∙ (ap (find_worker j) (put_online-cons w rest ws live)
          ∙ (put_online-workers kvs (put_worker w.id w ws) j fresh ok
              ∙ (ap (or_known (at_rest j)) (find_worker-put j w.id w ws)
                  ∙ (or_known-put w (at_rest j) (find_worker j ws) (same w.id j) alone
                      ∙ ap (λ o. or_known o (find_worker j ws))
                          (sym (worker_at-cons key value w kvs j back at))))))

  -- Once the scheduler has synced with a listing of online workers, each under its own key, and handled the
  -- events of all the changes since, each to the key of a worker with a value that decodes, it knows of
  -- every id the worker that its key holds, and none where there is no key.
  pub registry_in_step :
      (kvs : List (Text × Text)) (changes : List Change) (ws : Workers)
      → IsListing e json kvs
      → All (IsEntry e json) kvs
      → All (IsWritten e json) changes
      → Follows e json
          (deliver e json changes (sync_workers (Reply.ok (workers_of e json kvs)) ws).1)
          (all_changed changes (view_of kvs))
  unfolding sync_workers
  registry_in_step kvs changes ws fresh ok written =
      deliver-Follows e json changes (put_online (workers_of e json kvs) []) (view_of kvs) written
        (λ j.
          put_online-workers kvs [] j fresh ok ∙ or_known-none (worker_at e json (view_of kvs) j))
