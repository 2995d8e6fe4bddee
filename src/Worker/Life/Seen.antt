-- ===== src/Worker/Life/Seen.antt =====
-- What the registry holds of a worker between its start and its end.
use dispatchhub.Prelude.{◌≡◌, refl, ap, ◌∙◌, sym, Text, none, some, List, [], ◌∷◌}
use dispatchhub.Entity.Worker.{WorkerInfo}
use dispatchhub.Redis.Call.{Link, up, Reply}
use dispatchhub.Registry.{Etcd, IsEtcd, Json, Leases, register, heartbeat, get_worker}
use dispatchhub.Registry.Lease.{Registered, register_outcome, heartbeat_outcome, deregister-gone}
use dispatchhub.Worker.Life.{Reading, refreshed, heartbeats, run_worker}

module _ (e : Etcd) (etcd : IsEtcd e) (json : Json) where
  -- The JSON of a worker comes back.
  abbrev pub IsFaithful : WorkerInfo → Type 0
  IsFaithful w = (d : Text) × (json.marshal w ≡ some d) × (json.unmarshal d ≡ some w)

  -- What is sent first, and by every heartbeat.
  abbrev pub AllFaithful : List Reading → WorkerInfo → Type 0
  AllFaithful [] info = IsFaithful info
  AllFaithful (reading ∷ readings) info =
      IsFaithful info × AllFaithful readings (refreshed reading info)

  -- What the last of the heartbeats has sent.
  abbrev pub last_info : List Reading → WorkerInfo → WorkerInfo
  last_info [] info = info
  last_info (reading ∷ readings) info = last_info readings (refreshed reading info)

  abbrev pub over : List Reading → List (Link × Reading)
  over [] = []
  over (reading ∷ readings) = (up, reading) ∷ over readings

  refreshed-id : (reading : Reading) (info : WorkerInfo) → (refreshed reading info).id ≡ info.id
  unfolding refreshed
  refreshed-id reading info = refl

  first_of :
      (readings : List Reading) (info : WorkerInfo) → AllFaithful readings info → IsFaithful info
  first_of [] info first = first
  first_of (reading ∷ readings) info (first, all) = first

  heartbeats-Registered :
      (readings : List Reading) (info : WorkerInfo) (leases : Leases) (s : e.Store)
      → AllFaithful readings info
      → Registered e etcd json s leases info
      → let (info', s') = heartbeats e json (over readings) info leases s in
        (info' ≡ last_info readings info) × Registered e etcd json s' leases info'
  unfolding heartbeats
  heartbeats-Registered [] info leases s all known = (refl, known)
  heartbeats-Registered (reading ∷ readings) info leases s (first, all) known =
      let sent = refreshed reading info in
      let (d, mar, back) = first_of readings sent all in
      let (sound, now_known) =
        heartbeat_outcome e etcd json info sent d leases s known (refreshed-id reading info) mar
          back in
      heartbeats-Registered readings sent leases (heartbeat e json up sent leases s).1 all now_known

  last_info-id :
      (readings : List Reading) (info : WorkerInfo) → (last_info readings info).id ≡ info.id
  last_info-id [] info = refl
  last_info-id (reading ∷ readings) info =
      last_info-id readings (refreshed reading info) ∙ refreshed-id reading info

  -- With etcd in reach and JSON that comes back, the registry holds of a worker what its last heartbeat
  -- has sent. Once Run has ended, without an error, it holds nothing of the worker any more.
  pub worker_lifetime :
      (readings : List Reading) (info : WorkerInfo) (leases : Leases) (s : e.Store)
      → AllFaithful readings info
      → let (error, leases', s1) = register e json up up up info leases s in
        let (info', s2) = heartbeats e json (over readings) info leases' s1 in
        let (stop, info'', leases'', s3) =
          run_worker e json up up up up up (over readings) info leases s in
        (error ≡ none)
        × (get_worker e json up info.id s2 ≡ (Reply.ok (some (last_info readings info)), s2))
        × (stop ≡ none)
        × (info'' ≡ last_info readings info)
        × (get_worker e json up info.id s3 ≡ (Reply.ok none, s3))
  unfolding run_worker
  worker_lifetime readings info leases s all =
      let (error, leases', s1) = register e json up up up info leases s in
      let (d, mar, back) = first_of readings info all in
      let (sound, known) = register_outcome e etcd json info d leases s mar back in
      let (sent, (seen, lease)) = heartbeats-Registered readings info leases' s1 all known in
      let (info', s2) = heartbeats e json (over readings) info leases' s1 in
      let same_id = ap (λ w. w.id) sent ∙ last_info-id readings info in
      let (sound', gone) = deregister-gone e etcd json up info.id leases' s2 in
      rw sound (
        refl,
        ap (λ x. get_worker e json up x s2) (sym same_id)
            ∙ (seen ∙ ap (λ w. (Reply.ok (some w), s2)) sent),
        refl,
        sent,
        gone,
      )
