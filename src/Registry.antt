-- ===== src/Registry.antt =====
-- internal/shared/infrastructure/persistence/etcd/worker_registry.go. The JSON of a worker is a parameter;
-- `leases` is the map of the same name. The goroutine that drains the answers of KeepAlive keeps no state.
pub mod Interface
pub mod Lease
pub mod Listing
pub mod Memory
pub mod Watch
pub use Interface.{Etcd, IsEtcd}
use dispatchhub.Prelude.{
  ℕ, Text, Bool, true, false, Option, none, some, List, [], ◌∷◌, ◌++◌, codes, same, length, ltb,
  drop, if◌then◌else◌,
}
use dispatchhub.Entity.Worker.{WorkerInfo, WorkerEvent, joined, left, updated}
use dispatchhub.Redis.Call.{Link, Reply, run_script}

pub record Json : Type 0 where
  pub marshal : WorkerInfo → Option Text
  pub unmarshal : Text → Option WorkerInfo

abbrev pub Leases : Type 0
Leases = List (Text × ℕ)

abbrev pub worker_prefix : Text
worker_prefix = codes "/dispatchhub/workers/"

unfoldable pub worker_key : Text → Text
worker_key id = worker_prefix ++ id

abbrev pub lease_of : Text → Leases → Option ℕ
lease_of id [] = none
lease_of id ((key, l) ∷ leases) = if same key id then some l else lease_of id leases

abbrev pub without_lease : Text → Leases → Leases
without_lease id [] = []
without_lease id ((key, l) ∷ leases) =
    let rest = without_lease id leases in if same key id then rest else (key, l) ∷ rest

-- Why a call fails.
pub data RegistryError : Type 0 where
  grant_failed marshal_failed put_failed keepalive_failed no_lease delete_failed : RegistryError

-- A change that a watch reports: a put, and whether it created the key, or a deletion with the value
-- before it, if that is still known.
pub data Change : Type 0 where
  put_change : Bool → Text → Text → Change
  delete_change : Text → Option Text → Change

module _ (e : Etcd) (json : Json) where
  open e use {Store}

  abbrev put_reply : Text → Text → ℕ → Store → Reply (Unit {0}) × Store
  put_reply key value l s = elim (e.put s key value l) [
    | none ↦ (Reply.err, s)
    | some s' ↦ (Reply.ok tt, s')
  ]

  -- From the answer of the put on. The keepalive of etcd's client changes no key.
  unfoldable pub after_put :
      Link → Text → ℕ → Reply (Unit {0}) × Store → Leases → Option RegistryError × Leases × Store
  after_put keepalive id l (Reply.err, s) leases = (some put_failed, leases, s)
  after_put Link.up id l (Reply.ok u, s) leases = (none, (id, l) ∷ without_lease id leases, s)
  after_put (Link.cut n) id l (Reply.ok u, s) leases =
      (some keepalive_failed, (id, l) ∷ without_lease id leases, s)

  unfoldable pub after_grant :
      Link
      → Link
      → WorkerInfo
      → Reply ℕ
      → Option Text
      → Leases
      → Store
      → Option RegistryError × Leases × Store
  unfolding after_put run_script
  after_grant put keepalive w Reply.err d leases s = (some grant_failed, leases, s)
  after_grant put keepalive w (Reply.ok l) none leases s = (some marshal_failed, leases, s)
  after_grant put keepalive w (Reply.ok l) (some d) leases s =
      after_put keepalive w.id l (run_script put (put_reply (worker_key w.id) d l) s) leases

  unfoldable pub register :
      Link → Link → Link → WorkerInfo → Leases → Store → Option RegistryError × Leases × Store
  unfolding after_grant run_script
  register grant put keepalive w leases s =
      let (reply, s') = run_script grant (λ t. let (l, t') = e.grant t in (Reply.ok l, t')) s in
      after_grant put keepalive w reply (json.marshal w) leases s'

  abbrev put_error : Reply (Unit {0}) → Option RegistryError
  put_error Reply.err = some put_failed
  put_error (Reply.ok u) = none

  unfoldable pub refresh_key :
      Link → Text → Option Text → Option ℕ → Store → Option RegistryError × Store
  unfolding run_script
  refresh_key link id none l s = (some marshal_failed, s)
  refresh_key link id (some d) none s = (some no_lease, s)
  refresh_key link id (some d) (some l) s =
      let (reply, s') = run_script link (put_reply (worker_key id) d l) s in (put_error reply, s')

  unfoldable pub heartbeat : Link → WorkerInfo → Leases → Store → Option RegistryError × Store
  unfolding refresh_key
  heartbeat link w leases s = refresh_key link w.id (json.marshal w) (lease_of w.id leases) s

  abbrev revoke_reply : ℕ → Store → Reply (Unit {0}) × Store
  revoke_reply l s = elim (e.revoke s l) [ none ↦ (Reply.err, s) | some s' ↦ (Reply.ok tt, s') ]

  abbrev revoked : Link → Option ℕ → Store → Store
  revoked link none s = s
  revoked link (some l) s = (run_script link (revoke_reply l) s).1

  abbrev delete_error : Reply (Unit {0}) → Option RegistryError
  delete_error Reply.err = some delete_failed
  delete_error (Reply.ok u) = none

  -- The answer of Revoke is dropped.
  unfoldable pub deregister :
      Link → Link → Text → Leases → Store → Option RegistryError × Leases × Store
  unfolding run_script
  deregister revoke delete id leases s =
      let s1 = revoked revoke (lease_of id leases) s in
      let (reply, s2) = run_script delete (λ t. (Reply.ok tt, e.delete t (worker_key id))) s1 in
      (delete_error reply, without_lease id leases, s2)

  abbrev decoded : Option Text → Reply (Option WorkerInfo)
  decoded none = Reply.ok none
  decoded (some d) = elim (json.unmarshal d) [ none ↦ Reply.err | some w ↦ Reply.ok (some w) ]

  unfoldable pub get_worker : Link → Text → Store → Reply (Option WorkerInfo) × Store
  unfolding run_script
  get_worker link id s = run_script link (λ t. (decoded (e.get t (worker_key id)), t)) s

  abbrev pub keep_decoded : Option WorkerInfo → List WorkerInfo → List WorkerInfo
  keep_decoded none ws = ws
  keep_decoded (some w) ws = w ∷ ws

  -- A value that does not decode is skipped.
  unfoldable pub workers_of : List (Text × Text) → List WorkerInfo
  workers_of [] = []
  workers_of ((key, value) ∷ kvs) = keep_decoded (json.unmarshal value) (workers_of kvs)

  unfoldable pub list_workers : Link → Store → Reply (List WorkerInfo) × Store
  unfolding run_script workers_of
  list_workers link s =
      run_script link (λ t. (Reply.ok (workers_of (e.range t worker_prefix)), t)) s

  abbrev pub id_of_key : Text → Text
  id_of_key key =
      if ltb (length worker_prefix) (length key) then drop (length worker_prefix) key else []

  abbrev put_event : Bool → Text → Option WorkerInfo → Option WorkerEvent
  put_event created id none = none
  put_event created id (some w) =
      some (record { type = if created then joined else updated; worker_id = id; worker = some w })

  abbrev previous : Option Text → Option WorkerInfo
  previous none = none
  previous (some d) = json.unmarshal d

  -- The event that WatchWorkers sends of a change; none for a put whose value does not decode.
  unfoldable pub event_of : Change → Option WorkerEvent
  event_of (put_change created key value) = put_event created (id_of_key key) (json.unmarshal value)
  event_of (delete_change key before) =
      some (record { type = left; worker_id = id_of_key key; worker = previous before })

  abbrev pub channel_size : ℕ
  channel_size = 64

  -- A full channel drops the event.
  unfoldable pub send_event : List WorkerEvent → Change → List WorkerEvent
  unfolding event_of
  send_event ch change = elim (event_of change) [
    | none ↦ ch
    | some event ↦ if ltb (length ch) channel_size then ch ++ event ∷ [] else ch
  ]
