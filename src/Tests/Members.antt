-- ===== src/Tests/Members.antt =====
-- Workers that register with the store in memory, lose their lease, and are watched.
use dispatchhub.Prelude.{
  ◌≡◌, refl, Text, true, false, none, some, List, [], ◌∷◌, All, codes, same, is_some, if◌then◌else◌,
}
use dispatchhub.Redis.Call.{up, Reply}
use dispatchhub.Registry.{
  Json, Leases, Change, put_change, delete_change, worker_key, heartbeat, lease_of, workers_of,
}
use dispatchhub.Registry.Memory.{Memory, memory, memory-IsEtcd}
use dispatchhub.Registry.Lease.{heartbeat_dead}
use dispatchhub.Registry.Watch.{all_changed, view_of, IsWritten, IsEntry, deliver, Follows}
use dispatchhub.Registry.Listing.{registry_in_step}
use dispatchhub.Scheduler.Topology.{sync_workers}
use dispatchhub.Tests.Api.{worker}

abbrev text : Text
text = codes "{}"

abbrev json : Json
json = record {
  marshal = λ w. some text;
  unmarshal = λ d. if same d text then some worker else none;
}

abbrev vacant : Memory
vacant = record { next = 7; live = λ l. false; keys = [] }

unmarshal-text : json.unmarshal text ≡ some worker
unfolding same
unmarshal-text = refl

-- The worker still has its lease in its map, but etcd has let it expire.
abbrev leases : Leases
leases = (worker.id, 7) ∷ []

lease_of-worker : lease_of worker.id leases ≡ some 7
unfolding same
lease_of-worker = refl

heartbeat_dead_example :
    let (error, s) = heartbeat memory json up worker leases vacant in
    (is_some error ≡ true) × (s ≡ vacant)
heartbeat_dead_example =
    heartbeat_dead memory memory-IsEtcd json up worker leases 7 vacant lease_of-worker refl

-- One worker is listed; it goes, another key comes and is put again.
abbrev listing : List (Text × Text)
listing = (worker_key worker.id, text) ∷ []

abbrev changes : List Change
changes =
    delete_change (worker_key worker.id) none
    ∷ put_change true (worker_key (codes "w2")) text
    ∷ put_change false (worker_key (codes "w2")) text
    ∷ []

listing-IsEntry : All (IsEntry memory json) listing
unfolding same
listing-IsEntry = ((worker, unmarshal-text, refl, refl), tt)

changes-IsWritten : All (IsWritten memory json) changes
changes-IsWritten = (
  (worker.id, refl),
  (
    ((codes "w2", refl), (worker, unmarshal-text)),
    (((codes "w2", refl), (worker, unmarshal-text)), tt),
  ),
)

registry_in_step_example :
    Follows memory json
      (deliver memory json changes (sync_workers (Reply.ok (workers_of memory json listing)) []).1)
      (all_changed changes (view_of listing))
registry_in_step_example =
    registry_in_step memory json listing changes [] (refl, tt) listing-IsEntry changes-IsWritten
