-- ===== src/Tests/Lifetime.antt =====
-- A worker from its registration to its end, the signals that reach its tasks, and the leases of these.
use dispatchhub.Prelude.{
  ◌≡◌, refl, false, none, some, [], ◌∷◌, codes, same, is_some, if◌then◌else◌, arith,
}
use dispatchhub.Prelude.Int.{pos}
use dispatchhub.Redis.Call.{up, Reply}
use dispatchhub.Registry.{Json, register, get_worker}
use dispatchhub.Registry.Memory.{Memory, memory, memory-IsEtcd}
use dispatchhub.Worker.Cancel.{
  Worker, new_worker, run_tracked, run_untracked, cancel_running_task, cancelled_by,
}
use dispatchhub.Worker.Cancel.Reach.{Reached, Step, run_of, signal_reaches, second_run_lost}
use dispatchhub.Worker.Life.{Reading, refreshed, heartbeats, run_worker}
use dispatchhub.Worker.Life.Seen.{AllFaithful, last_info, over, worker_lifetime}
use dispatchhub.Tests.Api.{worker}

abbrev reading : Reading
reading = record { active = pos 2; cpu = 7; mem = 9; now = 60 }

-- The text of a worker is the time of its last heartbeat.
abbrev json : Json
json = record {
  marshal = λ w. some (w.last_heartbeat ∷ []);
  unmarshal = λ d. if same d (1 ∷ []) then some worker else some (refreshed reading worker);
}

abbrev vacant : Memory
vacant = record { next = 7; live = λ l. false; keys = [] }

both-AllFaithful : AllFaithful memory memory-IsEtcd json (reading ∷ []) worker
unfolding same refreshed
both-AllFaithful = ((1 ∷ [], refl, refl), (60 ∷ [], refl, refl))

worker_lifetime_example :
    let ticks = over memory memory-IsEtcd json (reading ∷ []) in
    let sent = last_info memory memory-IsEtcd json (reading ∷ []) worker in
    let (error, leases, s1) = register memory json up up up worker [] vacant in
    let (info, s2) = heartbeats memory json ticks worker leases s1 in
    let (stop, info', leases', s3) = run_worker memory json up up up up up ticks worker [] vacant in
    (error ≡ none)
    × (get_worker memory json up worker.id s2 ≡ (Reply.ok (some sent), s2))
    × (stop ≡ none)
    × (info' ≡ sent)
    × (get_worker memory json up worker.id s3 ≡ (Reply.ok none, s3))
worker_lifetime_example =
    worker_lifetime memory memory-IsEtcd json (reading ∷ []) worker [] vacant both-AllFaithful

abbrev busy : Worker
busy = run_tracked (codes "t2") 1 (run_tracked (codes "t1") 0 new_worker)

busy-Reached : Reached busy
unfolding run_tracked same
busy-Reached =
    Reached.then_step (Reached.then_step Reached.at_start (Step.tracked (codes "t1") 0 refl refl))
      (Step.tracked (codes "t2") 1 refl refl)

signal_reaches_example :
    let (found, w) = cancel_running_task (codes "t1") busy in
    (found ≡ is_some (run_of (codes "t1") busy.live))
    × (w.cancelled ≡ cancelled_by (run_of (codes "t1") busy.live) busy.cancelled)
    × (w.live ≡ busy.live)
signal_reaches_example = signal_reaches busy (codes "t1") busy-Reached

second_run_lost_example :
    let w =
      run_untracked
        (codes "t1")
        5
        (run_tracked (codes "t1") 6 (run_tracked (codes "t1") 5 new_worker)) in
    (run_of (codes "t1") w.live ≡ some 6)
    × ((cancel_running_task (codes "t1") w).0 ≡ false)
    × ((cancel_running_task (codes "t1") w).1.cancelled ≡ [])
second_run_lost_example = second_run_lost new_worker (codes "t1") 5 6 (λ h. ground (arith, h))
