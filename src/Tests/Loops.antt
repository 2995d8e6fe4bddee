-- ===== src/Tests/Loops.antt =====
-- Ticks of the scheduler's loops on the servers in memory.
use dispatchhub.Prelude.{◌≡◌, refl, true, [], ◌∷◌, same, is_some}
use dispatchhub.Prelude.Int.{pos}
use dispatchhub.Redis.Call.{up, cut}
use dispatchhub.Redis.Memory.{Memory, memory, memory-IsRedis}
use dispatchhub.Redis.Memory.Table.{lookup}
use dispatchhub.Broker.Keep.{is_in}
use dispatchhub.Broker.Keys.{ready_key_for, delayed_key_for, inflight_key_for}
use dispatchhub.Broker.Maintain.{promote_delayed, reclaim_inflight}
use dispatchhub.Mysql.Memory.{database}
use dispatchhub.Scheduler.App.Steps.{done, then_call, promoted, reclaimed}
use dispatchhub.Scheduler.App.Keeps.{scheduler_keeps}
use dispatchhub.Tests.Sample.{task, codec, wire}
use dispatchhub.Tests.Crons.{next_run}

abbrev delayed : Memory
delayed = record {
  sets = (delayed_key_for task.queue_name, wire, pos 40) ∷ [];
  hashes = [];
  numbers = [];
}

decodes : is_some (codec.cjson_decode wire) ≡ true
unfolding same
decodes = refl

is_in-delayed : is_in memory codec delayed task.queue_name task.id wire ≡ true
unfolding lookup same ready_key_for delayed_key_for inflight_key_for
is_in-delayed = refl

scheduler_keeps_example :
    let s1 = (promote_delayed memory codec up 90000000 task.queue_name 100 delayed).1 in
    let s2 = (reclaim_inflight memory codec (cut 1) 91000000 task.queue_name (pos 0) s1).1 in
    is_in memory codec s2 task.queue_name task.id wire ≡ true
scheduler_keeps_example =
    scheduler_keeps memory codec database next_run ⦃redis = memory-IsRedis⦄ delayed _
      task.queue_name task.id wire
      (then_call (promoted up 90000000 task.queue_name delayed)
        (then_call (reclaimed (cut 1) 91000000 task.queue_name (pos 0) _) (done _)))
      decodes is_in-delayed
