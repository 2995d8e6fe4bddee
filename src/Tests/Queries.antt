-- ===== src/Tests/Queries.antt =====
-- Runs of the queries over tasks, and of the removal of a task, on the servers in memory.
use dispatchhub.Prelude.{◌≡◌, refl, some, codes}
use dispatchhub.Prelude.Int.{pos}
use dispatchhub.Entity.{Task}
use dispatchhub.Entity.State.{completed}
use dispatchhub.Redis.Call.{up}
use dispatchhub.Redis.Memory.{empty, memory, memory-IsRedis, memory-Ends, rounds-memory}
use dispatchhub.Broker.Keys.{ready_key_for, delayed_key_for}
use dispatchhub.Broker.Reply.{ok}
use dispatchhub.Broker.Remove.{id_field, remove}
use dispatchhub.Broker.Remove.Outcome.{Cleared, remove_outcome}
use dispatchhub.Broker.Settle.Outcome.{Released}
use dispatchhub.Tests.Sample.{task, codec, wire}

abbrev finished : Task
finished = record task { id = codes "t2"; state = completed; finished_at = some 3 }

abbrev waiting : memory.Store
waiting = memory.zadd empty (ready_key_for (codes "mail")) (pos 5) wire

remove_outcome_example :
    (s' : memory.Store) × (remove memory codec 1 up (codes "mail") task.id waiting
      ≡ some (ok tt, s'))
    × Released memory codec ⦃redis = memory-IsRedis⦄ s' (codes "mail") task.id
    × Cleared memory codec ⦃redis = memory-IsRedis⦄ waiting s'
        (ready_key_for (codes "mail"))
        (id_field task.id)
    × Cleared memory codec ⦃redis = memory-IsRedis⦄ waiting s'
        (delayed_key_for (codes "mail"))
        (id_field task.id)
remove_outcome_example =
    remove_outcome memory codec ⦃redis = memory-IsRedis⦄ memory-Ends 1 (codes "mail") task.id
      waiting rounds-memory refl
