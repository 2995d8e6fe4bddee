-- ===== src/Broker/Reply.antt =====
-- Errors and results of the methods of `QueueBroker`, and the conversions that they share.
use dispatchhub.Prelude.{ℕ, ◌/◌, get_or}
use dispatchhub.Prelude.Int.{ℤ, pos, negsuc, neg}
use dispatchhub.Redis.Call.{Reply}
use dispatchhub.Broker.Codec.{Decoded}

pub data BrokerError : Type 0 where
  marshal_task unmarshal_task script_failed queue_full extend_lease pipeline_failed : BrokerError

pub data Result {ℓ} (A : Type ℓ) : Type ℓ where
  ok : A → Result A
  err : BrokerError → Result A

-- time.Time.UnixMilli, time.Duration.Milliseconds
abbrev pub millis : ℕ → ℕ
millis t = t / 1000000

-- UnixMilli of a time before the epoch is negative, rounded down.
abbrev pub unix_milli : ℤ → ℤ
unix_milli (pos t) = pos (t / 1000000)
unix_milli (negsuc t) = negsuc (t / 1000000)

abbrev pub from_reply : {A B : Type 0} → (A → Result B) → Reply A → Result B
from_reply f (Reply.ok a) = f a
from_reply f Reply.err = err script_failed

abbrev pub from_exec : Reply (Unit {0}) → Result (Unit {0})
from_exec (Reply.ok u) = ok tt
from_exec Reply.err = err pipeline_failed

-- score = -(task.priority or 5)
abbrev pub score_of : Decoded → ℤ
score_of t = neg (get_or (pos 5) t.priority)
