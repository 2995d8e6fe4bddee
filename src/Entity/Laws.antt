-- ===== src/Entity/Laws.antt =====
-- Facts about tasks that the other components use.
use dispatchhub.Prelude.{◌≡◌, true, arith}
use dispatchhub.Prelude.Int.{pos, ◌<ℤ◌}
use dispatchhub.Entity.{Task, can_retry}

pub can_retry→room : (t : Task) → can_retry t ≡ true → pos t.retry_count <ℤ t.max_retries
unfolding can_retry
can_retry→room t h = ground arith
