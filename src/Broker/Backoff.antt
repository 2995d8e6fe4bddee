-- ===== src/Broker/Backoff.antt =====
-- `computeVisibilityTimeout` and `computeRetryBackoff` of queue_broker.go, over `int64` nanoseconds.
pub mod Bounds
use Prim.Native.Nat.{min}
use dispatchhub.Prelude.{ℕ, ◌+◌, ◌-◌, ◌*◌, ◌/◌, ◌^◌, Bool, ◌||◌, ◌==◌, if◌then◌else◌}
use dispatchhub.Prelude.Int.{ℤ, pos, negsuc, ◌+ℤ◌, ltb_ℤ, leb_ℤ, wrap64}

abbrev pub second : ℕ
second = 1000000000

abbrev pub default_visibility_timeout : ℤ
default_visibility_timeout = pos (30 * second)

abbrev pub lease_buffer : ℤ
lease_buffer = pos (10 * second)

abbrev pub max_retry_backoff : ℕ
max_retry_backoff = 300 * second

unfoldable pub compute_visibility_timeout : ℤ → ℤ
compute_visibility_timeout task_timeout =
    if leb_ℤ task_timeout (pos 0)
    then default_visibility_timeout
    else let v = wrap64 (task_timeout +ℤ lease_buffer) in
      if ltb_ℤ v default_visibility_timeout then default_visibility_timeout else v

-- min(retryCount-1, 30)
unfoldable pub shift_of : ℕ → ℕ
shift_of retry_count = min (retry_count - 1) 30

-- The cap, on a product that has wrapped around.
unfoldable pub cap_backoff : ℤ → ℤ
cap_backoff v =
    if ltb_ℤ (pos max_retry_backoff) v || ltb_ℤ v (pos 0) then pos max_retry_backoff else v

-- time.Duration(int64(base) << shift), capped
unfoldable pub backoff_of : ℕ → ℕ → ℤ
backoff_of base retry_count = cap_backoff (wrap64 (pos (base * 2 ^ shift_of retry_count)))

-- `rand n` stands for rand.Int64N(n).
unfoldable pub compute_retry_backoff : (ℕ → ℕ) → ℤ → ℕ → ℤ
compute_retry_backoff rand (negsuc b) retry_count = pos 0
compute_retry_backoff rand (pos b) retry_count =
    if b == 0 || retry_count == 0 then pos 0 else backoff_of b retry_count +ℤ pos (rand (b / 4 + 1))
