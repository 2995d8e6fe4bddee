-- ===== src/Broker/Backoff/Bounds.antt =====
-- Bounds on the two durations, and where the 64-bit product leaves them.
use native.Mathlib.Nat.{pow-le-pow_right}
use Prim.Native.Nat.{min}
use dispatchhub.Prelude.{ℕ, ◌+◌, ◌*◌, ◌/◌, ◌^◌, ◌≤◌, ◌<◌, ◌≡◌, false, arith}
use dispatchhub.Prelude.Int.{ℤ, pos, negsuc, ◌+ℤ◌, ◌≤ℤ◌, ◌<ℤ◌, wrap64, ltb_ℤ}
use dispatchhub.Broker.Backoff.{
  default_visibility_timeout, lease_buffer, max_retry_backoff, compute_visibility_timeout, shift_of,
  cap_backoff, backoff_of, compute_retry_backoff,
}

-- A lease is never shorter than the default visibility timeout. For a positive task timeout it lasts at
-- least that timeout and the lease buffer together, if their sum fits in an int64.
visibility_bounds :
    (t : ℤ)
    → (default_visibility_timeout ≤ℤ compute_visibility_timeout t)
      × (pos 0 <ℤ t
          → t +ℤ lease_buffer <ℤ pos (2 ^ 63)
          → t +ℤ lease_buffer ≤ℤ compute_visibility_timeout t)
unfolding compute_visibility_timeout
visibility_bounds (pos t) = (ground arith, λ p q. ground arith)
visibility_bounds (negsuc t) = (ground arith, λ p q. ground arith)

pub visibility-default :
    (t : ℤ)
    → ltb_ℤ default_visibility_timeout (compute_visibility_timeout t) ≡ false
    → compute_visibility_timeout t ≡ default_visibility_timeout
visibility-default t h = antisym (compute_visibility_timeout t) h (visibility_bounds t).0
  where
    antisym :
        (v : ℤ)
        → ltb_ℤ default_visibility_timeout v ≡ false
        → default_visibility_timeout ≤ℤ v
        → v ≡ default_visibility_timeout
    antisym (pos v) p q = ground arith
    antisym (negsuc v) p q = ground arith

cap_backoff_range : (v : ℤ) → (pos 0 ≤ℤ cap_backoff v) × (cap_backoff v ≤ℤ pos max_retry_backoff)
unfolding cap_backoff
cap_backoff_range (pos v) = ground arith
cap_backoff_range (negsuc v) = ground arith

backoff_of_range :
    (b retry_count : ℕ)
    → (pos 0 ≤ℤ backoff_of b retry_count) × (backoff_of b retry_count ≤ℤ pos max_retry_backoff)
unfolding backoff_of
backoff_of_range b retry_count = cap_backoff_range (wrap64 (pos (b * 2 ^ shift_of retry_count)))

-- When `rand n` lies below `n`, the delay is not negative and passes the cap by a quarter of the base
-- at most, whatever the base and the count.
pub retry_backoff_range :
    (rand : ℕ → ℕ) (b retry_count : ℕ)
    → ((n : ℕ) → 0 < n → rand n < n)
    → (pos 0 ≤ℤ compute_retry_backoff rand (pos b) retry_count)
      × (compute_retry_backoff rand (pos b) retry_count ≤ℤ pos (max_retry_backoff + b / 4))
unfolding compute_retry_backoff
retry_backoff_range rand b retry_count h =
    ground (arith, h (b / 4 + 1), backoff_of_range b retry_count)

shift_of_le : (retry_count : ℕ) → shift_of retry_count ≤ 30
unfolding shift_of
shift_of_le retry_count = omega arith

shift_of_top : (retry_count : ℕ) → 31 ≤ retry_count → shift_of retry_count ≡ 30
unfolding shift_of
shift_of_top retry_count h = omega arith

shift_le : (retry_count : ℕ) → 2 ^ shift_of retry_count ≤ 2 ^ 30
shift_le retry_count = pow-le-pow_right (omega arith) (shift_of_le retry_count)

no_overflow : (b retry_count : ℕ) → b < 2 ^ 33 → b * 2 ^ shift_of retry_count < 2 ^ 63
no_overflow b retry_count h = grind (arith, shift_le retry_count)

wrap_small : (n : ℕ) → n < 2 ^ 63 → wrap64 (pos n) ≡ pos n
wrap_small n h = ground arith

-- Below 2^33 ns (about 8.6 s) of base the product does not overflow: the delay before the jitter is
-- base * 2^(retryCount-1), the exponent at most 30, cut off at five minutes.
pub backoff_exact :
    (b retry_count : ℕ)
    → b < 2 ^ 33
    → backoff_of b retry_count ≡ pos (min (b * 2 ^ shift_of retry_count) max_retry_backoff)
unfolding backoff_of cap_backoff
backoff_exact b retry_count h =
    rw (wrap_small _ (no_overflow b retry_count h)) (cap_min (b * 2 ^ shift_of retry_count))
  where
    cap_min : (n : ℕ) → cap_backoff (pos n) ≡ pos (min n max_retry_backoff)
    cap_min n = ground arith

-- From a base that is a multiple of 2^34 ns the 31st and every later retry has no delay at all before
-- the jitter: the 64-bit product is 0, which the test for a negative product does not catch.
pub backoff_vanishes :
    (k retry_count : ℕ) → 31 ≤ retry_count → backoff_of (k * 2 ^ 34) retry_count ≡ pos 0
unfolding backoff_of cap_backoff
backoff_vanishes k retry_count h = rw (shift_of_top retry_count h, wraps_to_zero k)
  where
    wraps_to_zero : (n : ℕ) → wrap64 (pos (n * 2 ^ 34 * 2 ^ 30)) ≡ pos 0
    wraps_to_zero n = ground arith
