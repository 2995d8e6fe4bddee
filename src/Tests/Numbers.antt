-- ===== src/Tests/Numbers.antt =====
-- Runs of the broker's duration computations.
use dispatchhub.Prelude.{ℕ, ◌*◌, ◌/◌, ◌^◌, ◌≡◌, arith}
use dispatchhub.Prelude.Int.{pos}
use dispatchhub.Broker.Backoff.{backoff_of}
use dispatchhub.Broker.Backoff.Bounds.{backoff_vanishes}

abbrev rand : ℕ → ℕ
rand n = n / 2

backoff_vanishes_example : backoff_of (2 * 2 ^ 34) 31 ≡ pos 0
backoff_vanishes_example = backoff_vanishes 2 31 (omega arith)
