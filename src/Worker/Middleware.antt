-- ===== src/Worker/Middleware.antt =====
-- internal/worker/interfaces/middleware/middleware.go, and the order in which cmd/worker/main.go
-- registers the three.
pub mod Chain
use dispatchhub.Prelude.{Text, List, [], ◌∷◌, ◌++◌, some, codes, if◌then◌else◌}
use dispatchhub.Prelude.Int.{ℤ, is_zero}
use dispatchhub.Entity.{Task, TaskResult}
use dispatchhub.Worker.Env.{Handler, Outcome, returned, panicked, crashed}

-- Logging adds nothing to the outcome.
unfoldable pub logging : Handler → Handler
logging next t = next t

unfoldable pub recovered : Outcome → Outcome
recovered (returned result) = returned result
recovered (panicked text) =
    returned (record { output = []; error = some (codes "panic: " ++ text) })
recovered crashed = crashed

-- A deferred recover sees the panics of its own goroutine.
unfoldable pub recovery : Handler → Handler
unfolding recovered
recovery next t = recovered (next t)

-- What the select of Timeout sees first.
pub data First : Type 0 where
  handler_done deadline_exceeded context_canceled : First

-- The handler runs in a goroutine of its own, where no one recovers: its panic ends the process.
unfoldable pub in_goroutine : Outcome → Outcome
in_goroutine (returned result) = returned result
in_goroutine (panicked text) = crashed
in_goroutine crashed = crashed

abbrev timed_out : Text → Outcome
timed_out error = returned (record { output = []; error = some error })

unfoldable pub by_first : First → Outcome → Outcome
unfolding in_goroutine
by_first handler_done outcome = in_goroutine outcome
by_first deadline_exceeded outcome = timed_out (codes "context deadline exceeded")
by_first context_canceled outcome = timed_out (codes "context canceled")

abbrev pub limit_for : ℤ → Task → ℤ
limit_for default t = if is_zero t.timeout_after then default else t.timeout_after

-- `first` is how the select falls out under a limit. What a handler does after its time is up is not
-- part of the outcome.
unfoldable pub timeout : ℤ → (ℤ → Task → First) → Handler → Handler
unfolding by_first
timeout default first next t = by_first (first (limit_for default t) t) (next t)

abbrev pub registered : ℤ → (ℤ → Task → First) → List (Handler → Handler)
registered default first = recovery ∷ logging ∷ timeout default first ∷ []
