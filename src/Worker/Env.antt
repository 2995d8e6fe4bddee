-- ===== src/Worker/Env.antt =====
-- What surrounds one run of `processTask`: the calls that it may make, and for each of them the link,
-- the time, and what other processes have done to the servers since the previous call.
use dispatchhub.Prelude.{ℕ, Text, Option, none, some, List, [], ◌∷◌, ◌++◌, codes}
use dispatchhub.Entity.{Task, TaskResult}
use dispatchhub.Redis.{Redis}
use dispatchhub.Redis.Call.{Link}
use dispatchhub.Mysql.Interface.{Mysql}

-- The first and the second Get, the Update to running, the Get after a cancellation, the Update of the
-- outcome, and the Ack or Nack.
pub data Call : Type 0 where
  check recheck start ask settle_row settle_queue : Call

module _ (r : Redis) (m : Mysql) where
  abbrev pub World : Type 0
  World = r.Store × m.Db

  pub record Env : Type 0 where
    pub link : Call → Link
    pub now : Call → ℕ
    pub others : Call → World → World
    pub rand : ℕ → ℕ

  module _ (env : Env) where
    -- A call to MySQL, after what the others have done.
    unfoldable pub on_db : {A : Type 0} → Call → (Link → ℕ → m.Db → A × m.Db) → World → A × World
    on_db call f w =
        let (s, db) = env.others call w in
        let (a, db') = f (env.link call) (env.now call) db in (a, (s, db'))

    -- A call to Redis.
    unfoldable pub on_store :
        {A : Type 0} → Call → (Link → ℕ → r.Store → A × r.Store) → World → A × World
    on_store call f w =
        let (s, db) = env.others call w in
        let (a, s') = f (env.link call) (env.now call) s in (a, (s', db))

-- A handler returns, panics, or takes the process down from a goroutine of its own.
pub data Outcome : Type 0 where
  returned : TaskResult → Outcome
  panicked : Text → Outcome
  crashed : Outcome

-- A handler that returns has a result, and it does not change the task that it is given: a nil result
-- without an error, and writes through the task's pointer, are left out.
abbrev pub Handler : Type 0
Handler = Task → Outcome

-- The middleware that is registered first is the outermost.
unfoldable pub wrap : List (Handler → Handler) → Handler → Handler
wrap [] h = h
wrap (w ∷ ws) h = w (wrap ws h)

-- `safeHandle`; nothing is returned when the process is gone.
unfoldable pub safe_handle : Handler → Task → Option TaskResult
safe_handle h t = elim (h t) [
  | returned result ↦ some result
  | panicked text ↦ some (record { output = []; error = some (codes "panic: " ++ text) })
  | crashed ↦ none
]
