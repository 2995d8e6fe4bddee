-- ===== src/Worker/Middleware/Chain.antt =====
-- What the three do together.
use dispatchhub.Prelude.{Text, Bool, none, some, [], ◌∷◌, ◌++◌, ◌≡◌, ◌≢◌, refl, ap, ◌∙◌, codes}
use dispatchhub.Prelude.Int.{ℤ}
use dispatchhub.Entity.{Task, TaskResult}
use dispatchhub.Redis.{Redis}
use dispatchhub.Broker.Codec.{Codec}
use dispatchhub.Mysql.Interface.{Mysql}
use dispatchhub.Worker.Env.{
  start, World, Env, on_db, Handler, wrap, safe_handle, returned, panicked, crashed,
}
use dispatchhub.Worker.Settle.{save}
use dispatchhub.Worker.Process.{running_task, run_handler, settle_result}
use dispatchhub.Worker.Middleware.{
  First, handler_done, deadline_exceeded, context_canceled, recovery, logging, timeout, by_first,
  limit_for, registered, recovered, in_goroutine,
}

safe_handle-crashed : (h : Handler) (t : Task) → h t ≡ crashed → safe_handle h t ≡ none
unfolding safe_handle
safe_handle-crashed h t e = rw (e, safe_handle) refl

safe_handle-returned :
    (h : Handler) (t : Task) (result : TaskResult)
    → h t ≡ returned result
    → safe_handle h t ≡ some result
unfolding safe_handle
safe_handle-returned h t result e = rw (e, safe_handle) refl

chain-crashed :
    (default : ℤ) (first : ℤ → Task → First) (handler : Handler) (t : Task) (text : Text)
    → handler t ≡ panicked text
    → first (limit_for default t) t ≡ handler_done
    → safe_handle (wrap (registered default first) handler) t ≡ none
unfolding wrap recovery recovered logging timeout by_first in_goroutine
chain-crashed default first handler t text panics early =
    safe_handle-crashed (wrap (registered default first) handler) t (
      ap (λ x. recovered (by_first x (handler t))) early
      ∙ ap (λ o. recovered (in_goroutine o)) panics)

by_first-returned :
    (x : First) (result : TaskResult)
    → (result' : TaskResult) × (by_first x (returned result) ≡ returned result')
unfolding by_first in_goroutine
by_first-returned handler_done result = (result, refl)
by_first-returned deadline_exceeded result = (_, refl)
by_first-returned context_canceled result = (_, refl)

-- With the order reversed, Recovery innermost, a panic becomes an error of the task.
pub reversed_recovers :
    (default : ℤ) (first : ℤ → Task → First) (handler : Handler) (t : Task) (text : Text)
    → handler t ≡ panicked text
    → safe_handle (wrap (timeout default first ∷ logging ∷ recovery ∷ []) handler) t ≢ none
unfolding wrap recovery recovered logging timeout
reversed_recovers default first handler t text panics h =
    let x = first (limit_for default t) t in
    let (result, e) =
      by_first-returned x (record { output = []; error = some (codes "panic: " ++ text) }) in
    let found =
      safe_handle-returned (wrap (timeout default first ∷ logging ∷ recovery ∷ []) handler) t result
        (ap (λ o. by_first x (recovered o)) panics ∙ e) in
    cc (found, h)

module _ (r : Redis) (c : Codec) (m : Mysql) (env : Env r m) where
  -- A handler that panics before its time is up takes the process down, with the three middlewares as
  -- they are registered: the run ends after the Update to running, with neither an Ack nor a Nack.
  pub panic_ends_process :
      (default : ℤ) (first : ℤ → Task → First) (handler : Handler) (text worker : Text)
      (is_cancelled : Bool) (task : Task) (w : World r m)
      → ((t : Task) → handler t ≡ panicked text)
      → ((limit : ℤ) (t : Task) → first limit t ≡ handler_done)
      → run_handler r c m env worker is_cancelled (registered default first) (some handler) task w
        ≡ (on_db r m env start (save r c m env (running_task worker (env.now start) task)) w).1
  unfolding run_handler settle_result
  panic_ends_process default first handler text worker is_cancelled task w panics early =
      let saved =
        on_db r m env start (save r c m env (running_task worker (env.now start) task)) w in
      ap (λ o. settle_result r c m env is_cancelled saved.0.1 o saved.1)
        (chain-crashed default first handler saved.0.1 text (panics saved.0.1) (early _ saved.0.1))
