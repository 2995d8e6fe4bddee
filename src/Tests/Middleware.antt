-- ===== src/Tests/Middleware.antt =====
-- A run of a handler that panics, on the servers in memory.
use dispatchhub.Prelude.{◌≡◌, refl, false, some, codes}
use dispatchhub.Prelude.Int.{pos}
use dispatchhub.Redis.Memory.{empty, memory}
use dispatchhub.Mysql.Memory.{no_rows, database}
use dispatchhub.Worker.Env.{Handler, panicked, start, on_db}
use dispatchhub.Worker.Settle.{save}
use dispatchhub.Worker.Process.{run_handler, running_task}
use dispatchhub.Worker.Middleware.{handler_done, registered}
use dispatchhub.Worker.Middleware.Chain.{panic_ends_process}
use dispatchhub.Tests.Sample.{task, codec}
use dispatchhub.Tests.Workers.{env}

abbrev broken : Handler
broken t = panicked (codes "nil map")

panic_ends_process_example :
    run_handler memory codec database env
      (codes "w1")
      false
      (registered (pos 60) (λ limit t. handler_done))
      (some broken)
      task
      (empty, no_rows)
    ≡ (on_db memory database env start
        (save memory codec database env (running_task (codes "w1") (env.now start) task))
        (empty, no_rows)).1
panic_ends_process_example =
    panic_ends_process memory codec database env (pos 60) (λ limit t. handler_done) broken
      (codes "nil map") (codes "w1") false task (empty, no_rows) (λ t. refl) (λ limit t. refl)
