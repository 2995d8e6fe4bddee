-- ===== src/Worker/Settle/Quiet.antt =====
-- Calls of a worker that is alone with both servers in reach.
use dispatchhub.Prelude.{ℕ, ◌≡◌, refl, ap, some}
use dispatchhub.Entity.{Task}
use dispatchhub.Redis.{Redis, IsRedis}
use dispatchhub.Redis.Call.{Link, up}
use dispatchhub.Broker.Codec.{Codec}
use dispatchhub.Broker.Settle.{ack}
use dispatchhub.Mysql.Interface.{Mysql, IsMysql, merge}
use dispatchhub.Mysql.Tasks.{updated}
use dispatchhub.Mysql.Tasks.Locking.{bumped, update_hit}
use dispatchhub.Worker.Env.{Call, settle_queue, World, Env, on_db, on_store}
use dispatchhub.Worker.Settle.{save, drop}

module _ (r : Redis) (c : Codec) (m : Mysql) ⦃redis : IsRedis r⦄ (mysql : IsMysql m)
    (env : Env r m) where
  -- Nobody else touches the servers, and both are in reach.
  abbrev pub Quiet : Type 0
  Quiet =
      ((call : Call) (w : World r m) → env.others call w ≡ w) × ((call : Call) → env.link call ≡ up)

  -- The row of the task is the one that the worker knows.
  abbrev pub Current : m.Db → Task → Task → Type 0
  Current db task row = (m.find_task db task.id ≡ some row) × (row.version ≡ task.version)

  pub on_db-quiet :
      {A : Type 0}
      → Quiet
      → (call : Call) (f : Link → ℕ → m.Db → A × m.Db) (s : r.Store) (db : m.Db)
      → on_db r m env call f (s, db) ≡ ((f up (env.now call) db).0, (s, (f up (env.now call) db).1))
  unfolding on_db
  on_db-quiet quiet call f s db = rw (quiet.0 call (s, db), quiet.1 call) refl

  pub on_store-quiet :
      {A : Type 0}
      → Quiet
      → (call : Call) (f : Link → ℕ → r.Store → A × r.Store) (s : r.Store) (db : m.Db)
      → on_store r m env call f (s, db)
        ≡ ((f up (env.now call) s).0, ((f up (env.now call) s).1, db))
  unfolding on_store
  on_store-quiet quiet call f s db = rw (quiet.0 call (s, db), quiet.1 call) refl

  pub save_hit :
      Quiet
      → (db : m.Db) (now : ℕ) (t row : Task) → Current db t row
      → let ((result, t'), db') = save r c m env t up now db in
        (result ≡ updated)
        × (t' ≡ bumped m mysql now t)
        × (m.find_task db' t.id ≡ some (merge row (bumped m mysql now t) now))
  unfolding save
  save_hit quiet db now t row (e, v) =
      let (hit, b, found, rest) = update_hit m mysql db now t row e v in (hit, b, found)

  pub drop-quiet :
      Quiet
      → (task : Task) (s : r.Store) (db : m.Db)
      → drop r c m env task (s, db) ≡ ((ack r c up task.queue_name task.id s).1, db)
  unfolding drop
  drop-quiet quiet task s db =
      ap (λ x. x.1)
        (on_store-quiet quiet settle_queue (λ link at. ack r c link task.queue_name task.id) s db)
