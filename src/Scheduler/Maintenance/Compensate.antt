-- ===== src/Scheduler/Maintenance/Compensate.antt =====
-- What a round of compensation leaves behind.
use dispatchhub.Prelude.{
  ℕ, suc, ◌+◌, ◌-◌, ◌≡◌, refl, ap, ◌∙◌, Text, true, Option, none, some, List, [], ◌∷◌, All, not,
  is_some, arith,
}
use dispatchhub.Entity.{Task}
use dispatchhub.Entity.State.{pending}
use dispatchhub.Redis.{Redis, IsRedis}
use dispatchhub.Redis.Call.{up}
use dispatchhub.Broker.Codec.{Codec}
use dispatchhub.Broker.Keys.{inflight_key_for}
use dispatchhub.Broker.Reply.{ok}
use dispatchhub.Broker.Maintain.{enqueue_if_not_inflight}
use dispatchhub.Broker.Maintain.Compensate.{
  is_held, Grown, Grown-refl, Grown-trans, Grown-is_held, enqueue_if_not_inflight-Grown,
}
use dispatchhub.Mysql.Interface.{Mysql}
use dispatchhub.Mysql.Tasks.{find_stale_by_state, touch_updated_at}
use dispatchhub.Scheduler.Maintenance.{
  Calls, after_enqueue, compensate_loop, compensate_orphaned_tasks, after_find,
}

module _ (r : Redis) (c : Codec) (m : Mysql) where
  -- Every task marshals.
  abbrev pub Marshalled : List Task → Type 0
  Marshalled = All (λ t. (d : Text) × (c.marshal t ≡ some d))

  -- Every task is inflight, or ready.
  abbrev pub Held : r.Store → List Task → Type 0
  Held s = All (λ t. (d : Text) × (c.marshal t ≡ some d) × (is_held r c s t d ≡ true))

  -- How many of the tasks are not inflight.
  abbrev count_absent : Option Text → ℕ → ℕ
  count_absent none n = suc n
  count_absent (some d) n = n

  abbrev pub orphans : r.Store → List Task → ℕ
  orphans s [] = 0
  orphans s (t ∷ ts) = count_absent (r.hget s (inflight_key_for t.queue_name) t.id) (orphans s ts)

  orphans-Grown : (s s' : r.Store) (ts : List Task) → Grown r c s s' → orphans s' ts ≡ orphans s ts
  orphans-Grown s s' [] g = refl
  orphans-Grown s s' (t ∷ ts) g =
      ap (λ o. count_absent o (orphans s' ts)) (g t.queue_name t.id).0
      ∙ ap (count_absent (r.hget s (inflight_key_for t.queue_name) t.id)) (orphans-Grown s s' ts g)

  abbrev touched : Calls → Task → Option Text → m.Db → m.Db
  touched calls t none db = (touch_updated_at m (calls.touch t.id) (calls.now t.id) t.id db).1
  touched calls t (some d) db = db

  after_enqueue-found :
      (calls : Calls) (n : ℕ) (t : Task) (db : m.Db) (s : r.Store) (o : Option Text)
      → after_enqueue r c m calls n t db (ok (not (is_some o)), s)
        ≡ (count_absent o n, none, s, touched calls t o db)
  unfolding after_enqueue
  after_enqueue-found calls n t db s none = refl
  after_enqueue-found calls n t db s (some d) = refl

  count_absent_add : (o : Option Text) (n k : ℕ) → count_absent o n + k ≡ n + count_absent o k
  count_absent_add none n k = omega arith
  count_absent_add (some d) n k = refl

  module _ ⦃redis : IsRedis r⦄ where
    -- One turn of the loop.
    compensate_loop-cons :
        (calls : Calls) (n : ℕ) (t : Task) (ts : List Task) (s : r.Store) (db : m.Db) (d : Text)
        → calls.push t.id ≡ up
        → c.marshal t ≡ some d
        → let old = r.hget s (inflight_key_for t.queue_name) t.id in
          compensate_loop r c m calls n (t ∷ ts) s db
          ≡ compensate_loop r c m calls
              (count_absent old n)
              ts
              (enqueue_if_not_inflight r c up t.queue_name t s).1
              (touched calls t old db)
    unfolding compensate_loop
    compensate_loop-cons calls n t ts s db d reach mar =
        let old = r.hget s (inflight_key_for t.queue_name) t.id in
        let s' = (enqueue_if_not_inflight r c up t.queue_name t s).1 in
        let (reply, grown, held) = enqueue_if_not_inflight-Grown r c s t d mar in
        let turn =
          ap
            (λ l. after_enqueue r c m calls n t db (enqueue_if_not_inflight r c l t.queue_name t s))
            reach
          ∙ ap (λ x. after_enqueue r c m calls n t db (x, s')) reply
          ∙ after_enqueue-found calls n t db s' old in
        ap
          (λ one. elim one.1 [
            | none ↦ compensate_loop r c m calls one.0 ts one.2 one.3
            | some e ↦ (one.0, some e, one.2, one.3)
          ])
          turn

    abbrev LoopDone : Calls → ℕ → List Task → r.Store → m.Db → Type 0
    LoopDone calls n ts s db =
        (s' : r.Store) × (db' : m.Db) × (compensate_loop r c m calls n ts s db
          ≡ (n + orphans s ts, none, s', db'))
        × Grown r c s s'
        × Held s' ts

    compensate_loop-LoopDone :
        (calls : Calls) (n : ℕ) (ts : List Task) (s : r.Store) (db : m.Db)
        → ((j : Text) → calls.push j ≡ up)
        → Marshalled ts
        → LoopDone calls n ts s db
    unfolding compensate_loop
    compensate_loop-LoopDone calls n [] s db reach all = (s, db, ground arith, Grown-refl r c s, tt)
    compensate_loop-LoopDone calls n (t ∷ ts) s db reach ((d, mar), all) =
        let old = r.hget s (inflight_key_for t.queue_name) t.id in
        let s1 = (enqueue_if_not_inflight r c up t.queue_name t s).1 in
        let (reply, grown, held) = enqueue_if_not_inflight-Grown r c s t d mar in
        let (s', db', run, grown', helds) =
          compensate_loop-LoopDone calls (count_absent old n) ts s1 (touched calls t old db) reach
            all in
        (
          s',
          db',
          compensate_loop-cons calls n t ts s db d (reach t.id) mar
              ∙ run
              ∙ ap (λ k. (count_absent old n + k, none, s', db')) (orphans-Grown s s1 ts grown)
              ∙ ap (λ k. (k, none, s', db')) (count_absent_add old n (orphans s ts)),
          Grown-trans r c s s1 s' grown grown',
          ((d, mar, Grown-is_held r c s1 s' t d grown' held), helds),
        )

    -- With the servers in reach, and if every old pending task that the query returns marshals,
    -- CompensateOrphanedTasks succeeds: every such task is inflight or ready afterwards, whether or not it waits for a later time, and the number
    -- that comes back is that of those that were not inflight. What was inflight, ready or delayed
    -- stays so.
    pub compensate_outcome :
        (calls : Calls) (now older_than limit : ℕ) (s : r.Store) (db : m.Db)
        → ((j : Text) → calls.push j ≡ up)
        → Marshalled (m.find_stale db pending (now - older_than) limit)
        → let tasks = m.find_stale db pending (now - older_than) limit in
          (s' : r.Store) × (db' : m.Db) × (compensate_orphaned_tasks r c m up calls now older_than
              limit s db
            ≡ (orphans s tasks, none, s', db'))
          × Held s' tasks
          × Grown r c s s'
    unfolding compensate_orphaned_tasks find_stale_by_state after_find
    compensate_outcome calls now older_than limit s db reach all =
        let (s', db', run, grown, held) =
          compensate_loop-LoopDone calls 0 (m.find_stale db pending (now - older_than) limit) s db
            reach all in
        (s', db', run ∙ ap (λ k. (k, none, s', db')) (omega arith), held, grown)
