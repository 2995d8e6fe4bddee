-- ===== src/Broker/Maintain/Reclaim.antt =====
-- What `ReclaimInflight` does to the store.
mod Loop
pub use Loop.{Inflight}
use Loop.{not_due, reclaim_loop-LoopDone}
use dispatchhub.Prelude.{
  ℕ, suc, ◌+◌, ◌≤◌, ◌<◌, ◌≡◌, ◌∙◌, refl, Text, true, false, none, some, List, [], ◌∷◌, same,
  same_refl, same_iff, contains, Occurs-contains, All, length, if◌then◌else◌, Option-cases, inl,
  inr, arith,
}
use dispatchhub.Prelude.Int.{ℤ, pos, neg, ◌≤ℤ◌, ◌<ℤ◌, leb_ℤ, pos_part}
use dispatchhub.Entity.{Task}
use dispatchhub.Redis.{Redis, IsRedis}
use dispatchhub.Redis.Laws.{redis_laws}
use dispatchhub.Redis.Call.{up, Reply}
use dispatchhub.Broker.Codec.{Codec, IsCodec}
use dispatchhub.Broker.Keys.{ready_key_for, inflight_key_for, lease_key_for}
use dispatchhub.Broker.Keys.Apart.{keys}
use dispatchhub.Broker.Reply.{ok, millis}
use dispatchhub.Broker.Maintain.{put_back, reclaim_loop, reclaim_inflight, default_reclaim_batch}

ruleset store_rules = (redis_laws, keys, same_refl)

module _ (r : Redis) (c : Codec) ⦃redis : IsRedis r⦄ ⦃codec : IsCodec c⦄ where
  open r use {Store}

  abbrev pub batch_of : ℤ → ℕ
  batch_of batch_size =
      if leb_ℤ batch_size (pos 0) then default_reclaim_batch else pos_part batch_size

  -- With the server in reach and every inflight entry of the queue a task, ReclaimInflight succeeds and
  -- returns at most the batch size. If the query finds fewer expired leases than the batch size, a task
  -- whose lease had run out holds no lease, is not inflight, and is ready under its priority if it was
  -- inflight. A task whose lease still runs keeps it and stays inflight as it was.
  pub reclaim_outcome :
      (s : Store) (now : ℕ) (queue : Text) (batch_size : ℤ)
      → Inflight r c s queue
      → (n : ℕ) × (s' : Store) × (reclaim_inflight r c up now queue batch_size s ≡ (ok n, s'))
        × (n ≤ batch_of batch_size)
        × ((task_id d : Text) (t : Task) (deadline : ℤ)
            → r.zscore s (lease_key_for queue) task_id ≡ some deadline
            → deadline ≤ℤ pos (millis now)
            → length
                (r.zrangebyscore s (lease_key_for queue) (pos (millis now)) (batch_of batch_size))
              < batch_of batch_size
            → (r.zscore s' (lease_key_for queue) task_id ≡ none)
              × (r.hget s' (inflight_key_for queue) task_id ≡ none)
              × (r.hget s (inflight_key_for queue) task_id ≡ some d
                  → c.marshal t ≡ some d
                  → r.zscore s' (ready_key_for queue) d ≡ some (neg t.priority)))
        × ((task_id : Text) (deadline : ℤ)
            → r.zscore s (lease_key_for queue) task_id ≡ some deadline
            → pos (millis now) <ℤ deadline
            → (r.zscore s' (lease_key_for queue) task_id ≡ some deadline)
              × (r.hget s' (inflight_key_for queue) task_id
                  ≡ r.hget s (inflight_key_for queue) task_id))
  unfolding reclaim_inflight
  reclaim_outcome s now queue batch_size all =
      let top = pos (millis now) in
      let batch = batch_of batch_size in
      let ids = r.zrangebyscore s (lease_key_for queue) top batch in
      let (n, s', le, run, done) = reclaim_loop-LoopDone r c queue 0 ids s all in
      (
        n,
        s',
        rw (run, reclaim_inflight),
        omega (arith, redis.range_limit s (lease_key_for queue) top batch),
        (λ task_id d t deadline at over short.
            let hit = Occurs-contains task_id ids (
              redis.range_complete s (lease_key_for queue) top batch task_id deadline short at
                over) in
            (
              ground (arith, done.0 task_id, hit),
              ground (arith, done.0 task_id, hit),
              λ q m. done.1 task_id d t hit q m,
            )),
        λ task_id deadline at early.
            let miss =
              not_due r c s queue top task_id deadline ids
                (redis.range_sound s (lease_key_for queue) top batch) at early in
            (ground (arith, done.0 task_id, miss), ground (arith, done.0 task_id, miss)),
      )
