-- ===== src/Broker/Maintain/Reclaim/Loop.antt =====
-- The loop of the reclaim script: what it leaves of the leases, the inflight hash and the ready set.
use dispatchhub.Prelude.{
  ℕ, suc, ◌+◌, ◌≤◌, ◌≡◌, ◌∙◌, refl, Text, true, false, none, some, List, [], ◌∷◌, same, same_refl,
  same_iff, contains, All, length, if◌then◌else◌, Option-cases, inl, inr, arith,
}
use dispatchhub.Prelude.Int.{ℤ, neg, ◌≤ℤ◌, ◌<ℤ◌}
use dispatchhub.Entity.{Task}
use dispatchhub.Redis.{Redis, IsRedis}
use dispatchhub.Redis.Laws.{redis_laws}
use dispatchhub.Redis.Call.{Reply}
use dispatchhub.Broker.Codec.{Codec, IsCodec}
use dispatchhub.Broker.Keys.{ready_key_for, inflight_key_for, lease_key_for}
use dispatchhub.Broker.Keys.Apart.{keys}
use dispatchhub.Broker.Maintain.{put_back, reclaim_loop}

ruleset store_rules = (redis_laws, keys, same_refl)

module _ (r : Redis) (c : Codec) ⦃redis : IsRedis r⦄ ⦃codec : IsCodec c⦄ where
  open r use {Store}

  -- Every entry of the inflight hash is a task, as the dequeue script wrote it.
  abbrev pub Inflight : Store → Text → Type 0
  Inflight s queue =
      (task_id d : Text)
      → r.hget s (inflight_key_for queue) task_id ≡ some d
      → (t : Task) × (c.marshal t ≡ some d)

  -- The store after one expired lease.
  abbrev back : Text → Text → Text → Task → Store → Store
  back queue task_id d t s =
      r.zadd (r.hdel (r.zrem s (lease_key_for queue) task_id) (inflight_key_for queue) task_id)
        (ready_key_for queue) (neg t.priority) d

  back-Inflight :
      (queue task_id d : Text) (t : Task) (s : Store)
      → Inflight s queue
      → Inflight (back queue task_id d t s) queue
  back-Inflight queue task_id d t s all j e h = all j e (released_of j e (simp store_rules at h))
    where
      released_of :
          (j e : Text)
          → (if same task_id j then none else r.hget s (inflight_key_for queue) j) ≡ some e
          → r.hget s (inflight_key_for queue) j ≡ some e
      released_of j e h = ground arith

  gone-Inflight :
      (queue task_id : Text) (s : Store)
      → Inflight s queue
      → Inflight (r.zrem s (lease_key_for queue) task_id) queue
  gone-Inflight queue task_id s all j e h = all j e (simp store_rules at h)

  pub not_due :
      (s : Store) (queue : Text) (top : ℤ) (j : Text) (deadline : ℤ) (ids : List Text)
      → All (λ x. (k : ℤ) × (r.zscore s (lease_key_for queue) x ≡ some k) × (k ≤ℤ top)) ids
      → r.zscore s (lease_key_for queue) j ≡ some deadline
      → top <ℤ deadline
      → contains j ids ≡ false
  unfolding contains
  not_due s queue top j deadline [] all at late = refl
  not_due s queue top j deadline (x ∷ ids) ((k, at_x, le), all) at late =
      ground (arith, same_iff x j, not_due s queue top j deadline ids all at late)

  -- A task whose lease was among the expired ones is released; if it was inflight, it is ready.
  abbrev pub LoopDone : Text → List Text → Store → Store → Type 0
  LoopDone queue ids s s' =
      ((j : Text)
        → (r.zscore s' (lease_key_for queue) j
            ≡ (if contains j ids then none else r.zscore s (lease_key_for queue) j))
          × (r.hget s' (inflight_key_for queue) j
              ≡ (if contains j ids then none else r.hget s (inflight_key_for queue) j)))
      × ((j d : Text) (t : Task)
          → contains j ids ≡ true
          → r.hget s (inflight_key_for queue) j ≡ some d
          → c.marshal t ≡ some d
          → r.zscore s' (ready_key_for queue) d ≡ some (neg t.priority))
      × ((d : Text) (t : Task)
          → c.marshal t ≡ some d
          → r.zscore s (ready_key_for queue) d ≡ some (neg t.priority)
          → r.zscore s' (ready_key_for queue) d ≡ some (neg t.priority))

  gone_facts :
      (queue x j d : Text) (s : Store)
      → let s' = r.zrem s (lease_key_for queue) x in
        (r.zscore s' (lease_key_for queue) j
          ≡ (if same x j then none else r.zscore s (lease_key_for queue) j))
        × (r.hget s' (inflight_key_for queue) j ≡ r.hget s (inflight_key_for queue) j)
        × (r.zscore s' (ready_key_for queue) d ≡ r.zscore s (ready_key_for queue) d)
  gone_facts queue x j d s = simp store_rules (refl, refl, refl)

  back_facts :
      (queue x d : Text) (t : Task) (j d' : Text) (s : Store)
      → let s' = back queue x d t s in
        (r.zscore s' (lease_key_for queue) j
          ≡ (if same x j then none else r.zscore s (lease_key_for queue) j))
        × (r.hget s' (inflight_key_for queue) j
            ≡ (if same x j then none else r.hget s (inflight_key_for queue) j))
        × (r.zscore s' (ready_key_for queue) d'
            ≡ (if same d d' then some (neg t.priority) else r.zscore s (ready_key_for queue) d'))
  back_facts queue x d t j d' s = simp store_rules (refl, refl, refl)

  abbrev pub loop : Text → ℕ → List Text → Store → Reply ℕ × Store
  loop queue = reclaim_loop r c (lease_key_for queue) (inflight_key_for queue) (ready_key_for queue)

  loop_absent :
      (queue : Text) (n : ℕ) (x : Text) (ids : List Text) (s : Store)
      → r.hget s (inflight_key_for queue) x ≡ none
      → loop queue n (x ∷ ids) s ≡ loop queue n ids (r.zrem s (lease_key_for queue) x)
  unfolding reclaim_loop
  loop_absent queue n x ids s e = rw (e, reclaim_loop)

  put_back_task :
      (queue x d : Text) (t : Task) (s : Store)
      → c.marshal t ≡ some d
      → put_back r c
          (inflight_key_for queue)
          (ready_key_for queue)
          x
          d
          (c.cjson_decode d)
          (r.zrem s (lease_key_for queue) x)
        ≡ (true, back queue x d t s)
  unfolding put_back
  put_back_task queue x d t s m = rw (codec.cjson_decode-marshal t d m, put_back)

  loop_present :
      (queue : Text) (n : ℕ) (x d : Text) (t : Task) (ids : List Text) (s : Store)
      → r.hget s (inflight_key_for queue) x ≡ some d
      → c.marshal t ≡ some d
      → loop queue n (x ∷ ids) s ≡ loop queue (suc n) ids (back queue x d t s)
  unfolding reclaim_loop
  loop_present queue n x d t ids s e m =
      rw (e, reclaim_loop)
        (rw (put_back_task queue x d t s m, reclaim_loop) (rw (put_back_task queue x d t s m)))

  same_priority :
      (t t' : Task) (d : Text)
      → c.marshal t ≡ some d
      → c.marshal t' ≡ some d
      → t.priority ≡ t'.priority
  same_priority t t' d m m' =
      ground (arith, codec.cjson_decode-marshal t d m, codec.cjson_decode-marshal t' d m')

  done_absent :
      (queue x : Text) (ids : List Text) (s s' : Store)
      → r.hget s (inflight_key_for queue) x ≡ none
      → LoopDone queue ids (r.zrem s (lease_key_for queue) x) s'
      → LoopDone queue (x ∷ ids) s s'
  unfolding contains
  done_absent queue x ids s s' e done = (
    (λ j. ground (arith, done.0 j, gone_facts queue x j j s, same_iff x j)),
    (λ j d t h q m. ground (arith, done.1 j d t, gone_facts queue x j d s, same_iff x j)),
    (λ d t m q. ground (arith, done.2 d t, gone_facts queue x x d s)),
  )

  done_present :
      (queue x d : Text) (t : Task) (ids : List Text) (s s' : Store)
      → r.hget s (inflight_key_for queue) x ≡ some d
      → c.marshal t ≡ some d
      → LoopDone queue ids (back queue x d t s) s'
      → LoopDone queue (x ∷ ids) s s'
  unfolding contains
  done_present queue x d t ids s s' e m done = (
    (λ j. ground (arith, done.0 j, back_facts queue x d t j j s, same_iff x j)),
    (λ j d' t' h q m'. ground (
      arith,
      done.1 j d' t',
      done.2 d' t',
      back_facts queue x d t j d' s,
      same_iff x j,
      same_iff d d',
      same_priority t t' d m,
    )),
    (λ d' t' m' q. ground (
      arith,
      done.2 d' t',
      back_facts queue x d t x d' s,
      same_iff d d',
      same_priority t t' d m,
    )),
  )

  pub reclaim_loop-LoopDone :
      (queue : Text) (n : ℕ) (ids : List Text) (s : Store)
      → Inflight s queue
      → (m : ℕ) × (s' : Store) × (m ≤ n + length ids)
        × (loop queue n ids s ≡ (Reply.ok m, s'))
        × LoopDone queue ids s s'
  reclaim_loop-LoopDone queue n [] s all = (
    n,
    s,
    omega arith,
    unfold reclaim_loop in refl,
    unfold contains in ((λ j. (refl, refl)), (λ j d t h. cc), (λ d t m h. h)),
  )
  reclaim_loop-LoopDone queue n (x ∷ ids) s all =
      elim (Option-cases (r.hget s (inflight_key_for queue) x)) [
        | inl e ↦
            let (m, s', le, run, done) =
              reclaim_loop-LoopDone queue n ids (r.zrem s (lease_key_for queue) x)
                (gone-Inflight queue x s all) in
            (
              m,
              s',
              omega arith,
              loop_absent queue n x ids s e ∙ run,
              done_absent queue x ids s s' e done,
            )
        | inr (d, e) ↦
            let (t, mar) = all x d e in
            let (m, s', le, run, done) =
              reclaim_loop-LoopDone queue (suc n) ids (back queue x d t s)
                (back-Inflight queue x d t s all) in
            (
              m,
              s',
              omega arith,
              loop_present queue n x d t ids s e mar ∙ run,
              done_present queue x d t ids s s' e mar done,
            )
      ]
