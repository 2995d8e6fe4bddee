-- ===== src/Broker/Queue/Dequeue.antt =====
-- What `Dequeue` does to the store, on every branch.
use dispatchhub.Prelude.{
  ℕ, ◌+◌, ◌≡◌, refl, Text, ◌⊎◌, inl, inr, none, some, List, [], ◌∷◌, map, arith, All, Option-cases,
  Bool-cases, same_refl, if◌then◌else◌,
}
use dispatchhub.Prelude.Int.{ℤ, pos, pos_part, ◌≤ℤ◌, ltb_ℤ}
use dispatchhub.Entity.{Task}
use dispatchhub.Redis.{Redis, IsRedis}
use dispatchhub.Redis.Call.{up, Reply}
use dispatchhub.Broker.Codec.{Codec, IsCodec}
use dispatchhub.Broker.Keys.{ready_key_for, inflight_key_for, lease_key_for}
use dispatchhub.Broker.Keys.Derived.{IsClear, derived_keys}
use dispatchhub.Broker.Keys.Apart.{keys}
use dispatchhub.Broker.Backoff.{default_visibility_timeout, compute_visibility_timeout}
use dispatchhub.Broker.Backoff.Bounds.{visibility-default}
use dispatchhub.Broker.Reply.{ok, millis}
use dispatchhub.Broker.Queue.{dequeue_script, dequeue, extend_lease_of}

module _ (r : Redis) (c : Codec) where
  open r use {Store}

  -- Every member of the ready set is a task of that queue, as `Enqueue` wrote it.
  abbrev pub Holds : Store → Text → Type 0
  Holds s queue =
      (d : Text) (score : ℤ)
      → r.zscore s (ready_key_for queue) d ≡ some score
      → (t : Task) × (c.marshal t ≡ some d) × (t.queue_name ≡ queue)

  abbrev pub Empty : Store → Text → Type 0
  Empty s queue = (d : Text) → r.zscore s (ready_key_for queue) d ≡ none

  -- No member of the ready set has a lower score, that is a higher priority.
  abbrev pub Lowest : Store → Text → Text → Type 0
  Lowest s queue d =
      (score : ℤ) × (r.zscore s (ready_key_for queue) d ≡ some score)
      × ((d' : Text) (score' : ℤ)
          → r.zscore s (ready_key_for queue) d' ≡ some score'
          → score ≤ℤ score')

  abbrev taken : Store → Text → Text → ℤ → Text → Store
  taken s queue id deadline d =
      r.zadd (r.hset (r.zrem s (ready_key_for queue) d) (inflight_key_for queue) id d)
        (lease_key_for queue) deadline id

  -- The first queue that is not empty gives its lowest member.
  abbrev Choice : Store → Store → ℤ → Text → Task → List Text → Type 0
  Choice s s' deadline d t [] = ⊥
  Choice s s' deadline d t (queue ∷ queues) =
      (Lowest s queue d × (t.queue_name ≡ queue) × (taken s queue t.id deadline d ≡ s'))
      ⊎ (Empty s queue × Choice s s' deadline d t queues)

  abbrev ScriptOutcome : Store → ℤ → List Text → Type 0
  ScriptOutcome s deadline queues =
      ((dequeue_script r c deadline (map ready_key_for queues) s ≡ (Reply.ok none, s))
        × All (Empty s) queues)
      ⊎ ((d : Text) × (t : Task) × (s' : Store) × (dequeue_script r c deadline
              (map ready_key_for queues) s
            ≡ (Reply.ok (some d), s'))
          × (c.marshal t ≡ some d)
          × Choice s s' deadline d t queues)

  -- The lease of a task runs for its own visibility timeout.
  abbrev pub lease_until : ℕ → Task → ℤ
  lease_until now t =
      pos (millis now + millis (pos_part (compute_visibility_timeout t.timeout_after)))

  -- The first queue that is not empty has given its lowest member: out of the ready set, into the
  -- inflight hash and under a lease.
  abbrev pub Taken : Store → Store → ℕ → Text → Task → List Text → Type 0
  Taken s s' now d t [] = ⊥
  Taken s s' now d t (queue ∷ queues) =
      (Lowest s queue d
        × (r.zscore s' (ready_key_for queue) d ≡ none)
        × (r.hget s' (inflight_key_for queue) t.id ≡ some d)
        × (r.zscore s' (lease_key_for queue) t.id ≡ some (lease_until now t)))
      ⊎ (Empty s queue × Taken s s' now d t queues)

  abbrev default_deadline : ℕ → ℤ
  default_deadline now = pos (millis now + millis (pos_part default_visibility_timeout))

  abbrev extended : ℕ → Task → Store → Store
  extended now t s =
      if ltb_ℤ default_visibility_timeout (compute_visibility_timeout t.timeout_after)
      then r.zadd s (lease_key_for t.queue_name) (lease_until now t) t.id
      else s

  module _ (redis : IsRedis r) (codec : IsCodec c) where
    first :
        (s : Store) (deadline : ℤ) (queue : Text) (queues : List Text) (d : Text) (s' : Store)
        → IsClear queue
        → Holds s queue
        → r.zpopmin s (ready_key_for queue) ≡ some (d, s')
        → ScriptOutcome s deadline (queue ∷ queues)
    unfolding dequeue_script
    first s deadline queue queues d s' clear holds e =
        let (gone, score, at, lowest) = redis.zpopmin-some s (ready_key_for queue) d s' e in
        let (t, m, q) = holds d score at in
        inr (
          d,
          t,
          taken s queue t.id deadline d,
          rw (e, dequeue_script)
              (rw (codec.cjson_decode-marshal t d m, dequeue_script, gone)
                (rw ((derived_keys queue clear).0, (derived_keys queue clear).1) refl)),
          m,
          inl ((score, at, lowest), q, refl),
        )

    script_outcome :
        (s : Store) (deadline : ℤ) (queues : List Text)
        → All IsClear queues
        → All (Holds s) queues
        → ScriptOutcome s deadline queues
    unfolding dequeue_script
    script_outcome s deadline [] clear holds = inl (refl, tt)
    script_outcome s deadline (queue ∷ queues) clear holds =
        elim (Option-cases (r.zpopmin s (ready_key_for queue))) [
          | inl e ↦ elim (script_outcome s deadline queues clear.1 holds.1) [
            | inl (same_store, empty) ↦
                inl (rw (e, dequeue_script) same_store, (redis.zpopmin-none s _ e, empty))
            | inr (d, t, s', run, m, choice) ↦
                inr
                  (d, t, s', rw (e, dequeue_script) run, m, inr (redis.zpopmin-none s _ e, choice))
          ]
          | inr ((d, s'), e) ↦ first s deadline queue queues d s' clear.0 holds.0 e
        ]

    open redis use {zscore-zadd, zscore-zrem, zscore-hset, hget-hset, hget-zadd}

    taken_facts :
        (s : Store) (queue : Text) (now : ℕ) (d : Text) (t : Task)
        → t.queue_name ≡ queue
        → let s' = extended now t (taken s queue t.id (default_deadline now) d) in
          (r.zscore s' (ready_key_for queue) d ≡ none)
          × (r.hget s' (inflight_key_for queue) t.id ≡ some d)
          × (r.zscore s' (lease_key_for queue) t.id ≡ some (lease_until now t))
    taken_facts s queue now d t q =
        elim (Bool-cases
          (ltb_ℤ default_visibility_timeout (compute_visibility_timeout t.timeout_after))) [
            | inl long ↦
                rw (long, q)
                  (simp
                    (zscore-zadd, zscore-hset, zscore-zrem, hget-zadd, hget-hset, keys, same_refl)
                    (refl, refl, refl))
            | inr short ↦
                rw (short, visibility-default t.timeout_after short)
                  (simp
                    (zscore-zadd, zscore-hset, zscore-zrem, hget-zadd, hget-hset, keys, same_refl)
                    (refl, refl, refl))
          ]

    Choice-Taken :
        (s s' : Store) (now : ℕ) (d : Text) (t : Task) (queues : List Text)
        → Choice s s' (default_deadline now) d t queues
        → Taken s (extended now t s') now d t queues
    Choice-Taken s s' now d t [] h = h
    Choice-Taken s s' now d t (queue ∷ queues) (inl (lowest, q, e)) =
        let f = rw e at (taken_facts s queue now d t q) in inl (lowest, f.0, f.1, f.2)
    Choice-Taken s s' now d t (queue ∷ queues) (inr (empty, h)) =
        inr (empty, Choice-Taken s s' now d t queues h)

    -- The payload may come back with other spacing, which no part of `Choice` reads.
    Choice-payload :
        (s s' : Store) (deadline : ℤ) (d p : Text) (t : Task) (queues : List Text)
        → Choice s s' deadline d t queues
        → Choice s s' deadline d (record t { payload = p }) queues
    Choice-payload s s' deadline d p t [] h = h
    Choice-payload s s' deadline d p t (queue ∷ queues) (inl h) = inl h
    Choice-payload s s' deadline d p t (queue ∷ queues) (inr (empty, h)) =
        inr (empty, Choice-payload s s' deadline d p t queues h)

    extend_lease_up :
        (now : ℕ) (t : Task) (s : Store)
        → extend_lease_of r c up now t s ≡ (ok (some t), extended now t s)
    unfolding extend_lease_of
    extend_lease_up now t s = ground arith

    -- With the server in reach, over queues whose ready sets hold tasks of their own queue and whose
    -- names the script maps to the right keys: either every queue is empty, and nothing changes, or
    -- the first queue that is not gives a task of the highest priority in it, which leaves the ready
    -- set, enters the inflight hash and is leased for its visibility timeout from now on.
    pub dequeue_outcome :
        (s : Store) (now : ℕ) (queues : List Text)
        → All IsClear queues
        → All (Holds s) queues
        → ((dequeue r c up up now queues s ≡ (ok none, s)) × All (Empty s) queues)
          ⊎ ((d : Text) × (t : Task) × (s' : Store) × (dequeue r c up up now queues s
                ≡ (ok (some t), s'))
              × (c.unmarshal d ≡ some t)
              × Taken s s' now d t queues)
    unfolding dequeue
    dequeue_outcome s now queues clear holds =
        elim (script_outcome s (default_deadline now) queues clear holds) [
          | inl (run, empty) ↦ inl (rw (run, dequeue), empty)
          | inr (d, t, s', run, m, choice) ↦
              let (p, u) = codec.unmarshal-marshal t d m in
              let t' : Task = record t { payload = p } in
              inr (
                d,
                t',
                extended now t' s',
                rw (run, dequeue) (rw (u, dequeue) (extend_lease_up now t' s')),
                u,
                Choice-Taken s s' now d t' queues
                    (Choice-payload s s' (default_deadline now) d p t queues choice),
              )
        ]
