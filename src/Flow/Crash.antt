-- ===== src/Flow/Crash.antt =====
-- A worker that takes a task by Dequeue and is not heard of again, and the ReclaimInflight after it, both of
-- internal/shared/infrastructure/persistence/redis/queue_broker.go.
use dispatchhub.Prelude.{
  ℕ, ◌<◌, ◌≡◌, ap, ◌∙◌, sym, subst, Text, none, some, [], ◌∷◌, length, inl, inr,
}
use dispatchhub.Prelude.Int.{ℤ, pos, neg, ◌≤ℤ◌}
use dispatchhub.Entity.{Task}
use dispatchhub.Redis.{Redis, IsRedis}
use dispatchhub.Redis.Call.{up}
use dispatchhub.Broker.Codec.{Codec, IsCodec}
use dispatchhub.Broker.Keys.{ready_key_for, inflight_key_for, lease_key_for}
use dispatchhub.Broker.Keys.Derived.{IsClear}
use dispatchhub.Broker.Reply.{ok, millis}
use dispatchhub.Broker.Queue.{dequeue}
use dispatchhub.Broker.Queue.Dequeue.{Holds, lease_until, dequeue_outcome}
use dispatchhub.Broker.Maintain.{reclaim_inflight}
use dispatchhub.Broker.Maintain.Reclaim.{Inflight, batch_of, reclaim_outcome}

module _ (r : Redis) (c : Codec) ⦃redis : IsRedis r⦄ ⦃codec : IsCodec c⦄ where
  open r use {Store}

  ok_task : (u t : Task) → ok (some u) ≡ ok (some t) → u ≡ t
  ok_task u t e = cc e

  some_task : {u t : Task} → some u ≡ some t → u ≡ t
  some_task e = cc e

  -- What a Dequeue from one queue that finds a task leaves.
  abbrev TakenFrom : Text → ℕ → Task → Store → Type 0
  TakenFrom queue now t s =
      (d : Text) × (c.unmarshal d ≡ some t)
      × (r.hget s (inflight_key_for queue) t.id ≡ some d)
      × (r.zscore s (lease_key_for queue) t.id ≡ some (lease_until r c now t))

  dequeue-TakenFrom :
      (queue : Text) (now : ℕ) (t : Task) (s s' : Store)
      → IsClear queue
      → Holds r c s queue
      → dequeue r c up up now (queue ∷ []) s ≡ (ok (some t), s')
      → TakenFrom queue now t s'
  dequeue-TakenFrom queue now t s s' clear holds run =
      elim (dequeue_outcome r c redis codec s now (queue ∷ []) (clear, tt) (holds, tt)) [
        | inl (none_run, empty) ↦ absurd (cc (sym none_run ∙ run))
        | inr (d, u, s1, some_run, back, inr (empty, never)) ↦ absurd never
        | inr (d, u, s1, some_run, back, inl (lowest, gone, held, lease)) ↦
            let both : (ok (some u), s1) ≡ (ok (some t), s') = sym some_run ∙ run in
            let task : u ≡ t = ok_task u t (ap (λ x. x.0) both) in
            let store : s1 ≡ s' = ap (λ x. x.1) both in
            subst (λ x. TakenFrom queue now x s') task
              (subst (TakenFrom queue now u) store (d, back, held, lease))
      ]

  -- A task is taken by Dequeue from one queue, whose name the script maps to the right keys and whose
  -- ready set holds tasks of its own, and its worker is not heard of again. After the first
  -- ReclaimInflight that comes when its lease has run out, reaches the server, finds every inflight entry
  -- a task and does not fill its batch, the task is neither inflight nor leased and is ready again under
  -- its priority, whatever happens in between to other tasks.
  pub crashed_task_returns :
      (queue : Text) (now later : ℕ) (t : Task) (s s' later_s : Store) (batch_size : ℤ)
      → IsClear queue
      → Holds r c s queue
      → dequeue r c up up now (queue ∷ []) s ≡ (ok (some t), s')
      → r.hget later_s (inflight_key_for queue) t.id ≡ r.hget s' (inflight_key_for queue) t.id
      → r.zscore later_s (lease_key_for queue) t.id ≡ r.zscore s' (lease_key_for queue) t.id
      → Inflight r c later_s queue
      → lease_until r c now t ≤ℤ pos (millis later)
      → length (
          r.zrangebyscore later_s
            (lease_key_for queue)
            (pos (millis later))
            (batch_of r c batch_size))
        < batch_of r c batch_size
      → (n : ℕ) × (s'' : Store) × (d : Text) × (reclaim_inflight r c up later queue batch_size
            later_s
          ≡ (ok n, s''))
        × (c.unmarshal d ≡ some t)
        × (r.zscore s'' (lease_key_for queue) t.id ≡ none)
        × (r.hget s'' (inflight_key_for queue) t.id ≡ none)
        × (r.zscore s'' (ready_key_for queue) d ≡ some (neg t.priority))
  crashed_task_returns queue now later t s s' later_s batch_size clear holds run same_hash
        same_lease tasks over short =
      let (d, back, held, lease) = dequeue-TakenFrom queue now t s s' clear holds run in
      let held' = same_hash ∙ held in
      let (u, mar) = tasks t.id d held' in
      let (p, unm) = codec.unmarshal-marshal u d mar in
      let written : record u { payload = p } ≡ t = some_task (sym unm ∙ back) in
      let (n, s'', done, le, due, rest) =
        reclaim_outcome r c later_s later queue batch_size tasks in
      let (unleased, released, ready) =
        due t.id d u (lease_until r c now t) (same_lease ∙ lease) over short in
      (
        n,
        s'',
        d,
        done,
        back,
        unleased,
        released,
        ready held' mar ∙ ap (λ x. some (neg x.priority)) written,
      )
