-- ===== src/Broker/Settle/Outcome.antt =====
-- What `Ack` and `Nack` do to the store, and what a pipeline cut short leaves behind.
use dispatchhub.Prelude.{
  ℕ, ◌+◌, ◌≡◌, refl, Text, true, false, none, some, codes, same, same_refl, get_or, Bool-cases, inl,
  inr,
}
use dispatchhub.Prelude.Int.{pos, ◌+ℤ◌, neg, ltb_ℤ}
use dispatchhub.Entity.{Task, can_retry}
use dispatchhub.Redis.{Redis, IsRedis}
use dispatchhub.Redis.Laws.{redis_laws}
use dispatchhub.Redis.Call.{up, cut}
use dispatchhub.Broker.Codec.{Codec}
use dispatchhub.Broker.Keys.{
  ready_key_for, delayed_key_for, inflight_key_for, lease_key_for, stats_key_for,
}
use dispatchhub.Broker.Keys.Apart.{keys}
use dispatchhub.Broker.Backoff.{compute_retry_backoff}
use dispatchhub.Broker.Reply.{ok, err, pipeline_failed, unix_milli}
use dispatchhub.Broker.Settle.{ack, nack}

ruleset store_rules = (redis_laws, keys, same_refl)

module _ (r : Redis) (c : Codec) ⦃redis : IsRedis r⦄ where
  open r use {Store}

  -- Neither inflight nor leased.
  abbrev pub Released : Store → Text → Text → Type 0
  Released s queue task_id =
      (r.hget s (inflight_key_for queue) task_id ≡ none)
      × (r.zscore s (lease_key_for queue) task_id ≡ none)

  abbrev pub counter : Store → Text → Text → ℕ
  counter s queue field = get_or 0 (r.hget_int s (stats_key_for queue) field)

  -- Ready and delayed sets of all queues are the same.
  abbrev pub SameQueues : Store → Store → Type 0
  SameQueues s s' =
      (queue d : Text)
      → (r.zscore s' (ready_key_for queue) d ≡ r.zscore s (ready_key_for queue) d)
        × (r.zscore s' (delayed_key_for queue) d ≡ r.zscore s (delayed_key_for queue) d)

  -- Ack releases the task, counts it as completed, leaves the other tasks inflight, and touches no
  -- ready or delayed set.
  pub ack_outcome :
      (s : Store) (queue task_id : Text)
      → let (reply, s') = ack r c up queue task_id s in
        (reply ≡ ok tt)
        × Released s' queue task_id
        × (counter s' queue (codes "completed") ≡ counter s queue (codes "completed") + 1)
        × ((other : Text)
            → same task_id other ≡ false
            → r.hget s' (inflight_key_for queue) other ≡ r.hget s (inflight_key_for queue) other)
        × SameQueues s s'
  unfolding ack
  ack_outcome s queue task_id = (
    refl,
    simp store_rules (refl, refl),
    simp store_rules,
    λ other ne. simp (store_rules, ne),
    λ q d. simp store_rules (refl, refl),
  )

  -- Ack never counts a failure.
  pub ack-failed :
      (s : Store) (queue task_id : Text)
      → counter (ack r c up queue task_id s).1 queue (codes "failed")
        ≡ counter s queue (codes "failed")
  unfolding ack same
  ack-failed s queue task_id = simp store_rules

  -- What Nack does to the queues: a task that can be retried goes to the delayed set when it has a
  -- backoff, and to the ready set when it has none; any other task is counted as failed.
  abbrev pub Requeued : Store → Store → (ℕ → ℕ) → ℕ → Text → Task → Text → Type 0
  Requeued s s' rand now queue task d =
      (can_retry task ≡ true
        → ltb_ℤ (pos 0) task.retry_backoff ≡ true
        → r.zscore s' (delayed_key_for queue) d
          ≡ some (
              unix_milli
                (pos now +ℤ compute_retry_backoff rand task.retry_backoff task.retry_count)))
      × (can_retry task ≡ true
          → ltb_ℤ (pos 0) task.retry_backoff ≡ false
          → r.zscore s' (ready_key_for queue) d ≡ some (neg task.priority))
      × (can_retry task ≡ false
          → (counter s' queue (codes "failed") ≡ counter s queue (codes "failed") + 1)
            × SameQueues s s')

  -- With the server in reach, Nack of a task that marshals releases it, and requeues it or counts it, on
  -- every branch.
  pub nack_outcome :
      (s : Store) (rand : ℕ → ℕ) (now : ℕ) (queue : Text) (task : Task) (d : Text)
      → c.marshal task ≡ some d
      → let (reply, s') = nack r c up rand now queue task s in
        (reply ≡ ok tt) × Released s' queue task.id × Requeued s s' rand now queue task d
  unfolding nack
  nack_outcome s rand now queue task d m = elim (Bool-cases (can_retry task)) [
    | inl retry ↦ elim (Bool-cases (ltb_ℤ (pos 0) task.retry_backoff)) [
      | inl later ↦
          rw (retry, later, m, nack)
            (refl, simp store_rules (refl, refl), (λ p q. simp store_rules, λ p q. cc, λ p. cc))
      | inr now ↦
          rw (retry, now, m, nack)
            (refl, simp store_rules (refl, refl), (λ p q. cc, λ p q. simp store_rules, λ p. cc))
    ]
    | inr exhausted ↦
        rw (exhausted, nack)
          (
            refl,
            simp store_rules (refl, refl),
            (λ p q. cc, λ p q. cc, λ p. (simp store_rules, λ q d. simp store_rules (refl, refl))),
          )
  ]

  -- A pipeline of Nack that the server executes only in its first two commands releases the task and
  -- requeues it nowhere: Redis holds no trace of it in any ready or delayed set that was not there
  -- before, although it can be retried.
  pub nack_cut_loses :
      (s : Store) (rand : ℕ → ℕ) (now : ℕ) (queue : Text) (task : Task) (d : Text)
      → c.marshal task ≡ some d
      → can_retry task ≡ true
      → let (reply, s') = nack r c (cut 2) rand now queue task s in
        (reply ≡ err pipeline_failed) × Released s' queue task.id × SameQueues s s'
  unfolding nack
  nack_cut_loses s rand now queue task d m retry =
      elim (Bool-cases (ltb_ℤ (pos 0) task.retry_backoff)) [
        | inl later ↦
            rw (retry, later, m, nack)
              (refl, simp store_rules (refl, refl), λ q e. simp store_rules (refl, refl))
        | inr now ↦
            rw (retry, now, m, nack)
              (refl, simp store_rules (refl, refl), λ q e. simp store_rules (refl, refl))
      ]
