-- ===== src/Broker/Maintain/Compensate.antt =====
-- What `EnqueueIfNotInflight` leaves of the other tasks.
use dispatchhub.Prelude.{
  ◌≡◌, refl, Text, Bool, true, ◌||◌, not, some, same_refl, same_iff, is_some, Bool-cases, inl, inr,
  arith,
}
use dispatchhub.Prelude.Int.{neg}
use dispatchhub.Entity.{Task}
use dispatchhub.Redis.{Redis, IsRedis}
use dispatchhub.Redis.Laws.{redis_laws}
use dispatchhub.Redis.Call.{up}
use dispatchhub.Broker.Codec.{Codec}
use dispatchhub.Broker.Keys.{ready_key_for, delayed_key_for, inflight_key_for}
use dispatchhub.Broker.Keys.Apart.{keys}
use dispatchhub.Broker.Reply.{ok}
use dispatchhub.Broker.Maintain.{enqueue_if_not_inflight}

ruleset store_rules = (redis_laws, keys, same_refl)

module _ (r : Redis) (c : Codec) where
  open r use {Store}

  -- The task is inflight, or ready.
  abbrev pub is_held : Store → Task → Text → Bool
  is_held s t d =
      is_some (r.hget s (inflight_key_for t.queue_name) t.id)
      || is_some (r.zscore s (ready_key_for t.queue_name) d)

  -- What is inflight and what is delayed stays the same, and what is ready stays ready.
  abbrev pub Grown : Store → Store → Type 0
  Grown s s' =
      (q x : Text)
      → (r.hget s' (inflight_key_for q) x ≡ r.hget s (inflight_key_for q) x)
        × (r.zscore s' (delayed_key_for q) x ≡ r.zscore s (delayed_key_for q) x)
        × ((not (is_some (r.zscore s (ready_key_for q) x))
              || is_some (r.zscore s' (ready_key_for q) x))
            ≡ true)

  pub Grown-refl : (s : Store) → Grown s s
  Grown-refl s q x = (refl, refl, ground arith)

  pub Grown-trans : (s s' s'' : Store) → Grown s s' → Grown s' s'' → Grown s s''
  Grown-trans s s' s'' g h q x =
      (ground (arith, g q x, h q x), ground (arith, g q x, h q x), ground (arith, g q x, h q x))

  pub Grown-is_held :
      (s s' : Store) (t : Task) (d : Text)
      → Grown s s'
      → is_held s t d ≡ true
      → is_held s' t d ≡ true
  Grown-is_held s s' t d g h = ground (arith, g t.queue_name t.id, g t.queue_name d)

  module _ ⦃redis : IsRedis r⦄ where
    zadd-Grown :
        (s : Store) (t : Task) (d : Text)
        → Grown s (r.zadd s (ready_key_for t.queue_name) (neg t.priority) d)
    zadd-Grown s t d q x = (
      simp store_rules,
      simp store_rules,
      simp store_rules (ground (arith, same_iff t.queue_name q, same_iff d x)),
    )

    pub enqueue_if_not_inflight-Grown :
        (s : Store) (t : Task) (d : Text)
        → c.marshal t ≡ some d
        → let (reply, s') = enqueue_if_not_inflight r c up t.queue_name t s in
          (reply ≡ ok (not (is_some (r.hget s (inflight_key_for t.queue_name) t.id))))
          × Grown s s'
          × (is_held s' t d ≡ true)
    unfolding enqueue_if_not_inflight
    enqueue_if_not_inflight-Grown s t d m =
        elim (Bool-cases (is_some (r.hget s (inflight_key_for t.queue_name) t.id))) [
          | inl e ↦ rw (m, e, enqueue_if_not_inflight) (refl, Grown-refl s, rw e refl)
          | inr e ↦
              rw (m, e, enqueue_if_not_inflight)
                (refl, zadd-Grown s t d, simp store_rules (rw e refl))
        ]
