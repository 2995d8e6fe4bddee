-- ===== src/Broker/Keep.antt =====
-- What it means that a call leaves no task out: a task's text stays in the ready set, in the delayed set
-- or in the inflight hash of its queue.
use dispatchhub.Prelude.{
  ℕ, zero, suc, ◌≡◌, refl, Text, Bool, true, false, ◌||◌, Option, none, some, same, same_refl,
  same_iff, is_some, Bool-cases, inl, inr, if◌then◌else◌, arith, codes,
}
use dispatchhub.Prelude.Int.{ℤ}
use dispatchhub.Redis.{Redis, IsRedis}
use dispatchhub.Redis.Laws.{redis_laws}
use dispatchhub.Redis.Call.{Link, up, cut, Reply, run_script}
use dispatchhub.Broker.Codec.{Codec}
use dispatchhub.Broker.Keys.{
  ready_key_for, delayed_key_for, inflight_key_for, lease_key_for, stats_key_for,
}
use dispatchhub.Broker.Keys.Apart.{keys}

pub ruleset keep_rules = (redis_laws, keys, same_refl)

abbrev pub is_text : Text → Option Text → Bool
is_text d none = false
is_text d (some x) = same x d

module _ (r : Redis) (c : Codec) where
  open r use {Store}

  -- The text waits in the queue, or is inflight under the task's id.
  abbrev pub is_in : Store → Text → Text → Text → Bool
  is_in s queue task_id d =
      is_some (r.zscore s (ready_key_for queue) d)
      || is_some (r.zscore s (delayed_key_for queue) d)
      || is_text d (r.hget s (inflight_key_for queue) task_id)

  -- No text that decodes is left out.
  abbrev pub Kept : Store → Store → Type 0
  Kept s s' =
      (queue task_id d : Text)
      → is_some (c.cjson_decode d) ≡ true
      → is_in s queue task_id d ≡ true
      → is_in s' queue task_id d ≡ true

  pub Kept-refl : (s : Store) → Kept s s
  Kept-refl s queue task_id d e h = h

  pub Kept-trans : (s s' s'' : Store) → Kept s s' → Kept s' s'' → Kept s s''
  Kept-trans s s' s'' k l queue task_id d e h = l queue task_id d e (k queue task_id d e h)

  -- A script that keeps them does so when the link is cut.
  pub script-Kept :
      {A : Type 0} (link : Link) (f : Store → Reply A × Store) (s : Store)
      → Kept s (f s).1
      → Kept s (run_script link f s).1
  unfolding run_script
  script-Kept up f s k = k
  script-Kept (cut zero) f s k = Kept-refl s
  script-Kept (cut (suc n)) f s k = k

  module _ ⦃redis : IsRedis r⦄ where
    pub zadd-Kept :
        (s : Store) (queue : Text) (score : ℤ) (d : Text)
        → Kept s (r.zadd s (ready_key_for queue) score d)
    zadd-Kept s queue score d q j x e h = simp keep_rules (ground (arith, h))

    pub hincrby-Kept :
        (s : Store) (queue field : Text) (n : ℕ)
        → Kept s (r.hincrby s (stats_key_for queue) field n)
    hincrby-Kept s queue field n q j x e h = simp keep_rules h

    pub zrem_lease-Kept : (s : Store) (queue j : Text) → Kept s (r.zrem s (lease_key_for queue) j)
    zrem_lease-Kept s queue i q j x e h = simp keep_rules h

    -- What leaves the delayed set is ready.
    pub promoted-Kept :
        (s : Store) (queue : Text) (score : ℤ) (d : Text)
        → Kept s (r.zrem (r.zadd s (ready_key_for queue) score d) (delayed_key_for queue) d)
    promoted-Kept s queue score d q j x e h = simp keep_rules (ground (arith, h))

    -- What leaves the inflight hash is ready.
    pub reclaimed-Kept :
        (s : Store) (queue task_id d : Text) (score : ℤ)
        → r.hget s (inflight_key_for queue) task_id ≡ some d
        → Kept s (r.zadd (r.hdel s (inflight_key_for queue) task_id) (ready_key_for queue) score d)
    reclaimed-Kept s queue task_id d score at q j x e h =
        simp keep_rules (ground (arith, h, at, same_iff queue q, same_iff task_id j, same_iff d x))
