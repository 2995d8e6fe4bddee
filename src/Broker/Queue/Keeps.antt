-- ===== src/Broker/Queue/Keeps.antt =====
-- `Enqueue` leaves no task out, however the call ends.
use dispatchhub.Prelude.{Text, ◌&&◌, Option-cases, Bool-cases, inl, inr, codes}
use dispatchhub.Prelude.Int.{ℤ, pos, neg, ltb_ℤ, leb_ℤ}
use dispatchhub.Entity.{Task}
use dispatchhub.Redis.{Redis, IsRedis}
use dispatchhub.Redis.Call.{Link}
use dispatchhub.Broker.Codec.{Codec}
use dispatchhub.Broker.Keep.{Kept, Kept-refl, Kept-trans, script-Kept, zadd-Kept, hincrby-Kept}
use dispatchhub.Broker.Keys.{ready_key_for, stats_key_for}
use dispatchhub.Broker.Queue.{enqueue_with_cap_script, enqueue_with_cap, enqueue}

module _ (r : Redis) (c : Codec) ⦃redis : IsRedis r⦄ where
  open r use {Store}

  enqueue_with_cap_script-Kept :
      (queue : Text) (score : ℤ) (d : Text) (max_size : ℤ) (s : Store)
      → Kept r c s
          (enqueue_with_cap_script r c
            (ready_key_for queue)
            (stats_key_for queue)
            score
            d
            max_size
            s).1
  unfolding enqueue_with_cap_script
  enqueue_with_cap_script-Kept queue score d max_size s =
      elim (Bool-cases
        (ltb_ℤ (pos 0) max_size && leb_ℤ max_size (pos (r.zcard s (ready_key_for queue))))) [
          | inl e ↦ rw (e, enqueue_with_cap_script) (Kept-refl r c s)
          | inr e ↦
              let s' = r.zadd s (ready_key_for queue) score d in
              rw (e, enqueue_with_cap_script)
                (Kept-trans r c s s' _ (zadd-Kept r c s queue score d)
                  (hincrby-Kept r c s' queue (codes "enqueued") 1))
        ]

  pub enqueue-Kept :
      (link : Link) (queue : Text) (t : Task) (s : Store)
      → Kept r c s (enqueue r c link queue t s).1
  unfolding enqueue enqueue_with_cap
  enqueue-Kept link queue t s = elim (Option-cases (c.marshal t)) [
    | inl e ↦ rw (e, enqueue_with_cap) (Kept-refl r c s)
    | inr (d, e) ↦
        rw (e, enqueue_with_cap)
          (script-Kept r c link _ s
            (enqueue_with_cap_script-Kept queue (neg t.priority) d (pos 0) s))
  ]
