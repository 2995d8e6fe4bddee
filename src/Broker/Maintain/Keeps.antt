-- ===== src/Broker/Maintain/Keeps.antt =====
-- `PromoteDelayed`, `EnqueueIfNotInflight` and `ReclaimInflight` leave no task out, however the call ends.
use dispatchhub.Prelude.{
  ℕ, suc, ◌≡◌, refl, same_iff, Text, Bool, true, false, Option, none, some, List, [], ◌∷◌, is_some,
  Option-cases, Bool-cases, inl, inr, arith,
}
use dispatchhub.Prelude.Int.{ℤ, neg}
use dispatchhub.Entity.{Task}
use dispatchhub.Redis.{Redis, IsRedis}
use dispatchhub.Redis.Call.{Link, Reply}
use dispatchhub.Broker.Codec.{Codec, Decoded}
use dispatchhub.Broker.Keep.{
  Kept, Kept-refl, Kept-trans, script-Kept, zadd-Kept, zrem_lease-Kept, promoted-Kept,
  reclaimed-Kept, keep_rules,
}
use dispatchhub.Broker.Keys.{ready_key_for, delayed_key_for, inflight_key_for, lease_key_for}
use dispatchhub.Broker.Reply.{score_of}
use dispatchhub.Broker.Maintain.{
  promote_loop, promote_script, promote_delayed, put_back, reclaim_loop, reclaim_script,
  reclaim_inflight, enqueue_if_not_inflight_script, enqueue_if_not_inflight,
}

module _ (r : Redis) (c : Codec) ⦃redis : IsRedis r⦄ where
  open r use {Store}

  promote_loop-Kept :
      (queue : Text) (n : ℕ) (ds : List Text) (s : Store)
      → Kept r c s (promote_loop r c (delayed_key_for queue) (ready_key_for queue) n ds s).1
  unfolding promote_loop
  promote_loop-Kept queue n [] s = Kept-refl r c s
  promote_loop-Kept queue n (d ∷ ds) s = elim (Option-cases (c.cjson_decode d)) [
    | inl e ↦ rw (e, promote_loop) (Kept-refl r c s)
    | inr (t, e) ↦
        let s' = r.zrem (r.zadd s (ready_key_for queue) (score_of t) d) (delayed_key_for queue) d in
        rw (e, promote_loop)
          (Kept-trans r c s s' _ (promoted-Kept r c s queue (score_of t) d)
            (promote_loop-Kept queue n ds s'))
  ]

  pub promote_delayed-Kept :
      (link : Link) (now : ℕ) (queue : Text) (batch : ℕ) (s : Store)
      → Kept r c s (promote_delayed r c link now queue batch s).1
  unfolding promote_delayed promote_script
  promote_delayed-Kept link now queue batch s =
      script-Kept r c link _ s (promote_loop-Kept queue _ _ s)

  pub enqueue_if_not_inflight-Kept :
      (link : Link) (queue : Text) (t : Task) (s : Store)
      → Kept r c s (enqueue_if_not_inflight r c link queue t s).1
  unfolding enqueue_if_not_inflight enqueue_if_not_inflight_script
  enqueue_if_not_inflight-Kept link queue t s = elim (Option-cases (c.marshal t)) [
    | inl e ↦ rw (e, enqueue_if_not_inflight) (Kept-refl r c s)
    | inr (d, e) ↦ rw (e, enqueue_if_not_inflight) (script-Kept r c link _ s (put d))
  ]
    where
      put :
          (d : Text)
          → Kept r c s
              (enqueue_if_not_inflight_script r c
                (inflight_key_for queue)
                (ready_key_for queue)
                t.id
                (neg t.priority)
                d
                s).1
      put d = elim (Bool-cases (is_some (r.hget s (inflight_key_for queue) t.id))) [
        | inl e ↦ rw (e, enqueue_if_not_inflight_script) (Kept-refl r c s)
        | inr e ↦ rw (e, enqueue_if_not_inflight_script) (zadd-Kept r c s queue (neg t.priority) d)
      ]

  -- What leaves the inflight hash for nothing does not decode.
  dropped-Kept :
      (s : Store) (queue j d : Text)
      → r.hget s (inflight_key_for queue) j ≡ some d
      → c.cjson_decode d ≡ none
      → Kept r c s (r.hdel s (inflight_key_for queue) j)
  dropped-Kept s queue j d at bad q i x e h =
      simp keep_rules (ground (arith, h, at, bad, e, same_iff queue q, same_iff j i, same_iff d x))

  put_back-Kept :
      (s : Store) (queue j d : Text) (o : Option Decoded)
      → r.hget s (inflight_key_for queue) j ≡ some d
      → c.cjson_decode d ≡ o
      → Kept r c s (put_back r c (inflight_key_for queue) (ready_key_for queue) j d o s).1
  unfolding put_back
  put_back-Kept s queue j d none at e = dropped-Kept s queue j d at e
  put_back-Kept s queue j d (some t) at e = reclaimed-Kept r c s queue j d (score_of t) at

  abbrev go_on : (Store → Reply ℕ × Store) → Bool → Store → Reply ℕ × Store
  go_on f done s' = elim done [ true ↦ f s' | false ↦ (Reply.err, s') ]

  go_on-Kept :
      (s : Store) (f : Store → Reply ℕ × Store) (p : Bool × Store)
      → ((s' : Store) → Kept r c s' (f s').1)
      → Kept r c s p.1
      → Kept r c s (go_on f p.0 p.1).1
  go_on-Kept s f (true, s') all k = Kept-trans r c s s' (f s').1 k (all s')
  go_on-Kept s f (false, s') all k = k

  reclaim_loop-Kept :
      (queue : Text) (n : ℕ) (ids : List Text) (s : Store)
      → Kept r c s
          (reclaim_loop r c
            (lease_key_for queue)
            (inflight_key_for queue)
            (ready_key_for queue)
            n
            ids
            s).1
  unfolding reclaim_loop
  reclaim_loop-Kept queue n [] s = Kept-refl r c s
  reclaim_loop-Kept queue n (j ∷ ids) s =
      let s1 = r.zrem s (lease_key_for queue) j in
      let k1 = zrem_lease-Kept r c s queue j in
      elim (Option-cases (r.hget s (inflight_key_for queue) j)) [
        | inl e ↦ rw (e, reclaim_loop) (Kept-trans r c s s1 _ k1 (reclaim_loop-Kept queue n ids s1))
        | inr (d, e) ↦
            let p =
              put_back r c (inflight_key_for queue) (ready_key_for queue) j d (c.cjson_decode d)
                s1 in
            let at : r.hget s1 (inflight_key_for queue) j ≡ some d = simp keep_rules e in
            rw (e, reclaim_loop)
              (Kept-trans r c s s1 _ k1 (
                go_on-Kept s1
                  (reclaim_loop r c (lease_key_for queue) (inflight_key_for queue)
                    (ready_key_for queue) (suc n) ids)
                  p (reclaim_loop-Kept queue (suc n) ids)
                  (put_back-Kept s1 queue j d (c.cjson_decode d) at refl)))
      ]

  pub reclaim_inflight-Kept :
      (link : Link) (now : ℕ) (queue : Text) (batch_size : ℤ) (s : Store)
      → Kept r c s (reclaim_inflight r c link now queue batch_size s).1
  unfolding reclaim_inflight reclaim_script
  reclaim_inflight-Kept link now queue batch_size s =
      script-Kept r c link _ s (reclaim_loop-Kept queue 0 _ s)
