-- ===== src/Broker/Maintain/Promote.antt =====
-- What `PromoteDelayed` and `EnqueueIfNotInflight` do to the store.
use dispatchhub.Prelude.{
  ℕ, ◌≡◌, ◌<◌, ◌⊎◌, refl, Text, true, Option, none, some, List, [], ◌∷◌, same, same_refl, same_iff,
  contains, Occurs-contains, All, length, if◌then◌else◌, is_some, not, Bool-cases, inl, inr, arith,
}
use dispatchhub.Prelude.Int.{ℤ, pos, neg, ◌≤ℤ◌}
use dispatchhub.Entity.{Task}
use dispatchhub.Redis.{Redis, IsRedis}
use dispatchhub.Redis.Laws.{redis_laws}
use dispatchhub.Redis.Call.{up, Reply}
use dispatchhub.Broker.Codec.{Codec, IsCodec, Decoded}
use dispatchhub.Broker.Keys.{ready_key_for, delayed_key_for, inflight_key_for}
use dispatchhub.Broker.Keys.Apart.{keys}
use dispatchhub.Broker.Reply.{ok, millis, score_of}
use dispatchhub.Broker.Maintain.{promote_loop, promote_delayed, enqueue_if_not_inflight}

ruleset store_rules = (redis_laws, keys, same_refl)

abbrev score_or : Option Decoded → ℤ
score_or none = pos 0
score_or (some t) = score_of t

module _ (r : Redis) (c : Codec) ⦃redis : IsRedis r⦄ ⦃codec : IsCodec c⦄ where
  open r use {Store}

  abbrev Tasks : List Text → Type 0
  Tasks = All (λ d. (t : Task) × (c.marshal t ≡ some d))

  abbrev LoopDone : Text → List Text → Store → Store → Type 0
  LoopDone queue ds s s' =
      (d : Text)
      → (r.zscore s' (delayed_key_for queue) d
          ≡ (if contains d ds then none else r.zscore s (delayed_key_for queue) d))
        × (r.zscore s' (ready_key_for queue) d ≡ (
            if contains d ds
            then some (score_or (c.cjson_decode d))
            else r.zscore s (ready_key_for queue) d))

  moved : Text → Text → Task → Store → Store
  moved queue x t s =
      r.zrem (r.zadd s (ready_key_for queue) (neg t.priority) x) (delayed_key_for queue) x

  moved_scores :
      (queue x d : Text) (t : Task) (s : Store)
      → (r.zscore (moved queue x t s) (delayed_key_for queue) d
          ≡ (if same x d then none else r.zscore s (delayed_key_for queue) d))
        × (r.zscore (moved queue x t s) (ready_key_for queue) d
            ≡ (if same x d then some (neg t.priority) else r.zscore s (ready_key_for queue) d))
  unfolding moved
  moved_scores queue x d t s = simp store_rules (refl, refl)

  promote_loop-LoopDone :
      (queue : Text) (n : ℕ) (ds : List Text) (s : Store)
      → Tasks ds
      → (s' : Store) × (promote_loop r c (delayed_key_for queue) (ready_key_for queue) n ds s
          ≡ (Reply.ok n, s'))
        × LoopDone queue ds s s'
  unfolding promote_loop contains moved
  promote_loop-LoopDone queue n [] s all = (s, refl, λ d. (refl, refl))
  promote_loop-LoopDone queue n (x ∷ ds) s ((t, m), all) =
      let e = codec.cjson_decode-marshal t x m in
      let (s', run, done) = promote_loop-LoopDone queue n ds (moved queue x t s) all in
      (
        s',
        rw (e, promote_loop) run,
        λ d. ground (arith, done d, moved_scores queue x d t s, same_iff x d, e),
      )

  -- Every member of the delayed set is a task as `EnqueueDelayed` or `Nack` wrote it.
  abbrev pub Delayed : Store → Text → Type 0
  Delayed s queue =
      (d : Text) (score : ℤ)
      → r.zscore s (delayed_key_for queue) d ≡ some score
      → (t : Task) × (c.marshal t ≡ some d)

  Tasks-range :
      (s : Store) (queue : Text) (top : ℤ) (ds : List Text)
      → Delayed s queue
      → All (λ d. (k : ℤ) × (r.zscore s (delayed_key_for queue) d ≡ some k) × (k ≤ℤ top)) ds
      → Tasks ds
  Tasks-range s queue top [] delayed all = tt
  Tasks-range s queue top (d ∷ ds) delayed ((k, e, h), all) =
      (delayed d k e, Tasks-range s queue top ds delayed all)

  due :
      (s : Store) (queue : Text) (top : ℤ) (d : Text) (ds : List Text)
      → All (λ d. (k : ℤ) × (r.zscore s (delayed_key_for queue) d ≡ some k) × (k ≤ℤ top)) ds
      → contains d ds ≡ true
      → (k : ℤ) × (r.zscore s (delayed_key_for queue) d ≡ some k) × (k ≤ℤ top)
  unfolding contains
  due s queue top d [] all h = cc
  due s queue top d (x ∷ ds) (here, all) h = elim (Bool-cases (same x d)) [
    | inl e ↦ rw ((same_iff x d).0 e) at here
    | inr e ↦ due s queue top d ds all (rw e at h)
  ]

  -- Where a task of the delayed set stands after a promotion: either it was due, and now it is ready
  -- under its priority and no longer delayed, or nothing of it has changed.
  abbrev pub Promoted : Store → Store → Text → ℕ → Text → Task → Type 0
  Promoted s s' queue now d t =
      ((k : ℤ) × (r.zscore s (delayed_key_for queue) d ≡ some k)
        × (k ≤ℤ pos (millis now))
        × (r.zscore s' (delayed_key_for queue) d ≡ none)
        × (r.zscore s' (ready_key_for queue) d ≡ some (neg t.priority)))
      ⊎ ((r.zscore s' (delayed_key_for queue) d ≡ r.zscore s (delayed_key_for queue) d)
          × (r.zscore s' (ready_key_for queue) d ≡ r.zscore s (ready_key_for queue) d))

  -- With the server in reach and every delayed member of the queue a task, PromoteDelayed succeeds; every task is either promoted, and then it was due, or untouched; and if
  -- the number it returns is below the batch size, every task that was due is promoted.
  pub promote_outcome :
      (s : Store) (now : ℕ) (queue : Text) (batch : ℕ)
      → Delayed s queue
      → (n : ℕ) × (s' : Store) × (promote_delayed r c up now queue batch s ≡ (ok n, s'))
        × ((d : Text) (t : Task) → c.marshal t ≡ some d → Promoted s s' queue now d t)
        × (n < batch
            → (d : Text) (k : ℤ) → r.zscore s (delayed_key_for queue) d ≡ some k
            → k ≤ℤ pos (millis now)
            → r.zscore s' (delayed_key_for queue) d ≡ none)
  unfolding promote_delayed
  promote_outcome s now queue batch delayed =
      let top = pos (millis now) in
      let ds = r.zrangebyscore s (delayed_key_for queue) top batch in
      let sound = redis.range_sound s (delayed_key_for queue) top batch in
      let (s', run, done) =
        promote_loop-LoopDone queue (length ds) ds s (Tasks-range s queue top ds delayed sound) in
      (
        length ds,
        s',
        rw (run, promote_delayed),
        (λ d t m. elim (Bool-cases (contains d ds)) [
          | inl hit ↦
              let (k, at, early) = due s queue top d ds sound hit in
              inl (
                k,
                at,
                early,
                ground (arith, done d, hit),
                ground (arith, done d, hit, codec.cjson_decode-marshal t d m),
              )
          | inr miss ↦ inr (ground (arith, done d, miss), ground (arith, done d, miss))
        ]),
        λ short d k at early.
            let hit =
              Occurs-contains d ds
                (redis.range_complete s (delayed_key_for queue) top batch d k short at early) in
            ground (arith, done d, hit),
      )

  -- EnqueueIfNotInflight answers whether the task is not inflight, and makes the task ready under its
  -- priority in that case only.
  pub enqueue_if_not_inflight_outcome :
      (s : Store) (queue : Text) (t : Task) (d : Text)
      → c.marshal t ≡ some d
      → let inflight = is_some (r.hget s (inflight_key_for queue) t.id) in
        let (reply, s') = enqueue_if_not_inflight r c up queue t s in
        (reply ≡ ok (not inflight))
        × (r.zscore s' (ready_key_for queue) d
            ≡ (if inflight then r.zscore s (ready_key_for queue) d else some (neg t.priority)))
  unfolding enqueue_if_not_inflight
  enqueue_if_not_inflight_outcome s queue t d m =
      elim (Bool-cases (is_some (r.hget s (inflight_key_for queue) t.id))) [
        | inl e ↦ rw (m, e, enqueue_if_not_inflight) (refl, refl)
        | inr e ↦ rw (m, e, enqueue_if_not_inflight) (refl, simp store_rules)
      ]
