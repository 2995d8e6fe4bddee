-- ===== src/RateLimit/Queues.antt =====
-- The limiters of different queues do not touch each other.
use dispatchhub.Prelude.{
  ℕ, ◌≡◌, refl, ap, ◌∙◌, Text, Bool, false, Option, some, List, [], ◌∷◌, same, same_iff, same_refl,
  if◌then◌else◌, arith, Bool-cases, inl, inr,
}
use dispatchhub.Prelude.Int.{ℤ}
use dispatchhub.RateLimit.{
  Float, Limiter, MultiQueueLimiter, or_new, limiter_of, put_limiter, allow_one, allow_queue,
}

module _ (f : Float) where
  -- The answers of Allow for calls of some queues at some times.
  abbrev pub answers : MultiQueueLimiter f → List (Text × ℕ) → List (Text × Bool)
  answers m [] = []
  answers m ((queue, now) ∷ calls) =
      let (allowed, m') = allow_queue f now queue m in (queue, allowed) ∷ answers m' calls

  -- The entries of one queue.
  abbrev pub of_queue : {A : Type 0} → Text → List (Text × A) → List A
  of_queue queue [] = []
  of_queue queue ((q, x) ∷ xs) =
      let rest = of_queue queue xs in if same q queue then x ∷ rest else rest

  -- The answers of a single limiter that is made with the first call, unless there is one already.
  abbrev pub alone : f.Number → ℤ → Option (Limiter f) → List ℕ → List Bool
  alone rate burst o [] = []
  alone rate burst o (now ∷ times) =
      let (allowed, l) = allow_one f now (or_new f now rate burst o) in
      allowed ∷ alone rate burst (some l) times

  limiter_of-put :
      (queue q : Text) (l : Limiter f) (ls : List (Text × Limiter f))
      → limiter_of f q (put_limiter f queue l ls)
        ≡ (if same queue q then some l else limiter_of f q ls)
  unfolding put_limiter
  limiter_of-put queue q l [] = refl
  limiter_of-put queue q l ((k, x) ∷ ls) =
      ground (arith, limiter_of-put queue q l ls, same_iff k queue, same_iff k q, same_iff queue q)

  pub allow_queue-hit :
      (now : ℕ) (queue : Text) (m : MultiQueueLimiter f)
      → limiter_of f queue (allow_queue f now queue m).1.limiters
        ≡ some
            (allow_one f now
              (or_new f now m.default_rate m.default_burst (limiter_of f queue m.limiters))).1
  unfolding allow_queue
  allow_queue-hit now queue m =
      limiter_of-put queue queue _ m.limiters
      ∙ ap
          (λ b.
            if b
            then some
                (allow_one f now
                  (or_new f now m.default_rate m.default_burst (limiter_of f queue m.limiters))).1
            else limiter_of f queue m.limiters)
          (same_refl queue)

  allow_queue-miss :
      (now : ℕ) (q queue : Text) (m : MultiQueueLimiter f)
      → same q queue ≡ false
      → limiter_of f queue (allow_queue f now q m).1.limiters ≡ limiter_of f queue m.limiters
  unfolding allow_queue
  allow_queue-miss now q queue m e = ground (
    arith,
    e,
    limiter_of-put q queue
        (allow_one f now
          (or_new f now m.default_rate m.default_burst (limiter_of f q m.limiters))).1
        m.limiters,
  )

  -- For every queue Allow answers as the limiter of this queue alone does, on the calls for this queue:
  -- the calls for other queues change nothing.
  pub queues_apart :
      (queue : Text) (m : MultiQueueLimiter f) (calls : List (Text × ℕ))
      → of_queue queue (answers m calls)
        ≡ alone m.default_rate m.default_burst
            (limiter_of f queue m.limiters)
            (of_queue queue calls)
  unfolding allow_queue
  queues_apart queue m [] = refl
  queues_apart queue m ((q, now) ∷ calls) = elim (Bool-cases (same q queue)) [
    | inl e ↦
        rw ((same_iff q queue).0 e, same_refl queue)
          (let (allowed, m') = allow_queue f now queue m in
            ap (λ xs. allowed ∷ xs)
              (queues_apart queue m' calls
                ∙ ap (λ o. alone m.default_rate m.default_burst o (of_queue queue calls))
                    (allow_queue-hit now queue m)))
    | inr e ↦ rw e (
        let (allowed, m') = allow_queue f now q m in
        queues_apart queue m' calls
        ∙ ap (λ o. alone m.default_rate m.default_burst o (of_queue queue calls))
            (allow_queue-miss now q queue m e))
  ]
