-- ===== src/RateLimit.antt =====
-- pkg/ratelimit/ratelimit.go, and the part of cmd/apiserver/main.go that puts the limiter before a
-- submission, with RateLimitConfig of internal/shared/infrastructure/config/config.go. The arithmetic of
-- float64 is a parameter. Wait, which nothing calls, is left out, and so are the mutexes: one call at a time.
pub mod Queues
pub mod Burst
use dispatchhub.Prelude.{
  ℕ, Text, Bool, true, false, ◌&&◌, Option, none, some, List, [], ◌∷◌, same, if◌then◌else◌, codes,
}
use dispatchhub.Prelude.Int.{ℤ, pos, sub_ℕ, ltb_ℤ}
use dispatchhub.Entity.{Task}

-- float64
pub record Float : Type 1 where
  pub Number : Type 0
  pub of_int : ℤ → Number
  -- time.Duration.Seconds
  pub seconds : ℤ → Number
  pub add : Number → Number → Number
  pub sub : Number → Number → Number
  pub mul : Number → Number → Number
  -- whether the first is less than the second
  pub less : Number → Number → Bool
  -- whether the first is at least the second
  pub at_least : Number → Number → Bool

module _ (f : Float) where
  open f use {Number, of_int, seconds, add, sub, mul, less, at_least}

  pub record Limiter : Type 0 where
    pub rate : Number
    pub burst : ℤ
    pub tokens : Number
    pub last_time : ℕ

  unfoldable pub new_limiter : ℕ → Number → ℤ → Limiter
  new_limiter now rate burst = record {
    rate = rate;
    burst = burst;
    tokens = of_int burst;
    last_time = now;
  }

  -- l.tokens > float64(l.burst)
  abbrev pub cut_off : Number → ℤ → Number
  cut_off tokens burst = if less (of_int burst) tokens then of_int burst else tokens

  unfoldable pub refill : ℕ → Limiter → Limiter
  refill now l = record l {
    tokens = cut_off (add l.tokens (mul (seconds (sub_ℕ now l.last_time)) l.rate)) l.burst;
    last_time = now;
  }

  abbrev take_token : Limiter → Bool × Limiter
  take_token l =
      if at_least l.tokens (of_int (pos 1))
      then (true, record l { tokens = sub l.tokens (of_int (pos 1)) })
      else (false, l)

  -- Limiter.Allow
  unfoldable pub allow_one : ℕ → Limiter → Bool × Limiter
  unfolding refill
  allow_one now l = take_token (refill now l)

  pub record MultiQueueLimiter : Type 0 where
    pub limiters : List (Text × Limiter)
    pub default_rate : Number
    pub default_burst : ℤ

  unfoldable pub new_multi_queue_limiter : Number → ℤ → MultiQueueLimiter
  new_multi_queue_limiter rate burst = record {
    limiters = [];
    default_rate = rate;
    default_burst = burst;
  }

  -- m.limiters[queue]
  abbrev pub limiter_of : Text → List (Text × Limiter) → Option Limiter
  limiter_of queue [] = none
  limiter_of queue ((q, l) ∷ ls) = if same q queue then some l else limiter_of queue ls

  -- m.limiters[queue] = l
  unfoldable pub put_limiter : Text → Limiter → List (Text × Limiter) → List (Text × Limiter)
  put_limiter queue l [] = (queue, l) ∷ []
  put_limiter queue l ((q, k) ∷ ls) =
      let rest = put_limiter queue l ls in if same q queue then (q, l) ∷ ls else (q, k) ∷ rest

  unfoldable pub set_rate : ℕ → Text → Number → ℤ → MultiQueueLimiter → MultiQueueLimiter
  unfolding new_limiter
  set_rate now queue rate burst m = record m {
    limiters = put_limiter queue (new_limiter now rate burst) m.limiters;
  }

  -- The limiter of a queue, made when the queue is first seen.
  abbrev pub or_new : ℕ → Number → ℤ → Option Limiter → Limiter
  or_new now rate burst none = new_limiter now rate burst
  or_new now rate burst (some l) = l

  -- MultiQueueLimiter.Allow. The limiter of the queue is changed where it stands.
  unfoldable pub allow_queue : ℕ → Text → MultiQueueLimiter → Bool × MultiQueueLimiter
  unfolding allow_one put_limiter
  allow_queue now queue m =
      let l = or_new now m.default_rate m.default_burst (limiter_of queue m.limiters) in
      let (allowed, l') = allow_one now l in
      (allowed, record m { limiters = put_limiter queue l' m.limiters })

  pub record QueueRateLimitSpec : Type 0 where
    pub rate : Number
    pub burst : ℤ

  pub record RateLimitConfig : Type 0 where
    pub enabled : Bool
    pub default_rate : Number
    pub default_burst : ℤ
    pub per_queue : List (Text × QueueRateLimitSpec)

  -- RateLimitConfig.Active
  unfoldable pub is_active : RateLimitConfig → Bool
  is_active cfg =
      cfg.enabled && less (of_int (pos 0)) cfg.default_rate && ltb_ℤ (pos 0) cfg.default_burst

  unfoldable pub set_rates :
      ℕ → List (Text × QueueRateLimitSpec) → MultiQueueLimiter → MultiQueueLimiter
  unfolding set_rate
  set_rates now [] m = m
  set_rates now ((queue, spec) ∷ specs) m =
      set_rates now specs (set_rate now queue spec.rate spec.burst m)

  -- The limiter that main makes, if any.
  unfoldable pub limiter_for : ℕ → RateLimitConfig → Option MultiQueueLimiter
  unfolding is_active set_rates new_multi_queue_limiter
  limiter_for now cfg =
      if is_active cfg
      then some
          (set_rates now cfg.per_queue (new_multi_queue_limiter cfg.default_rate cfg.default_burst))
      else none

  -- The hook that main gives to SetBeforeSubmit: whether it lets the task pass.
  unfoldable pub before_submit :
      ℕ → Option MultiQueueLimiter → Task → Bool × Option MultiQueueLimiter
  unfolding allow_queue
  before_submit now none task = (true, none)
  before_submit now (some m) task =
      let (allowed, m') = allow_queue now task.queue_name m in (allowed, some m')
