-- ===== src/Tests/Limits.antt =====
-- Runs of the rate limiter, on whole numbers in place of float64.
use dispatchhub.Prelude.{
  ℕ, suc, ◌+◌, ◌-◌, ◌*◌, ◌/◌, ◌≡◌, ◌≤◌, All, refl, Text, none, some, List, [], ◌∷◌, ltb, leb, codes,
  arith,
}
use dispatchhub.Prelude.Int.{pos, pos_part}
use dispatchhub.RateLimit.{Float, MultiQueueLimiter, new_multi_queue_limiter, set_rate, limiter_of}
use dispatchhub.RateLimit.Queues.{answers, of_queue, alone, queues_apart}
use dispatchhub.RateLimit.Burst.{IsFloat}
use dispatchhub.Entity.{Task}
use dispatchhub.Redis.Memory.{empty, memory}
use dispatchhub.Mysql.Memory.{no_rows, database}
use dispatchhub.Api.Service.{Request, fill_in}
use dispatchhub.Flow.Limit.{accepted, accepted_within_burst}
use dispatchhub.Tests.Sample.{task, codec}
use dispatchhub.Tests.Api.{request}

abbrev whole : Float
whole = record {
  Number = ℕ;
  of_int = pos_part;
  seconds = λ z. pos_part z / 1000000000;
  add = λ a b. a + b;
  sub = λ a b. a - b;
  mul = λ a b. a * b;
  less = ltb;
  at_least = λ a b. leb b a;
}

add_zero : (k : ℕ) → k + 0 ≡ k
add_zero k = omega arith

sub_one : (k : ℕ) → suc k - 1 ≡ k
sub_one k = omega arith

whole-IsFloat : IsFloat whole
whole-IsFloat = record {
  seconds_zero = refl;
  add_zero = λ k h. add_zero k;
  sub_one = λ k h. sub_one k;
  less_whole = λ a b h k. refl;
  at_least_whole = λ a b h k. refl;
}

abbrev limiter : MultiQueueLimiter whole
limiter = set_rate whole 0 (codes "mail") 1 (pos 2) (new_multi_queue_limiter whole 5 (pos 10))

abbrev calls : List (Text × ℕ)
calls =
    (codes "mail", 0)
    ∷ (codes "sms", 0)
    ∷ (codes "mail", 0)
    ∷ (codes "mail", 0)
    ∷ (codes "mail", 1000000000)
    ∷ []

queues_apart_example :
    of_queue whole (codes "mail") (answers whole limiter calls)
    ≡ alone whole limiter.default_rate limiter.default_burst
        (limiter_of whole (codes "mail") limiter.limiters)
        (of_queue whole (codes "mail") calls)
queues_apart_example = queues_apart whole (codes "mail") limiter calls

abbrev fresh : MultiQueueLimiter whole
fresh = record { limiters = []; default_rate = 5; default_burst = pos 1 }

-- Two submissions where one is allowed.
abbrev twice : List (Request × Task)
twice = (request, task) ∷ (request, task) ∷ []

twice-queue : All (λ x. (fill_in x.0 x.1).queue_name ≡ task.queue_name) twice
unfolding fill_in
twice-queue = (refl, (refl, tt))

accepted_within_burst_example :
    accepted memory codec database whole none 7 twice (some fresh) empty no_rows ≤ 1
accepted_within_burst_example =
    accepted_within_burst memory codec database whole none whole-IsFloat 7 task.queue_name twice 1
      fresh empty no_rows refl (ground arith) refl refl twice-queue
