-- ===== src/Flow/Limit.antt =====
-- Submissions under the rate limiter: the hook of cmd/apiserver/main.go in SubmitTask of
-- internal/apiserver/domain/service/task_service_impl.go.
use dispatchhub.Prelude.{
  subst, ℕ, suc, ◌≤◌, ◌<◌, ◌≡◌, ap, ◌∙◌, Text, Bool, true, false, Option, none, some, List, [], ◌∷◌,
  All, length, leb, if◌then◌else◌, arith,
}
use dispatchhub.Prelude.Int.{pos}
use dispatchhub.Entity.{Task}
use dispatchhub.Redis.{Redis}
use dispatchhub.Broker.Codec.{Codec}
use dispatchhub.Mysql.Interface.{Mysql}
use dispatchhub.Api.Route.{RouteError}
use dispatchhub.Api.Service.{ServiceError, Request, fill_in, refusal, unless_refused, submit_task}
use dispatchhub.RateLimit.{Float, MultiQueueLimiter, limiter_of, allow_queue, before_submit}
use dispatchhub.RateLimit.Queues.{alone, allow_queue-hit}
use dispatchhub.RateLimit.Burst.{IsFloat, exact_below, count, at_once, burst_exact}

module _ (r : Redis) (c : Codec) (m : Mysql) (f : Float)
    (route : Option (Text → Text → Option RouteError)) where
  -- SubmitTask with the hook of main at some time, and the limiter after it.
  unfoldable pub submit_limited :
      ℕ
      → Request
      → Task
      → Option (MultiQueueLimiter f)
      → r.Store
      → m.Db
      → (Option ServiceError × Task × r.Store × m.Db) × Option (MultiQueueLimiter f)
  unfolding before_submit
  submit_limited now request task limiter s db =
      let (allowed, limiter') = before_submit f now limiter (fill_in request task) in
      (
        submit_task r c m request (record { before = some (λ t. allowed); route = route }) task s
            db,
        limiter',
      )

  abbrev one_if : Option ServiceError → ℕ → ℕ
  one_if none n = suc n
  one_if (some e) n = n

  -- How many of some submissions, one after the other, return no error.
  unfoldable pub accepted :
      ℕ → List (Request × Task) → Option (MultiQueueLimiter f) → r.Store → m.Db → ℕ
  unfolding submit_limited
  accepted now [] limiter s db = 0
  accepted now ((request, task) ∷ rest) limiter s db =
      let ((error, t, s', db'), limiter') = submit_limited now request task limiter s db in
      one_if error (accepted now rest limiter' s' db')

  abbrev Into : Text → List (Request × Task) → Type 0
  Into queue = All (λ x. (fill_in x.0 x.1).queue_name ≡ queue)

  one_if-le :
      (allowed : Bool) (request : Request) (task : Task) (s : r.Store) (db : m.Db) (n : ℕ)
      (bs : List Bool)
      → n ≤ count bs
      → one_if
          (submit_task r c m request
            (record { before = some (λ t. allowed); route = route })
            task
            s
            db).0
          n
        ≤ count (allowed ∷ bs)
  unfolding submit_task unless_refused refusal
  one_if-le false request task s db n bs h = h
  one_if-le true request task s db n bs h = by_error _
    where
      by_error : (e : Option ServiceError) → one_if e n ≤ suc (count bs)
      by_error none = omega (arith, h)
      by_error (some e) = omega (arith, h)

  accepted-alone :
      (now : ℕ) (queue : Text) (tasks : List (Request × Task)) (l : MultiQueueLimiter f)
      (s : r.Store) (db : m.Db)
      → Into queue tasks
      → accepted now tasks (some l) s db
        ≤ count (
            alone f l.default_rate l.default_burst
              (limiter_of f queue l.limiters)
              (at_once (length tasks) now))
  unfolding accepted submit_limited before_submit allow_queue
  accepted-alone now queue [] l s db into = omega arith
  accepted-alone now queue ((request, task) ∷ rest) l s db (here, into) =
      let (allowed, l') = allow_queue f now queue l in
      let (error, t, s', db') =
        submit_task r c m request (record { before = some (λ t. allowed); route = route }) task s
          db in
      let later =
        subst
          (λ o.
            accepted now rest (some l') s' db'
            ≤ count (alone f l.default_rate l.default_burst o (at_once (length rest) now)))
          (allow_queue-hit f now queue l) (accepted-alone now queue rest l' s' db' into) in
      rw here (one_if-le allowed request task s db (accepted now rest (some l') s' db') _ later)

  -- Of any number of submissions to one queue at the moment at which it is first seen, as many as the burst
  -- are accepted at most, for a burst below 2^53 and a finite rate.
  pub accepted_within_burst :
      (float : IsFloat f) (now : ℕ) (queue : Text) (tasks : List (Request × Task)) (burst : ℕ)
      (l : MultiQueueLimiter f) (s : r.Store) (db : m.Db)
      → f.mul (f.of_int (pos 0)) l.default_rate ≡ f.of_int (pos 0)
      → burst < exact_below
      → l.default_burst ≡ pos burst
      → limiter_of f queue l.limiters ≡ none
      → All (λ x. (fill_in x.0 x.1).queue_name ≡ queue) tasks
      → accepted now tasks (some l) s db ≤ burst
  accepted_within_burst float now queue tasks burst l s db finite small at fresh into =
      let le = accepted-alone now queue tasks l s db into in
      let counted : count (
            alone f l.default_rate l.default_burst (limiter_of f queue l.limiters)
              (at_once (length tasks) now))
          ≡ (if leb (length tasks) burst then length tasks else burst) =
        ap (λ o. count (alone f l.default_rate l.default_burst o (at_once (length tasks) now)))
          fresh
        ∙ (ap (λ b. count (alone f l.default_rate b none (at_once (length tasks) now))) at
            ∙ burst_exact f float now l.default_rate burst (length tasks) finite small) in
      at_most _ _ burst (length tasks) le counted
    where
      at_most : (a k b n : ℕ) → a ≤ k → k ≡ (if leb n b then n else b) → a ≤ b
      at_most a k b n le e = ground (arith, le, e)
