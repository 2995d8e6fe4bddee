-- ===== src/Api/Route/Decision.antt =====
-- The validator's answer, against a description of it by the online workers.
use dispatchhub.Prelude.{
  ℕ, Text, Bool, true, false, ◌&&◌, ◌||◌, not, Option, none, some, List, [], ◌∷◌, ◌≡◌, refl, same,
  same_iff, contains, contains-add_all, is_nil, if◌then◌else◌, arith, Bool-cases, inl, inr, is_some,
}
use dispatchhub.Prelude.Int.{ltb_ℤ}
use dispatchhub.Entity.Worker.{WorkerInfo, is_online}
use dispatchhub.Redis.Call.{Reply}
use dispatchhub.Api.Route.{
  Routes, RouteValidator, RouteError, no_consumer, no_handler, add_route, add_queues, routes_of,
  since, types_of, check, validate, refresh,
}

-- Some online worker reads from the queue; one of these handles the type; none reads from any queue.
abbrev pub consumes : List WorkerInfo → Text → Bool
consumes [] queue = false
consumes (w ∷ ws) queue = (is_online w.state && contains queue w.queues) || consumes ws queue

abbrev pub handles : List WorkerInfo → Text → Text → Bool
handles [] queue type = false
handles (w ∷ ws) queue type =
    (is_online w.state && (contains queue w.queues && contains type w.task_types))
    || handles ws queue type

abbrev pub idle : List WorkerInfo → Bool
idle [] = true
idle (w ∷ ws) = (not (is_online w.state) || is_nil w.queues) && idle ws

abbrev pub decision : List WorkerInfo → Text → Text → Option RouteError
decision ws queue type =
    if idle ws
    then none
    else if consumes ws queue
    then (if handles ws queue type then none else some no_handler)
    else some no_consumer

abbrev has_type : Text → Option (List Text) → Bool
has_type type none = false
has_type type (some types) = contains type types

types_of-add_route :
    (queue : Text) (ts : List Text) (routes : Routes) (q t : Text)
    → (is_some (types_of q (add_route queue ts routes))
        ≡ (same queue q || is_some (types_of q routes)))
      × (has_type t (types_of q (add_route queue ts routes))
          ≡ ((same queue q && contains t ts) || has_type t (types_of q routes)))
unfolding add_route types_of contains
types_of-add_route queue ts [] q t = ground (arith, contains-add_all t ts [])
types_of-add_route queue ts ((key, us) ∷ routes) q t = ground (
  arith,
  contains-add_all t ts us,
  types_of-add_route queue ts routes q t,
  same_iff key queue,
  same_iff key q,
  same_iff queue q,
)

types_of-add_queues :
    (queues ts : List Text) (routes : Routes) (q t : Text)
    → (is_some (types_of q (add_queues queues ts routes))
        ≡ (contains q queues || is_some (types_of q routes)))
      × (has_type t (types_of q (add_queues queues ts routes))
          ≡ ((contains q queues && contains t ts) || has_type t (types_of q routes)))
unfolding add_queues contains
types_of-add_queues [] ts routes q t = (refl, refl)
types_of-add_queues (x ∷ queues) ts routes q t = ground (
  arith,
  types_of-add_queues queues ts (add_route x ts routes) q t,
  types_of-add_route x ts routes q t,
)

is_nil-add_route :
    (queue : Text) (ts : List Text) (routes : Routes) → is_nil (add_route queue ts routes) ≡ false
unfolding add_route
is_nil-add_route queue ts [] = refl
is_nil-add_route queue ts ((key, us) ∷ routes) = ground arith

is_nil-add_queues :
    (queues ts : List Text) (routes : Routes)
    → is_nil (add_queues queues ts routes) ≡ (is_nil queues && is_nil routes)
unfolding add_queues
is_nil-add_queues [] ts routes = refl
is_nil-add_queues (x ∷ queues) ts routes =
    ground
      (arith, is_nil-add_queues queues ts (add_route x ts routes), is_nil-add_route x ts routes)

routes_of_lem :
    (ws : List WorkerInfo) (routes : Routes) (q t : Text)
    → (is_some (types_of q (routes_of ws routes)) ≡ (consumes ws q || is_some (types_of q routes)))
      × (has_type t (types_of q (routes_of ws routes))
          ≡ (handles ws q t || has_type t (types_of q routes)))
      × (is_nil (routes_of ws routes) ≡ (idle ws && is_nil routes))
unfolding routes_of
routes_of_lem [] routes q t = (refl, refl, refl)
routes_of_lem (w ∷ ws) routes q t = elim (Bool-cases (is_online w.state)) [
  | inl on ↦
      rw (on, routes_of)
        (ground (
          arith,
          routes_of_lem ws (add_queues w.queues w.task_types routes) q t,
          types_of-add_queues w.queues w.task_types routes q t,
          is_nil-add_queues w.queues w.task_types routes,
        ))
  | inr off ↦ rw (off, routes_of) (routes_of_lem ws routes q t)
]

-- What `check` reads of the routes.
check_lem :
    (queue type : Text) (routes : Routes)
    → check queue type routes ≡ (
        if is_nil routes
        then none
        else if is_some (types_of queue routes)
        then (if has_type type (types_of queue routes) then none else some no_handler)
        else some no_consumer)
unfolding check
check_lem queue type [] = refl
check_lem queue type (route ∷ routes) = ground arith

check-routes_of :
    (ws : List WorkerInfo) (queue type : Text)
    → check queue type (routes_of ws []) ≡ decision ws queue type
check-routes_of ws queue type =
    ground (arith, check_lem queue type (routes_of ws []), routes_of_lem ws [] queue type, nothing)
  where
    nothing : types_of queue [] ≡ none
    nothing = unfold types_of in refl

-- With a stale cache and a registry in reach, the answer is that of the online workers: none of them
-- reads from any queue, or one that reads from the queue handles the type, and the task may pass; or
-- none reads from the queue; or none that does handles the type. The new cache holds what was read.
pub validate_stale :
    (now later : ℕ) (ws : List WorkerInfo) (queue type : Text) (v : RouteValidator)
    → ltb_ℤ v.refresh_every (since now v.last_refresh) ≡ true
    → let (answer, v') = validate now later (Reply.ok ws) queue type v in
      (answer ≡ decision ws queue type)
      × (v'.last_refresh ≡ some later)
      × ((q t : Text) → check q t v'.queue_types ≡ decision ws q t)
unfolding validate refresh
validate_stale now later ws queue type v stale =
    rw (stale, validate) (check-routes_of ws queue type, refl, λ q t. check-routes_of ws q t)

-- A registry out of reach lets every task pass, and a fresh cache is not read again.
pub validate_open :
    (now later : ℕ) (ws : Reply (List WorkerInfo)) (queue type : Text) (v : RouteValidator)
    → (ltb_ℤ v.refresh_every (since now v.last_refresh) ≡ true
        → validate now later Reply.err queue type v ≡ (none, v))
      × (ltb_ℤ v.refresh_every (since now v.last_refresh) ≡ false
          → validate now later ws queue type v ≡ (check queue type v.queue_types, v))
unfolding validate refresh
validate_open now later ws queue type v =
    ((λ stale. rw (stale, validate)), λ fresh. rw (fresh, validate))
