-- ===== src/Api/Route.antt =====
-- internal/apiserver/domain/service/route_validator.go. What `ListWorkers` returns is an argument; a
-- map is an association list with one entry for each key.
pub mod Decision
use dispatchhub.Prelude.{
  ℕ, ◌-◌, ◌^◌, Text, Bool, true, false, Option, none, some, List, [], ◌∷◌, same, contains, add_all,
  leb, if◌then◌else◌,
}
use dispatchhub.Prelude.Int.{ℤ, pos, negsuc, ltb_ℤ}
use dispatchhub.Entity.Worker.{WorkerInfo, is_online}
use dispatchhub.Redis.Call.{Reply}

abbrev pub Routes : Type 0
Routes = List (Text × List Text)

-- `last_refresh` is none for the zero time.
pub record RouteValidator : Type 0 where
  pub refresh_every : ℤ
  pub queue_types : Routes
  pub last_refresh : Option ℕ

abbrev pub new_route_validator : ℤ → RouteValidator
new_route_validator refresh_every = record {
  refresh_every = refresh_every;
  queue_types = [];
  last_refresh = none;
}

pub data RouteError : Type 0 where
  no_consumer no_handler : RouteError

-- The queue's entry is made when there is none.
unfoldable pub add_route : Text → List Text → Routes → Routes
add_route queue ts [] = (queue, add_all ts []) ∷ []
add_route queue ts ((key, us) ∷ routes) =
    let rest = add_route queue ts routes in
    if same key queue then (key, add_all ts us) ∷ routes else (key, us) ∷ rest

unfoldable pub add_queues : List Text → List Text → Routes → Routes
unfolding add_route
add_queues [] ts routes = routes
add_queues (queue ∷ queues) ts routes = add_queues queues ts (add_route queue ts routes)

-- The loop of `refresh` over the workers.
unfoldable pub routes_of : List WorkerInfo → Routes → Routes
unfolding add_queues
routes_of [] routes = routes
routes_of (w ∷ ws) routes =
    routes_of ws (if is_online w.state then add_queues w.queues w.task_types routes else routes)

unfoldable pub refresh :
    ℕ → Reply (List WorkerInfo) → RouteValidator → Reply (Unit {0}) × RouteValidator
unfolding routes_of
refresh now Reply.err v = (Reply.err, v)
refresh now (Reply.ok workers) v =
    (Reply.ok tt, record v { queue_types = routes_of workers []; last_refresh = some now })

-- time.Since; from the zero time it is the longest duration. A clock that went back gives a negative
-- one.
abbrev pub since : ℕ → Option ℕ → ℤ
since now none = pos (2 ^ 63 - 1)
since now (some t) = if leb t now then pos (now - t) else negsuc (t - now - 1)

unfoldable pub types_of : Text → Routes → Option (List Text)
types_of queue [] = none
types_of queue ((key, us) ∷ routes) = if same key queue then some us else types_of queue routes

abbrev pub check_type : Text → Option (List Text) → Option RouteError
check_type type none = some no_consumer
check_type type (some types) = if contains type types then none else some no_handler

-- `none` is a nil error.
unfoldable pub check : Text → Text → Routes → Option RouteError
unfolding types_of
check queue type [] = none
check queue type (route ∷ routes) = check_type type (types_of queue (route ∷ routes))

abbrev pub after_refresh :
    Text → Text → Reply (Unit {0}) × RouteValidator → Option RouteError × RouteValidator
after_refresh queue type (Reply.err, v) = (none, v)
after_refresh queue type (Reply.ok u, v) = (check queue type v.queue_types, v)

-- `now` is the time of the staleness test, `later` that of the end of the refresh.
unfoldable pub validate :
    ℕ
    → ℕ
    → Reply (List WorkerInfo)
    → Text
    → Text
    → RouteValidator
    → Option RouteError × RouteValidator
unfolding refresh check
validate now later workers queue type v =
    if ltb_ℤ v.refresh_every (since now v.last_refresh)
    then after_refresh queue type (refresh later workers v)
    else (check queue type v.queue_types, v)
