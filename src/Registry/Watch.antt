-- ===== src/Registry/Watch.antt =====
-- What the scheduler knows of the workers against what etcd holds: the listing and the watch of
-- worker_registry.go, and SyncWorkers and HandleWorkerEvent of
-- internal/scheduler/domain/service/scheduler.go.
use dispatchhub.Prelude.{
  suc, ◌+◌, ◌≡◌, refl, ap, ◌∙◌, sym, Text, Bool, true, false, Option, none, some, List, [], ◌∷◌,
  ◌++◌, All, same, length, lt→ltb, drop, if◌then◌else◌, arith,
}
use dispatchhub.Entity.Worker.{WorkerInfo, WorkerEvent, joined, updated, is_online}
use dispatchhub.Registry.{
  Etcd, Json, worker_prefix, worker_key, Change, put_change, delete_change, id_of_key, put_event,
  previous, event_of,
}
use dispatchhub.Scheduler.Topology.{Workers, handle_worker_event}
use dispatchhub.Scheduler.Topology.Known.{find_worker, told, event_outcome}

abbrev pub View : Type 0
View = Text → Option Text

-- What a change makes of the keys.
abbrev pub changed : Change → View → View
changed (put_change created key value) view j = if same key j then some value else view j
changed (delete_change key before) view j = if same key j then none else view j

abbrev pub all_changed : List Change → View → View
all_changed [] view = view
all_changed (x ∷ xs) view = all_changed xs (changed x view)

abbrev pub view_of : List (Text × Text) → View
view_of [] j = none
view_of ((key, value) ∷ kvs) j = if same key j then some value else view_of kvs j

module _ (e : Etcd) (json : Json) where
  -- The workers' keys are the prefix with an id, and their values decode.
  abbrev pub IsWritten : Change → Type 0
  IsWritten (put_change created key value) =
      ((id : Text) × (key ≡ worker_key id)) × ((w : WorkerInfo) × (json.unmarshal value ≡ some w))
  IsWritten (delete_change key before) = (id : Text) × (key ≡ worker_key id)

  -- An entry of the listing is that of an online worker, under its id.
  abbrev pub IsEntry : Text × Text → Type 0
  IsEntry (key, value) =
      (w : WorkerInfo) × (json.unmarshal value ≡ some w)
      × (key ≡ worker_key w.id)
      × (is_online w.state ≡ true)

  -- No key is listed twice.
  abbrev pub IsListing : List (Text × Text) → Type 0
  IsListing [] = Unit
  IsListing ((key, value) ∷ kvs) = (view_of kvs key ≡ none) × IsListing kvs

  abbrev pub worker_at : View → Text → Option WorkerInfo
  worker_at view id = previous e json (view (worker_key id))

  abbrev deliver_one : Option WorkerEvent → Workers → Workers
  deliver_one none ws = ws
  deliver_one (some event) ws = handle_worker_event event ws

  -- The events of the changes, handled in order; none is dropped.
  abbrev pub deliver : List Change → Workers → Workers
  deliver [] ws = ws
  deliver (x ∷ xs) ws = deliver xs (deliver_one (event_of e json x) ws)

  same-append : (p a b : Text) → same (p ++ a) (p ++ b) ≡ same a b
  unfolding same
  same-append [] a b = refl
  same-append (x ∷ p) a b = ground (arith, same-append p a b)

  same-worker_key : (a b : Text) → same (worker_key a) (worker_key b) ≡ same a b
  unfolding worker_key
  same-worker_key a b = same-append worker_prefix a b

  drop-append : (p a : Text) → drop (length p) (p ++ a) ≡ a
  drop-append [] a = refl
  drop-append (x ∷ p) a = drop-append p a

  -- What the scheduler knows is what the keys hold.
  abbrev pub Follows : Workers → View → Type 0
  Follows ws view = (id : Text) → find_worker id ws ≡ worker_at view id

  drop_prefix : (id : Text) → id_of_key e json (worker_key id) ≡ id
  unfolding worker_key
  drop_prefix [] = refl
  drop_prefix (c ∷ id) =
      ground (arith, lt→ltb (length worker_prefix) (length worker_prefix + suc (length id)))

  told_put :
      (created : Bool) (w : WorkerInfo) (old : Option WorkerInfo)
      → told (if created then joined else updated) (some w) old ≡ some w
  told_put true w old = refl
  told_put false w old = refl

  previous-if :
      (b : Bool) (x y : Option Text)
      → previous e json (if b then x else y) ≡ (if b then previous e json x else previous e json y)
  previous-if true x y = refl
  previous-if false x y = refl

  pub changed_at :
      (id j : Text) (x y : Option Text)
      → previous e json (if same (worker_key id) (worker_key j) then x else y)
        ≡ (if same id j then previous e json x else previous e json y)
  changed_at id j x y =
      ap (λ b. previous e json (if b then x else y)) (same-worker_key id j)
      ∙ previous-if (same id j) x y

  put_event-Follows :
      (created : Bool) (id : Text) (w : WorkerInfo) (ws : Workers) (j : Text)
      → find_worker j (deliver_one (put_event e json created id (some w)) ws)
        ≡ (if same id j then some w else find_worker j ws)
  put_event-Follows created id w ws j =
      rw event_outcome (rw (told_put created w (find_worker j ws)) refl)

  -- One change and the handling of its event keep what is known and what the keys hold the same.
  pub deliver_one-Follows :
      (x : Change) (ws : Workers) (view : View)
      → IsWritten x
      → Follows ws view
      → Follows (deliver_one (event_of e json x) ws) (changed x view)
  unfolding event_of
  deliver_one-Follows (put_change created key value) ws view ((id, at), (w, back)) known j =
      rw (at, back, drop_prefix id)
        (put_event-Follows created id w ws j
          ∙ rw (known j, sym back) (sym (changed_at id j (some value) (view (worker_key j)))))
  deliver_one-Follows (delete_change key before) ws view (id, at) known j =
      rw (at, drop_prefix id, event_outcome, known j)
        (sym (changed_at id j none (view (worker_key j))))

  -- Whatever the changes are, the events of well-formed ones keep what is known and the keys the same.
  pub deliver-Follows :
      (xs : List Change) (ws : Workers) (view : View)
      → All IsWritten xs
      → Follows ws view
      → Follows (deliver xs ws) (all_changed xs view)
  deliver-Follows [] ws view h known = known
  deliver-Follows (x ∷ xs) ws view (h, hs) known =
      deliver-Follows xs (deliver_one (event_of e json x) ws) (changed x view) hs
        (deliver_one-Follows x ws view h known)
