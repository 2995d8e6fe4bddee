-- ===== src/Registry/Lease.antt =====
-- What a registration gives, and what becomes of a worker whose lease is gone.
use dispatchhub.Prelude.{
  ℕ, zero, suc, ◌≡◌, refl, ap, ◌∙◌, Text, true, false, Option, none, some, same_refl, is_some,
  arith,
}
use dispatchhub.Entity.Worker.{WorkerInfo}
use dispatchhub.Redis.Call.{Link, up, cut, Reply, run_script}
use dispatchhub.Registry.{
  Etcd, IsEtcd, Json, Leases, lease_of, worker_key, put_reply, after_put, after_grant, register,
  refresh_key, heartbeat, get_worker, decoded, deregister, revoked,
}

module _ (e : Etcd) (etcd : IsEtcd e) (json : Json) where
  open e use {Store}

  put_reply-live :
      (key value : Text) (l : ℕ) (s : Store)
      → e.is_live s l ≡ true
      → (s' : Store) × (e.put s key value l ≡ some s')
        × (put_reply e json key value l s ≡ (Reply.ok tt, s'))
  put_reply-live key value l s live =
      let (s', p) = etcd.put_live s key value l live in (s', p, ground (arith, p))

  put_reply-dead :
      (key value : Text) (l : ℕ) (s : Store)
      → e.is_live s l ≡ false
      → put_reply e json key value l s ≡ (Reply.err, s)
  put_reply-dead key value l s dead = ground (arith, etcd.put_dead s key value l dead)

  -- What the registry returns for a worker, and that its lease is the one of the map and stands.
  abbrev pub Registered : Store → Leases → WorkerInfo → Type 0
  Registered s leases w =
      (get_worker e json up w.id s ≡ (Reply.ok (some w), s))
      × ((l : ℕ) × (lease_of w.id leases ≡ some l) × (e.is_live s l ≡ true))

  found :
      (w : WorkerInfo) (d : Text) (l : ℕ) (s s' : Store)
      → json.unmarshal d ≡ some w
      → e.put s (worker_key w.id) d l ≡ some s'
      → get_worker e json up w.id s' ≡ (Reply.ok (some w), s')
  unfolding get_worker run_script
  found w d l s s' back p =
      let at : e.get s' (worker_key w.id) ≡ some d = ground (
        arith,
        etcd.get-put s (worker_key w.id) d l s' (worker_key w.id) p,
        same_refl (worker_key w.id),
      ) in
      let read : decoded e json (some d) ≡ Reply.ok (some w) = ground (arith, back) in
      ap (λ o. (decoded e json o, s')) at ∙ ap (λ r. (r, s')) read

  -- With etcd in reach, Register of a worker that marshals succeeds; the worker is found, and its key has
  -- a lease that stands.
  pub register_outcome :
      (w : WorkerInfo) (d : Text) (leases : Leases) (s : Store)
      → json.marshal w ≡ some d
      → json.unmarshal d ≡ some w
      → let (error, leases', s') = register e json up up up w leases s in
        (error ≡ none) × Registered s' leases' w
  unfolding register after_grant after_put run_script
  register_outcome w d leases s mar back =
      let (l, s1) = e.grant s in
      let live = etcd.live-grant s in
      let (s', p, put) = put_reply-live (worker_key w.id) d l s1 live in
      rw (mar, put, register)
        (
          refl,
          (
            found w d l s1 s' back p,
            (l, rw (same_refl w.id) refl, etcd.live-put s1 (worker_key w.id) d l s' l p ∙ live),
          ),
        )

  -- Heartbeats of registered workers keep them registered, each with what it has sent last.
  pub heartbeat_outcome :
      (w sent : WorkerInfo) (d : Text) (leases : Leases) (s : Store)
      → Registered s leases w
      → sent.id ≡ w.id
      → json.marshal sent ≡ some d
      → json.unmarshal d ≡ some sent
      → let (error, s') = heartbeat e json up sent leases s in
        (error ≡ none) × Registered s' leases sent
  unfolding heartbeat refresh_key run_script
  heartbeat_outcome w sent d leases s (known, (l, held, live)) own mar back =
      let (s', p, put) = put_reply-live (worker_key sent.id) d l s live in
      let lease = ap (λ x. lease_of x leases) own ∙ held in
      rw (mar, lease, put, heartbeat)
        (
          refl,
          (
            found sent d l s s' back p,
            (l, refl, etcd.live-put s (worker_key sent.id) d l s' l p ∙ live),
          ),
        )

  refresh_key-dead :
      (link : Link) (id : Text) (d : Option Text) (l : ℕ) (s : Store)
      → e.is_live s l ≡ false
      → (is_some (refresh_key e json link id d (some l) s).0 ≡ true)
        × ((refresh_key e json link id d (some l) s).1 ≡ s)
  unfolding refresh_key run_script
  refresh_key-dead link id none l s dead = (refl, refl)
  refresh_key-dead up id (some d) l s dead =
      rw (put_reply-dead (worker_key id) d l s dead) (refl, refl)
  refresh_key-dead (cut zero) id (some d) l s dead = (refl, refl)
  refresh_key-dead (cut (suc n)) id (some d) l s dead =
      (refl, ap (λ x. x.1) (put_reply-dead (worker_key id) d l s dead))

  -- Once the lease of a worker is gone, whatever the link, each of its heartbeats fails and changes
  -- nothing: only Register gets it a lease again.
  pub heartbeat_dead :
      (link : Link) (w : WorkerInfo) (leases : Leases) (l : ℕ) (s : Store)
      → lease_of w.id leases ≡ some l
      → e.is_live s l ≡ false
      → let (error, s') = heartbeat e json link w leases s in (is_some error ≡ true) × (s' ≡ s)
  unfolding heartbeat
  heartbeat_dead link w leases l s held dead =
      rw held (refresh_key-dead link w.id (json.marshal w) l s dead)

  -- With etcd in reach for the Delete, Deregister succeeds, and the worker is not found any more.
  pub deregister-gone :
      (revoke : Link) (id : Text) (leases : Leases) (s : e.Store)
      → let (error, leases', s') = deregister e json revoke up id leases s in
        (error ≡ none) × (get_worker e json up id s' ≡ (Reply.ok none, s'))
  unfolding deregister get_worker run_script
  deregister-gone revoke id leases s =
      let s1 = revoked e json revoke (lease_of id leases) s in
      let s2 = e.delete s1 (worker_key id) in
      let gone : e.get s2 (worker_key id) ≡ none =
        ground
          (arith, etcd.get-delete s1 (worker_key id) (worker_key id), same_refl (worker_key id)) in
      (refl, ap (λ o. (decoded e json o, s2)) gone)
