-- ===== src/Broker/Remove/Outcome.antt =====
-- `Remove` ends, and what it takes out.
use dispatchhub.Prelude.{
  ℕ, zero, suc, ◌<◌, ◌≡◌, ◌≢◌, ◌⊎◌, refl, ◌∙◌, Text, true, false, none, some, List, [], ◌∷◌, same,
  same_iff, same_refl, ◌==◌, All, has_infix, arith, inl, inr, Bool-cases, Option-cases,
  if◌then◌else◌, ap,
}
use dispatchhub.Redis.{Redis, IsRedis, Ends}
use dispatchhub.Redis.Interface.{around, is_plain, Missed}
use dispatchhub.Redis.Laws.{redis_laws}
use dispatchhub.Redis.Call.{up}
use dispatchhub.Broker.Codec.{Codec}
use dispatchhub.Broker.Keys.{ready_key_for, delayed_key_for, inflight_key_for, lease_key_for}
use dispatchhub.Broker.Keys.Apart.{keys}
use dispatchhub.Broker.Reply.{ok}
use dispatchhub.Broker.Settle.Outcome.{Released}
use dispatchhub.Broker.Remove.{id_field, zrem_all, scan_out, scan_both, remove_script, remove}

ruleset store_rules = (redis_laws, keys, same_refl)

module _ (r : Redis) (c : Codec) ⦃redis : IsRedis r⦄ where
  open r use {Store}

  -- A member is where it was, or it is gone and the needle occurs in it.
  abbrev Sifted : Store → Store → Text → Text → Type 0
  Sifted s s' key needle =
      (d : Text)
      → (r.zscore s' key d ≡ r.zscore s key d)
        ⊎ ((r.zscore s' key d ≡ none) × (has_infix needle d ≡ true))

  -- Sifted under the key, and nothing else of the store has changed.
  abbrev Took : Store → Store → Text → Text → Type 0
  Took s s' key needle =
      Sifted s s' key needle
      × ((k d : Text) → same key k ≡ false → r.zscore s' k d ≡ r.zscore s k d)
      × ((k f : Text) → r.hget s' k f ≡ r.hget s k f)

  Took-trans :
      (s t u : Store) (key needle : Text)
      → Took s t key needle
      → Took t u key needle
      → Took s u key needle
  Took-trans s t u key needle (a, b, c') (a', b', d') = (
    (λ d. elim (a' d) [
      | inl e ↦ elim (a d) [ inl f ↦ inl (e ∙ f) | inr (f, hit) ↦ inr (e ∙ f, hit) ]
      | inr gone ↦ inr gone
    ]),
    (λ k d ne. b' k d ne ∙ b k d ne),
    λ k f. d' k f ∙ c' k f,
  )

  Took-zrem :
      (key needle m : Text) (s : Store)
      → has_infix needle m ≡ true
      → Took s (r.zrem s key m) key needle
  Took-zrem key needle m s hit = (
    (λ d. elim (Bool-cases (same m d)) [
      | inl e ↦ inr (simp (store_rules, e), rw ((same_iff m d).0 e) at hit)
      | inr e ↦ inl (simp (store_rules, e))
    ]),
    (λ k d ne. simp (store_rules, ne)),
    λ k f. simp store_rules,
  )

  zrem_all-Took :
      (key needle : Text) (ms : List Text) (s : Store)
      → All (λ m. has_infix needle m ≡ true) ms
      → Took s (zrem_all r c key ms s) key needle
  zrem_all-Took key needle [] s all = ((λ d. inl refl), (λ k d ne. refl), λ k f. refl)
  zrem_all-Took key needle (m ∷ ms) s (hit, all) =
      Took-trans s (r.zrem s key m) _ key needle (Took-zrem key needle m s hit)
        (zrem_all-Took key needle ms (r.zrem s key m) all)

  scan_out_ends :
      (e : Ends r) (fuel : ℕ) (key pattern : Text) (cursor : ℕ) (s : Store)
      → e.rounds cursor < fuel
      → (s' : Store) × (scan_out r c fuel key pattern cursor s ≡ some s')
  unfolding scan_out
  scan_out_ends e zero key pattern cursor s h = elim h [ ]
  scan_out_ends e (suc fuel) key pattern cursor s h =
      let next = (r.zscan s key cursor pattern).0 in
      let t = zrem_all r c key (r.zscan s key cursor pattern).1 s in
      elim (Bool-cases (next == 0)) [
        | inl last ↦ (t, rw last refl)
        | inr more ↦
            let ne : next ≢ 0 = ground (arith, more) in
            let less = e.rounds-zscan s key cursor pattern ne in
            let (s', run) = scan_out_ends e fuel key pattern next t (omega arith) in
            (s', rw more run)
      ]

  some_injective : (a b : Store) → some a ≡ some b → a ≡ b
  some_injective a b e = cc e

  scan_out-Took :
      (fuel : ℕ) (key needle : Text) (cursor : ℕ) (s s' : Store)
      → is_plain needle ≡ true
      → scan_out r c fuel key (around needle) cursor s ≡ some s'
      → Took s s' key needle
  unfolding scan_out
  scan_out-Took zero key needle cursor s s' plain h = cc h
  scan_out-Took (suc fuel) key needle cursor s s' plain h =
      let next = (r.zscan s key cursor (around needle)).0 in
      let ms = (r.zscan s key cursor (around needle)).1 in
      let t = zrem_all r c key ms s in
      let here = zrem_all-Took key needle ms s (redis.zscan_sound s key cursor needle plain) in
      elim (Bool-cases (next == 0)) [
        | inl last ↦ rw (some_injective t s' (rw last at h)) at here
        | inr more ↦
            Took-trans s t s' key needle here
              (scan_out-Took fuel key needle next t s' plain (rw more at h))
      ]

  zrem_all-gone :
      (key m : Text) (ms : List Text) (s : Store)
      → r.zscore s key m ≡ none
      → r.zscore (zrem_all r c key ms s) key m ≡ none
  zrem_all-gone key m [] s gone = gone
  zrem_all-gone key m (x ∷ ms) s gone =
      zrem_all-gone key m ms (r.zrem s key x) (elim (Bool-cases (same x m)) [
        | inl e ↦ simp (store_rules, e)
        | inr e ↦ simp (store_rules, gone, e)
      ])

  -- A member is gone, or it is none of those that have been removed.
  zrem_all-cases :
      (key m : Text) (ms : List Text) (s : Store)
      → (r.zscore (zrem_all r c key ms s) key m ≡ none) ⊎ All (λ x. same x m ≡ false) ms
  zrem_all-cases key m [] s = inr tt
  zrem_all-cases key m (x ∷ ms) s = elim (Bool-cases (same x m)) [
    | inl e ↦ inl (zrem_all-gone key m ms (r.zrem s key x) (simp (store_rules, e)))
    | inr e ↦ elim (zrem_all-cases key m ms (r.zrem s key x)) [
      | inl gone ↦ inl gone
      | inr others ↦ inr (e, others)
    ]
  ]

  Missed-zrem_all :
      (key pattern m : Text) (cursor : ℕ) (ms : List Text) (s : Store)
      → All (λ x. same x m ≡ false) ms
      → Missed r key pattern m (zrem_all r c key ms s) cursor
      → Missed r key pattern m s cursor
  Missed-zrem_all key pattern m cursor [] s others missed = missed
  Missed-zrem_all key pattern m cursor (x ∷ ms) s (ne, others) missed =
      Missed.removed s cursor x ne
        (Missed-zrem_all key pattern m cursor ms (r.zrem s key x) others missed)

  Took-gone :
      (s s' : Store) (key needle m : Text)
      → Took s s' key needle
      → r.zscore s key m ≡ none
      → r.zscore s' key m ≡ none
  Took-gone s s' key needle m took gone = elim (took.0 m) [ inl e ↦ e ∙ gone | inr (e, hit) ↦ e ]

  -- After the loop a member is gone, or the scan has missed it.
  scan_out-Missed :
      (fuel : ℕ) (key needle : Text) (cursor : ℕ) (s s' : Store) (m : Text)
      → is_plain needle ≡ true
      → scan_out r c fuel key (around needle) cursor s ≡ some s'
      → (r.zscore s' key m ≡ none) ⊎ Missed r key (around needle) m s cursor
  unfolding scan_out
  scan_out-Missed zero key needle cursor s s' m plain h = cc h
  scan_out-Missed (suc fuel) key needle cursor s s' m plain h =
      let next = (r.zscan s key cursor (around needle)).0 in
      let ms = (r.zscan s key cursor (around needle)).1 in
      let t = zrem_all r c key ms s in
      elim (Option-cases (r.zscore s key m)) [
        | inl gone ↦ inl (
            Took-gone s s' key needle m (scan_out-Took (suc fuel) key needle cursor s s' plain h)
              gone)
        | inr (score, e) ↦
            let there : r.zscore s key m ≢ none = λ gone. cc (e, gone) in
            elim (zrem_all-cases key m ms s) [
              | inl gone ↦ elim (Bool-cases (next == 0)) [
                | inl last ↦ inl (rw (some_injective t s' (rw last at h)) at gone)
                | inr more ↦ inl (
                    Took-gone t s' key needle m
                      (scan_out-Took fuel key needle next t s' plain (rw more at h)) gone)
              ]
              | inr others ↦ elim (Bool-cases (next == 0)) [
                | inl last ↦ inr (Missed.last s cursor there others (ground (arith, last)))
                | inr more ↦
                    elim (scan_out-Missed fuel key needle next t s' m plain (rw more at h)) [
                      | inl gone ↦ inl gone
                      | inr missed ↦ inr (
                          Missed.more s cursor there others (ground (arith, more))
                            (Missed-zrem_all key (around needle) m next ms s others missed))
                    ]
              ]
            ]
      ]

  -- Under the key the members in which the needle occurs are gone, and all others are where they were.
  abbrev pub Cleared : Store → Store → Text → Text → Type 0
  Cleared s s' key needle =
      (d : Text) → r.zscore s' key d ≡ (if has_infix needle d then none else r.zscore s key d)

  scan_out-Cleared :
      (fuel : ℕ) (key needle : Text) (s s' : Store)
      → is_plain needle ≡ true
      → scan_out r c fuel key (around needle) 0 s ≡ some s'
      → Cleared s s' key needle
  scan_out-Cleared fuel key needle s s' plain h d = elim (Bool-cases (has_infix needle d)) [
    | inl hit ↦ elim (scan_out-Missed fuel key needle 0 s s' d plain h) [
      | inl gone ↦ rw hit gone
      | inr missed ↦ absurd (redis.zscan_complete s key needle d plain hit missed)
    ]
    | inr apart ↦ elim ((scan_out-Took fuel key needle 0 s s' plain h).0 d) [
      | inl e ↦ rw apart e
      | inr (e, hit) ↦ cc (apart, hit)
    ]
  ]

  -- What comes before and after a removal may change other sets.
  Cleared-shift :
      (s t u v : Store) (key needle : Text)
      → ((d : Text) → r.zscore t key d ≡ r.zscore s key d)
      → ((d : Text) → r.zscore v key d ≡ r.zscore u key d)
      → Cleared t u key needle
      → Cleared s v key needle
  Cleared-shift s t u v key needle before after cleared d =
      after d ∙ cleared d ∙ ap (λ o. if has_infix needle d then none else o) (before d)

  -- With the server in reach, fuel for the rounds of one scan and an id without the special characters
  -- of a pattern, Remove ends. The task is neither inflight nor leased, from the ready and the delayed
  -- set of the queue every member is gone that has the id field with the task's id in it, and every
  -- other member is where it was.
  pub remove_outcome :
      (e : Ends r) (fuel : ℕ) (queue task_id : Text) (s : Store)
      → e.rounds 0 < fuel
      → is_plain (id_field task_id) ≡ true
      → (s' : Store) × (remove r c fuel up queue task_id s ≡ some (ok tt, s'))
        × Released r c s' queue task_id
        × Cleared s s' (ready_key_for queue) (id_field task_id)
        × Cleared s s' (delayed_key_for queue) (id_field task_id)
  unfolding remove remove_script scan_both
  remove_outcome e fuel queue task_id s enough plain =
      let needle = id_field task_id in
      let s0 = r.zrem (r.hdel s (inflight_key_for queue) task_id) (lease_key_for queue) task_id in
      let (s1, run1) = scan_out_ends e fuel (ready_key_for queue) (around needle) 0 s0 enough in
      let (s2, run2) = scan_out_ends e fuel (delayed_key_for queue) (around needle) 0 s1 enough in
      let first = scan_out-Took fuel (ready_key_for queue) needle 0 s0 s1 plain run1 in
      let second = scan_out-Took fuel (delayed_key_for queue) needle 0 s1 s2 plain run2 in
      (
        s2,
        rw (run1, remove) (rw (run2, remove) refl),
        (
          second.2 _ _ ∙ first.2 _ _ ∙ simp store_rules,
          second.1 _ _ (simp store_rules) ∙ first.1 _ _ (simp store_rules) ∙ simp store_rules,
        ),
        Cleared-shift s s0 s1 s2 (ready_key_for queue) needle (λ d. simp store_rules)
            (λ d. second.1 _ d (simp store_rules))
            (scan_out-Cleared fuel (ready_key_for queue) needle s0 s1 plain run1),
        Cleared-shift s s1 s2 s2 (delayed_key_for queue) needle
            (λ d. first.1 _ d (simp store_rules) ∙ simp store_rules) (λ d. refl)
            (scan_out-Cleared fuel (delayed_key_for queue) needle s1 s2 plain run2),
      )
