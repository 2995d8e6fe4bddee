-- ===== src/Broker/Keys/Apart.antt =====
-- The five keys of a queue are different keys, and those of different queues too.
use mathlib.Core.List.{append_cancel_left, append_cancel_right, append_assoc}
use dispatchhub.Prelude.{
  ℕ, Text, false, [], ◌∷◌, ◌++◌, ◌≡◌, ◌≢◌, refl, sym, ap, ◌∙◌, codes, arith, same, same_iff,
  same_refl, same_ne, Bool-cases, inl, inr,
}
use dispatchhub.Broker.Keys.{
  queue_prefix, ready_key_for, delayed_key_for, inflight_key_for, lease_key_for, stats_key_for,
}

-- The last byte of a text tells the five kinds of key apart.
last_or : ℕ → Text → ℕ
last_or d [] = d
last_or d (x ∷ xs) = last_or x xs

last_or-append : (d : ℕ) (xs : Text) (y : ℕ) (ys : Text) → last_or d (xs ++ y ∷ ys) ≡ last_or y ys
unfolding last_or
last_or-append d [] y ys = refl
last_or-append d (x ∷ xs) y ys = last_or-append x xs y ys

last_or-key :
    (queue : Text) (y : ℕ) (ys : Text)
    → last_or 0 (queue_prefix ++ (queue ++ y ∷ ys)) ≡ last_or y ys
last_or-key queue y ys =
    ap (last_or 0) (sym (append_assoc queue_prefix queue (y ∷ ys)))
    ∙ last_or-append 0 (queue_prefix ++ queue) y ys

apart :
    (a b : Text) (x y : ℕ) (xs ys : Text)
    → last_or x xs ≢ last_or y ys
    → same (queue_prefix ++ (a ++ x ∷ xs)) (queue_prefix ++ (b ++ y ∷ ys)) ≡ false
apart a b x y xs ys h =
    same_ne _ _ (λ e. h (sym (last_or-key a x xs) ∙ ap (last_or 0) e ∙ last_or-key b y ys))

alike :
    (a b suffix : Text)
    → same (queue_prefix ++ (a ++ suffix)) (queue_prefix ++ (b ++ suffix)) ≡ same a b
alike a b suffix = elim (Bool-cases (same a b)) [
  | inl e ↦ rw ((same_iff a b).0 e, same_refl b) (same_refl _)
  | inr e ↦ rw e (
      same_ne _ _ (λ p. ground (
        arith,
        same_iff a b,
        append_cancel_right a b suffix (append_cancel_left queue_prefix _ _ p),
      )))
]

module _ (a b : Text) where
  pub ready-ready : same (ready_key_for a) (ready_key_for b) ≡ same a b
  unfolding ready_key_for
  ready-ready = alike a b (codes ":ready")

  pub delayed-delayed : same (delayed_key_for a) (delayed_key_for b) ≡ same a b
  unfolding delayed_key_for
  delayed-delayed = alike a b (codes ":delayed")

  pub inflight-inflight : same (inflight_key_for a) (inflight_key_for b) ≡ same a b
  unfolding inflight_key_for
  inflight-inflight = alike a b (codes ":inflight")

  pub lease-lease : same (lease_key_for a) (lease_key_for b) ≡ same a b
  unfolding lease_key_for
  lease-lease = alike a b (codes ":lease")

  pub stats-stats : same (stats_key_for a) (stats_key_for b) ≡ same a b
  unfolding stats_key_for
  stats-stats = alike a b (codes ":stats")

  pub ready-delayed : same (ready_key_for a) (delayed_key_for b) ≡ false
  unfolding ready_key_for delayed_key_for last_or
  ready-delayed = apart a b 58 58 (codes "ready") (codes "delayed") (omega arith)

  pub ready-inflight : same (ready_key_for a) (inflight_key_for b) ≡ false
  unfolding ready_key_for inflight_key_for last_or
  ready-inflight = apart a b 58 58 (codes "ready") (codes "inflight") (omega arith)

  pub ready-lease : same (ready_key_for a) (lease_key_for b) ≡ false
  unfolding ready_key_for lease_key_for last_or
  ready-lease = apart a b 58 58 (codes "ready") (codes "lease") (omega arith)

  pub ready-stats : same (ready_key_for a) (stats_key_for b) ≡ false
  unfolding ready_key_for stats_key_for last_or
  ready-stats = apart a b 58 58 (codes "ready") (codes "stats") (omega arith)

  pub delayed-ready : same (delayed_key_for a) (ready_key_for b) ≡ false
  unfolding delayed_key_for ready_key_for last_or
  delayed-ready = apart a b 58 58 (codes "delayed") (codes "ready") (omega arith)

  pub delayed-inflight : same (delayed_key_for a) (inflight_key_for b) ≡ false
  unfolding delayed_key_for inflight_key_for last_or
  delayed-inflight = apart a b 58 58 (codes "delayed") (codes "inflight") (omega arith)

  pub delayed-lease : same (delayed_key_for a) (lease_key_for b) ≡ false
  unfolding delayed_key_for lease_key_for last_or
  delayed-lease = apart a b 58 58 (codes "delayed") (codes "lease") (omega arith)

  pub delayed-stats : same (delayed_key_for a) (stats_key_for b) ≡ false
  unfolding delayed_key_for stats_key_for last_or
  delayed-stats = apart a b 58 58 (codes "delayed") (codes "stats") (omega arith)

  pub inflight-ready : same (inflight_key_for a) (ready_key_for b) ≡ false
  unfolding inflight_key_for ready_key_for last_or
  inflight-ready = apart a b 58 58 (codes "inflight") (codes "ready") (omega arith)

  pub inflight-delayed : same (inflight_key_for a) (delayed_key_for b) ≡ false
  unfolding inflight_key_for delayed_key_for last_or
  inflight-delayed = apart a b 58 58 (codes "inflight") (codes "delayed") (omega arith)

  pub inflight-lease : same (inflight_key_for a) (lease_key_for b) ≡ false
  unfolding inflight_key_for lease_key_for last_or
  inflight-lease = apart a b 58 58 (codes "inflight") (codes "lease") (omega arith)

  pub inflight-stats : same (inflight_key_for a) (stats_key_for b) ≡ false
  unfolding inflight_key_for stats_key_for last_or
  inflight-stats = apart a b 58 58 (codes "inflight") (codes "stats") (omega arith)

  pub lease-ready : same (lease_key_for a) (ready_key_for b) ≡ false
  unfolding lease_key_for ready_key_for last_or
  lease-ready = apart a b 58 58 (codes "lease") (codes "ready") (omega arith)

  pub lease-delayed : same (lease_key_for a) (delayed_key_for b) ≡ false
  unfolding lease_key_for delayed_key_for last_or
  lease-delayed = apart a b 58 58 (codes "lease") (codes "delayed") (omega arith)

  pub lease-inflight : same (lease_key_for a) (inflight_key_for b) ≡ false
  unfolding lease_key_for inflight_key_for last_or
  lease-inflight = apart a b 58 58 (codes "lease") (codes "inflight") (omega arith)

  pub lease-stats : same (lease_key_for a) (stats_key_for b) ≡ false
  unfolding lease_key_for stats_key_for last_or
  lease-stats = apart a b 58 58 (codes "lease") (codes "stats") (omega arith)

  pub stats-ready : same (stats_key_for a) (ready_key_for b) ≡ false
  unfolding stats_key_for ready_key_for last_or
  stats-ready = apart a b 58 58 (codes "stats") (codes "ready") (omega arith)

  pub stats-delayed : same (stats_key_for a) (delayed_key_for b) ≡ false
  unfolding stats_key_for delayed_key_for last_or
  stats-delayed = apart a b 58 58 (codes "stats") (codes "delayed") (omega arith)

  pub stats-inflight : same (stats_key_for a) (inflight_key_for b) ≡ false
  unfolding stats_key_for inflight_key_for last_or
  stats-inflight = apart a b 58 58 (codes "stats") (codes "inflight") (omega arith)

  pub stats-lease : same (stats_key_for a) (lease_key_for b) ≡ false
  unfolding stats_key_for lease_key_for last_or
  stats-lease = apart a b 58 58 (codes "stats") (codes "lease") (omega arith)

pub ruleset keys = (
  ready-ready, delayed-delayed, inflight-inflight, lease-lease, stats-stats, ready-delayed,
  ready-inflight, ready-lease, ready-stats, delayed-ready, delayed-inflight, delayed-lease,
  delayed-stats, inflight-ready, inflight-delayed, inflight-lease, inflight-stats, lease-ready,
  lease-delayed, lease-inflight, lease-stats, stats-ready, stats-delayed, stats-inflight,
  stats-lease,
)
