-- ===== src/Broker/Keys/Derived.antt =====
-- When the keys that the dequeue script derives are the keys of the other calls.
use mathlib.Core.List.{append-nil, append_assoc}
use dispatchhub.Prelude.{
  ℕ, zero, suc, ◌-◌, Text, true, false, [], ◌∷◌, ◌++◌, ◌≡◌, ◌≢◌, refl, sym, ap, ◌∙◌, codes, length,
  arith,
}
use dispatchhub.Broker.Keys.{
  queue_prefix, ready_key_for, inflight_key_for, lease_key_for, starts_with, replace, gsub,
  derived_inflight, derived_lease,
}

-- No occurrence of `p` begins inside `s` when `p` itself follows `s`.
abbrev pub Clear : Text → Text → Type 0
Clear p [] = Unit {0}
Clear p (x ∷ s) = (starts_with p (x ∷ (s ++ p)) ≡ false) × Clear p s

-- `:ready` occurs in the ready key of the queue at its end only.
abbrev pub IsClear : Text → Type 0
IsClear queue = Clear (codes ":ready") (queue_prefix ++ queue)

starts_with_self : (p : Text) → starts_with p p ≡ true
unfolding starts_with
starts_with_self [] = refl
starts_with_self (x ∷ p) = ground (arith, starts_with_self p)

replace-skip : (p r u : Text) → replace p r (length u) u ≡ []
unfolding replace
replace-skip p r [] = refl
replace-skip p r (x ∷ u) = replace-skip p r u

replace-Clear : (x : ℕ) (p r s : Text) → Clear (x ∷ p) s → replace (x ∷ p) r 0 (s ++ x ∷ p) ≡ s ++ r
unfolding replace
replace-Clear x p r [] h =
    rw (starts_with_self (x ∷ p), replace)
      (rw (one_less (length p), replace-skip (x ∷ p) r p) (append-nil r))
  where
    one_less : (n : ℕ) → suc n - 1 ≡ n
    one_less n = omega arith
replace-Clear x p r (y ∷ s) h = rw (h.0, replace) (ap (λ t. y ∷ t) (replace-Clear x p r s h.1))

gsub-clear :
    (queue r : Text)
    → IsClear queue
    → gsub (ready_key_for queue) (codes ":ready") r ≡ queue_prefix ++ (queue ++ r)
unfolding gsub ready_key_for
gsub-clear queue r h =
    ap (λ t. replace (codes ":ready") r 0 t)
      (sym (append_assoc queue_prefix queue (codes ":ready")))
    ∙ replace-Clear 58 (codes "ready") r (queue_prefix ++ queue) h
    ∙ append_assoc queue_prefix queue r

-- For such a queue the script writes the very keys that Ack, Nack, Remove and the reclaim loop use.
pub derived_keys :
    (queue : Text)
    → IsClear queue
    → (derived_inflight (ready_key_for queue) ≡ inflight_key_for queue)
      × (derived_lease (ready_key_for queue) ≡ lease_key_for queue)
unfolding derived_inflight derived_lease inflight_key_for lease_key_for
derived_keys queue h = (gsub-clear queue _ h, gsub-clear queue _ h)

byte_at : ℕ → Text → ℕ
byte_at n [] = 0
byte_at zero (x ∷ xs) = x
byte_at (suc n) (x ∷ xs) = byte_at n xs

-- A queue whose name begins with "ready": the script writes another inflight key than Ack reads.
pub derived_inflight-ready :
    (rest : Text)
    → derived_inflight (ready_key_for (codes "ready" ++ rest))
      ≢ inflight_key_for (codes "ready" ++ rest)
unfolding derived_inflight ready_key_for inflight_key_for gsub replace starts_with byte_at
derived_inflight-ready rest e = omega (arith, ap (byte_at 18) e)
