-- ===== src/Broker/Keys.antt =====
-- The Redis keys of a queue (queue_broker.go), and `string.gsub`, by which the dequeue script derives
-- the inflight and lease keys from a ready key.
pub mod Derived
pub mod Apart
unfoldable pub use dispatchhub.Prelude.{starts_with}
use dispatchhub.Prelude.{
  ℕ, zero, suc, ◌-◌, Text, Bool, true, false, ◌&&◌, List, [], ◌∷◌, ◌++◌, ◌==◌, codes, length,
}

-- fmt.Sprintf(keyPrefix + "queue:%s" + suffix, queue)
abbrev pub queue_prefix : Text
queue_prefix = codes "dispatchhub:queue:"

unfoldable pub ready_key_for : Text → Text
ready_key_for queue = queue_prefix ++ (queue ++ codes ":ready")

unfoldable pub delayed_key_for : Text → Text
delayed_key_for queue = queue_prefix ++ (queue ++ codes ":delayed")

unfoldable pub inflight_key_for : Text → Text
inflight_key_for queue = queue_prefix ++ (queue ++ codes ":inflight")

unfoldable pub lease_key_for : Text → Text
lease_key_for queue = queue_prefix ++ (queue ++ codes ":lease")

unfoldable pub stats_key_for : Text → Text
stats_key_for queue = queue_prefix ++ (queue ++ codes ":stats")

-- Replaces the occurrences of `p` from the left; the count is of bytes still inside the last one.
unfoldable pub replace : Text → Text → ℕ → Text → Text
replace p r n [] = []
replace p r (suc n) (x ∷ s) = replace p r n s
replace p r zero (x ∷ s) = elim (starts_with p (x ∷ s)) [
  | true ↦ r ++ replace p r (length p - 1) s
  | false ↦ x ∷ replace p r zero s
]

-- string.gsub(s, p, r) for a non-empty pattern with no magic character.
unfoldable pub gsub : Text → Text → Text → Text
gsub s p r = replace p r 0 s

-- string.gsub(queue_key, ':ready', ':inflight')
unfoldable pub derived_inflight : Text → Text
derived_inflight key = gsub key (codes ":ready") (codes ":inflight")

-- string.gsub(queue_key, ':ready', ':lease')
unfoldable pub derived_lease : Text → Text
derived_lease key = gsub key (codes ":ready") (codes ":lease")
