-- ===== src/Broker/Remove.antt =====
-- `Remove` of queue_broker.go with its script. The two loops over ZSCAN take fuel; `none` means that
-- it ran out. The script's count of removed entries is read by nobody.
pub mod Outcome
use dispatchhub.Prelude.{
  ℕ, zero, suc, Text, Option, none, some, List, [], ◌∷◌, ◌++◌, codes, ◌==◌, if◌then◌else◌,
}
use dispatchhub.Redis.{Redis}
use dispatchhub.Redis.Interface.{around}
use dispatchhub.Redis.Call.{Link}
use dispatchhub.Broker.Codec.{Codec}
use dispatchhub.Broker.Keys.{ready_key_for, delayed_key_for, inflight_key_for, lease_key_for}
use dispatchhub.Broker.Reply.{Result, ok, err, script_failed}

-- "id":"…", in bytes
abbrev pub id_field : Text → Text
id_field task_id = 34 ∷ 105 ∷ 100 ∷ 34 ∷ 58 ∷ 34 ∷ (task_id ++ 34 ∷ [])

module _ (r : Redis) (c : Codec) where
  open r use {Store}

  abbrev pub zrem_all : Text → List Text → Store → Store
  zrem_all key [] s = s
  zrem_all key (m ∷ ms) s = zrem_all key ms (r.zrem s key m)

  -- repeat … until cursor == "0"
  unfoldable pub scan_out : ℕ → Text → Text → ℕ → Store → Option Store
  scan_out zero key pattern cursor s = none
  scan_out (suc fuel) key pattern cursor s =
      let (next, ms) = r.zscan s key cursor pattern in
      let rest = scan_out fuel key pattern next (zrem_all key ms s) in
      if next == 0 then some (zrem_all key ms s) else rest

  unfoldable pub scan_both : ℕ → Text → Text → Option Store → Option Store
  unfolding scan_out
  scan_both fuel delayed pattern none = none
  scan_both fuel delayed pattern (some s) = scan_out fuel delayed pattern 0 s

  unfoldable pub remove_script : ℕ → Text → Text → Store → Option Store
  unfolding scan_both
  remove_script fuel queue task_id s =
      let pattern = around (id_field task_id) in
      scan_both fuel (delayed_key_for queue) pattern (
        scan_out fuel (ready_key_for queue) pattern 0
          (r.zrem (r.hdel s (inflight_key_for queue) task_id) (lease_key_for queue) task_id))

  -- The call over a link; when it is cut before the script has run, nothing has changed.
  unfoldable pub remove : ℕ → Link → Text → Text → Store → Option (Result (Unit {0}) × Store)
  unfolding remove_script
  remove fuel Link.up queue task_id s = elim (remove_script fuel queue task_id s) [
    | none ↦ none
    | some s' ↦ some (ok tt, s')
  ]
  remove fuel (Link.cut zero) queue task_id s = some (err script_failed, s)
  remove fuel (Link.cut (suc n)) queue task_id s = elim (remove_script fuel queue task_id s) [
    | none ↦ none
    | some s' ↦ some (err script_failed, s')
  ]
