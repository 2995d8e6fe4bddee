-- ===== src/Api/Grpc/RoundTrip.antt =====
-- The conversions undo each other.
use dispatchhub.Prelude.{◌≡◌, refl, Option, none, some}
use dispatchhub.Prelude.Int.{ℤ, pos, ◌<ℤ◌, IsInt32}
use dispatchhub.Entity.State.{
  TaskState, pending, scheduled, running, retrying, completed, failed, cancelled, timeout,
}
use dispatchhub.Api.Grpc.{TaskSpec, entity_to_proto_state, proto_to_entity_state}

-- A state survives the way to the protocol and back.
pub entity_state_round_trip : (x : TaskState) → proto_to_entity_state (entity_to_proto_state x) ≡ x
unfolding proto_to_entity_state entity_to_proto_state
entity_state_round_trip pending = refl
entity_state_round_trip scheduled = refl
entity_state_round_trip running = refl
entity_state_round_trip retrying = refl
entity_state_round_trip completed = refl
entity_state_round_trip failed = refl
entity_state_round_trip cancelled = refl
entity_state_round_trip timeout = refl

-- A duration of the protocol is left out or positive.
abbrev pub IsPositive : Option ℤ → Type 0
IsPositive none = Unit {0}
IsPositive (some d) = pos 0 <ℤ d

-- The numbers are those of the messages, and the durations positive.
abbrev pub IsSpec : TaskSpec → Type 0
IsSpec spec =
    IsInt32 spec.priority
    × IsInt32 spec.max_retries
    × IsPositive spec.delay
    × IsPositive spec.timeout_after
    × IsPositive spec.retry_backoff
