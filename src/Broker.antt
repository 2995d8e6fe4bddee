-- ===== src/Broker.antt =====
-- internal/shared/infrastructure/persistence/redis/queue_broker.go.
pub mod Keys
pub mod Backoff
pub mod Codec
pub mod Reply
pub mod Keep
pub mod Queue
pub mod Settle
pub mod Maintain
pub mod Remove
