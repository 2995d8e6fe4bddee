-- ===== src/Redis.antt =====
-- The Redis server as the broker calls it, the links that its calls go over, and a store in memory.
pub mod Interface
pub mod Laws
pub mod Call
pub mod Memory
pub use Interface.{Redis, IsRedis, Ends}
