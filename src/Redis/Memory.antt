-- ===== src/Redis/Memory.antt =====
-- A Redis store held in memory. It has the documented behaviour, so that the theorems' hypotheses
-- about the server can be met.
pub mod Table
pub mod Ranking
pub mod Server
pub use Server.{Memory, empty, memory, memory-IsRedis, memory-Ends, rounds-memory}
