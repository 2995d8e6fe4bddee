-- ===== src/Tests.antt =====
-- Concrete runs of the theorems.
mod Sample
mod Queues
mod Numbers
mod Rows
mod Workers
mod Middleware
mod Fetching
mod Crons
mod Api
mod Queries
mod Upkeep
mod Recovery
mod Twice
mod Members
mod Leaders
mod Loops
mod Limits
mod Lifetime
