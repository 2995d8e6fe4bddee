-- ===== src/Flow.antt =====
-- The components together: what a task goes through from its submission on.
pub mod Recovery
pub mod Limit
pub mod Crash
pub mod Twice
