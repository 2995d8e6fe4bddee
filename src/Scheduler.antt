-- ===== src/Scheduler.antt =====
-- internal/scheduler/domain/service/scheduler.go.
pub mod Cron
pub mod Topology
pub mod Maintenance
pub mod App
