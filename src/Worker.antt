-- ===== src/Worker.antt =====
-- internal/worker/application/service/worker_app_service.go: how a worker treats a task that it has
-- taken from a queue. The state is the Redis store and the database together.
pub mod Env
pub mod Settle
pub mod Process
pub mod Middleware
pub mod Fetch
pub mod Cancel
pub mod Life
