-- ===== src/Lib.antt =====
-- DispatchHub, a distributed task scheduler. An API server stores tasks in MySQL and puts them in
-- Redis queues, a scheduler promotes delayed tasks, reclaims tasks of dead workers and triggers cron
-- jobs, and workers take tasks from the queues, run them and record the outcome.
--
-- Files and the code that they model:
--   Prelude          shared names: native numbers, texts as lists of bytes, Go's int64
--   Entity           internal/shared/domain/entity (Task, TaskState, CronJob, QueueStats, TaskFilter), and
--                    the workers with their events in Entity.Worker
--   Redis            the Redis commands and their documented laws, how a call fails, and a store in
--                    memory that obeys the laws
--   Broker.Keys, Broker.Backoff, Broker.Queue, Broker.Settle, Broker.Maintain, Broker.Remove
--                    internal/shared/infrastructure/persistence/redis/queue_broker.go, each method of
--                    QueueBroker as a function of the store, with its Lua script as another; Enqueue*
--                    and Dequeue in Queue, Ack and Nack in Settle, PromoteDelayed, Len, Stats,
--                    EnqueueIfNotInflight and ReclaimInflight in Maintain, Remove in Remove
--   Mysql            internal/shared/infrastructure/persistence/mysql: the queries and their documented
--                    laws, TaskRepository in Mysql.Tasks, CronJobRepository in Mysql.Crons, and a
--                    database in memory
--   Worker           internal/worker/application/service/worker_app_service.go: processTask in
--                    Worker.Process, handleSuccess and handleFailure in Worker.Settle, the calls that they
--                    make and what other processes do between them in Worker.Env; fetchLoop in
--                    Worker.Fetch, as a step relation; the table of cancel functions in Worker.Cancel;
--                    registration and heartbeats in Worker.Life; and
--                    internal/worker/interfaces/middleware/middleware.go in Worker.Middleware
--   Scheduler        internal/scheduler/domain/service/scheduler.go: TriggerDueCronJobs in Scheduler.Cron,
--                    one turn of its loop with ClaimCronJob of cronjob_repository.go, and the loop in
--                    Scheduler.Cron.Due; the known workers and Queues in Scheduler.Topology;
--                    CompensateOrphanedTasks, CleanupTerminalTasks and ReclaimInflightTasks in
--                    Scheduler.Maintenance; and internal/scheduler/application/scheduler_app_service.go in
--                    Scheduler.App, one function for a tick of each loop
--   Api              internal/apiserver: domain/service/route_validator.go in Api.Route,
--                    domain/service/task_service_impl.go in Api.Service, interfaces/grpc/server.go in
--                    Api.Grpc, interfaces/http/server.go in Api.Http, and the two servers against each
--                    other in Api.Protocols
--   Registry         internal/shared/infrastructure/persistence/etcd/worker_registry.go in Registry, and its
--                    listing and watch together with SyncWorkers and HandleWorkerEvent in Registry.Watch
--                    and Registry.Listing; etcd's calls and their documented laws, and a store in memory
--   Election         internal/scheduler/infrastructure/election/election.go, as a step relation over
--                    some schedulers and the keys of one election
--   RateLimit        pkg/ratelimit/ratelimit.go, and the part of cmd/apiserver/main.go that puts it before
--                    a submission
--   Config           internal/shared/infrastructure/config/config.go, and the configuration of the API
--                    server in internal/apiserver/infrastructure/config/config.go
--   Flow             a submission that Redis misses with the compensation after it, a worker that dies
--                    with the reclaim after it, a task of a cron job that is run a second time, and
--                    submissions under the rate limiter
--   Tests            runs of the theorems on concrete data
--
-- A method is a function from the state of the server to its result and the next state. The Redis
-- and MySQL servers, the JSON codec, the cron library, the parsers of numbers and durations and the
-- random source are parameters, as are etcd and the arithmetic of float64; IsRedis, IsMysql, IsCodec,
-- Ends, IsEtcd and IsFloat name what is used of them. Each call takes a Link: `up`, or `cut n` for a
-- call whose client gets an error after the server has executed n of its commands. A Lua script is one
-- command; a pipeline is several. Loops run over finite lists, but for the scans of Remove, which take
-- fuel: more than the rounds of one scan, which Ends bounds. Times are nanoseconds, Go's int64 is a
-- signed integer with its wrap-around written out. The DATETIME(3) columns of MySQL keep
-- milliseconds; the rows of the model keep the times as they were written. An INSERT may fail for any
-- row. A handler returns a result or an error and does not change its task: the nil result that a Go
-- handler can return with no error, and writes through the task's pointer, are left out.
--
-- Not modelled: logging, metrics, the reading of YAML, process start and shutdown,
-- transport under the handlers of gRPC and HTTP, the channel of cancellations, generated code, and the
-- text of error messages.
mod Prelude
pub mod Entity
pub mod Redis
pub mod Broker
pub mod Mysql
pub mod Worker
pub mod Scheduler
pub mod Api
pub mod Registry
pub mod RateLimit
pub mod Config
pub mod Election
pub mod Flow
pub mod Tests
