-- ===== src/Tests/Workers.antt =====
-- A small database of the worker, and the theorems about cmd/scheduler-worker/main.go at it.
use woms.Base.{
  ℕ, ◌+◌, ◌*◌, ◌≤◌, ◌≡◌, ◌↔◌, refl, true, false, List, [], ◌∷◌, none, some, arith, str_eq, ◌==◌,
  if◌then◌else◌,
}
use woms.Base.Maps.{lookup}
use woms.Base.Int.{pos}
use woms.Base.Results.{ok, err, Result}
use woms.Clock.{Time}
use woms.Domain.{ScheduleJob, JobStatus, Order, OrderStatus, zero_job, zero_order, low}
use woms.Worker.Database.{Tables, failure, done, failed}
use woms.Worker.JobStore.{job_status, mark_running, mark_retry_after_run}
use woms.Worker.JobRun.{WorkerEnv, connected, persist, process_db_job_locked}
use woms.Base.Text.{codes}
use woms.Lock.Redis.{Redis, bytes}
use woms.Tests.Locks.{Keys, put, no_keys, server}
use woms.Worker.Delivery.{WorkerJobConfig, Pace, World}
use woms.Worker.Ticket.{Step, settled}
use woms.Worker.Refinement.{shown, process_db_job_locked-Step}
use woms.Worker.Progress.{Delivery, serve, serve-settles, good_deliveries}
use woms.Worker.Atomicity.{process_db_job_locked_atomic}
use woms.Worker.LineSchedule.{WorkerOrderRow, insert_line_schedule_allocations_tx}
use woms.Worker.LineCapacity.{quantity_on, insert_line_schedule_allocations_tx-le}
use woms.Worker.Config.{
  WorkerConfig, first_offset, is_positive, less, validate_database_mode_config,
  validate_database_mode_config_iff,
}
use woms.Startup.{retry_dependency, retry_dependency_iff}

abbrev noon : Time
noon = 740136 * 86400000000000 + 43200000000000

abbrev worker_env : WorkerEnv
worker_env = record {
  now = noon;
  unmarshal_job = λ payload. failed (failure "not a job");
  marshal_job = λ job. done "";
  unmarshal_allocations = λ text. failed (failure "not a list");
}

-- A job that has run once, of a line that no longer exists: persisting it fails.
abbrev worker_job : ScheduleJob
worker_job = record zero_job { id = "JOB-1"; line_id = "A"; status = JobStatus.queued }

abbrev waiting_order : Order
waiting_order = record zero_order {
  id = "ORD-1";
  line_id = "A";
  quantity = 60;
  priority = low;
  status = OrderStatus.pending;
}

abbrev worker_tables : Tables
worker_tables = record {
  schedule_jobs = ("JOB-1", record { job = worker_job; attempt_count = 1 }) ∷ [];
  orders = ("ORD-1", waiting_order) ∷ [];
  production_lines = [];
  schedule_allocations = [];
  schedule_previews = [];
  audit_logs = [];
}

abbrev after_failure : Tables
after_failure = record worker_tables {
  schedule_jobs =
      (
        "JOB-1",
        record {
          job = record worker_job {
            message = "排程任務暫時失敗，等待重試。";
            started_at = noon;
            updated_at = noon;
          };
          attempt_count = 2;
        },
      )
      ∷ [];
}

-- The run fails, and the job waits with one run more.
failing_run :
    process_db_job_locked worker_env worker_job 3 (connected worker_tables [])
    ≡ (connected after_failure [], some (failure "sql: no rows in result set"))
unfolding process_db_job_locked persist job_status mark_running mark_retry_after_run
failing_run = refl

process_db_job_locked-Step_example :
    Step 3
      (shown "JOB-1" worker_tables)
      (process_db_job_locked worker_env worker_job 3 (connected worker_tables [])).1
      (shown "JOB-1"
        (process_db_job_locked worker_env worker_job 3 (connected worker_tables [])).0.tables)
process_db_job_locked-Step_example =
    process_db_job_locked-Step worker_env worker_job 3 "JOB-1" (connected worker_tables [])

process_db_job_locked_atomic_example :
    after_failure ≡ record worker_tables { schedule_jobs = after_failure.schedule_jobs }
process_db_job_locked_atomic_example =
    process_db_job_locked_atomic worker_env worker_job 3 (connected worker_tables [])
      (connected after_failure []) (failure "sql: no rows in result set") failing_run

abbrev good_delivery : Delivery
good_delivery = record { job = worker_job; faults = [] }

-- The connection is lost in the second delivery.
abbrev deliveries : List Delivery
deliveries =
    good_delivery
    ∷ record { job = worker_job; faults = none ∷ some "connection lost" ∷ [] }
    ∷ good_delivery
    ∷ []

serve-settles_example : shown "JOB-1" (serve worker_env 3 deliveries worker_tables) ≡ settled
unfolding lookup good_deliveries
serve-settles_example =
    serve-settles worker_env 3 "JOB-1" deliveries 1 worker_tables refl (omega arith) (omega arith)

abbrev job_config : WorkerJobConfig
job_config = record {
  max_retries = 3;
  lock_ttl = 15000000000;
  lock_renew_interval = 5000000000;
  lock_timeout = 10000000000;
}

abbrev slow : Pace
slow = record { retries = 2; renewals = 0 }

-- Redis, with the lock of the line held by another worker.
abbrev busy_redis : Redis Keys
busy_redis = record {
  server = put (codes "woms:locks:schedule-line:A") (some (bytes "r0")) no_keys;
  randoms = bytes "r1" ∷ bytes "r2" ∷ bytes "r3" ∷ [];
}

abbrev busy_world : World (Redis Keys)
busy_world = record { locks = busy_redis; db = connected worker_tables [] }

abbrev rows : List WorkerOrderRow
rows =
    record { id = "ORD-1"; quantity = 60; priority = low }
    ∷ record { id = "ORD-2"; quantity = 50; priority = low }
    ∷ []

insert_line_schedule_allocations_tx-le_example :
    quantity_on 740137
      (insert_line_schedule_allocations_tx noon worker_job 100 rows (record {
        tables = worker_tables;
        aborted = false;
        faults = [];
      })).0.tables.schedule_allocations
    ≤ quantity_on 740137 [] + 100
insert_line_schedule_allocations_tx-le_example =
    insert_line_schedule_allocations_tx-le noon worker_job 100 rows 740137 worker_tables
      (omega arith)

abbrev ready_third : ℕ → Result (Unit {0})
ready_third n = if n == 3 then ok tt else err "refused"

retry_dependency_iff_example :
    (retry_dependency "kafka" ready_third 2 ≡ ok tt)
    ↔ ((late : ℕ) × (late ≤ 2) × (ready_third (1 + late) ≡ ok tt))
retry_dependency_iff_example = retry_dependency_iff "kafka" ready_third 2

abbrev worker_config : WorkerConfig
worker_config = record {
  brokers = "kafka:9092";
  topic = "woms.schedule.jobs";
  group = "woms-scheduler-workers";
  database_url = "postgres://db";
  redis_addr = "redis:6379";
  min_job_duration = pos 0;
  max_retries = 3;
  lock_ttl = pos 15000000000;
  lock_renew_interval = pos 5000000000;
  lock_timeout = pos 10000000000;
  backfill_interval = pos 5000000000;
  dependency_timeout = pos 120000000000;
  dependency_interval = pos 2000000000;
  start_offset = first_offset;
}

validate_database_mode_config_iff_example :
    (validate_database_mode_config worker_config ≡ ok tt) ↔ (
      (is_positive worker_config.lock_ttl ≡ true)
      × (is_positive worker_config.lock_timeout ≡ true)
      × (is_positive worker_config.lock_renew_interval ≡ true)
      × (less worker_config.lock_renew_interval worker_config.lock_ttl ≡ true)
      × (is_positive worker_config.backfill_interval ≡ true)
      × (str_eq worker_config.redis_addr "" ≡ false))
validate_database_mode_config_iff_example = validate_database_mode_config_iff worker_config
