-- ===== src/Worker/Delivery.antt =====
-- `processJobPayload` of cmd/scheduler-worker/main.go and what it calls: the lock of the line around the
-- run of a job, and the message loop. Time passes between steps: how often a timer fires before the
-- context of a wait is over is an input here.
use woms.Base.{
  ℕ, zero, suc, Bool, true, false, ◌||◌, not, List, [], ◌∷◌, Option, none, some, String, str_eq,
  ◌==◌, if◌then◌else◌,
}
use woms.Domain.{ScheduleJob}
use woms.Lock.Provider.{LineLock, got, not_acquired, broken, Provider}
use woms.Worker.Database.{WorkError, Outcome, done, failed, Transaction, Action, Done}
use woms.Worker.JobStore
use woms.Worker.JobRun.{WorkerEnv, Connection, connected, opened, process_db_job_locked}
use Prim.Native.String

-- Durations are in nanoseconds.
pub record WorkerJobConfig : Type 0 where
  pub max_retries : ℕ
  pub lock_ttl : ℕ
  pub lock_renew_interval : ℕ
  pub lock_timeout : ℕ

abbrev closed : Transaction × Outcome Done → Connection × Option WorkError
closed (tx, done ran) = (connected tx.tables tx.faults, none)
closed (tx, failed e) = (connected tx.tables tx.faults, some e)

-- `db.ExecContext`: a statement that is a transaction of its own.
unfoldable pub run_alone : Action Done → Connection → Connection × Option WorkError
run_alone action c = closed (action (opened c.tables c.faults))

unfoldable pub schedule_line_lock_key : String → String
schedule_line_lock_key line_id = String.◌++◌ "woms:locks:schedule-line:" line_id

pub data Acquired : Type 0 where
  locked : LineLock → Acquired
  timed_out : Acquired
  lock_failed : Bool → String → Acquired

-- How long a delivery takes: the retries before the timeout of the lock, and the renewals before the
-- run of the job ends.
pub record Pace : Type 0 where
  pub retries : ℕ
  pub renewals : ℕ

-- The state in which the locks are kept, and the database.
pub record World {ℓ} (L : Type ℓ) : Type ℓ where
  pub locks : L
  pub db : Connection

abbrev retry_message : Bool → String → String
retry_message true message = "同產線排程鎖取得逾時，等待重試。"
retry_message false message = String.◌++◌ "Redis 排程鎖取得失敗，等待重試：" message

-- The events of `runMessageLoop`: a fetch that fails, or a message with the pace of its delivery and
-- whether the commit of its offset succeeds.
pub data Fetched : Type 0 where
  fetch_failed : Fetched
  fetched : ℕ → String → Pace → Bool → Fetched

-- The loop over a run of events: the world, and the offsets that are committed.
module _ {ℓ} {L : Type ℓ} where
  -- The loop of `acquireLineLock`, with the retries that are left before the context is over.
  unfoldable pub acquire_line_lock : Provider L → String → ℕ → ℕ → L → L × Acquired
  acquire_line_lock provider key ttl zero locks =
      let (locks2, attempt) = provider.acquire key ttl locks in
      (
        locks2,
        elim attempt [
          | got lock ↦ locked lock
          | not_acquired ↦ timed_out
          | broken over message ↦ lock_failed over message
        ],
      )
  acquire_line_lock provider key ttl (suc retries) locks =
      let (locks2, attempt) = provider.acquire key ttl locks in
      elim attempt [
        | got lock ↦ (locks2, locked lock)
        | not_acquired ↦ acquire_line_lock provider key ttl retries locks2
        | broken over message ↦ (locks2, lock_failed over message)
      ]

  -- The loop of `startLockRenewal` over its ticks; `true` when a failure has cancelled the run. The
  -- statements of a cancelled run fail: they are among the faults of the connection.
  unfoldable pub renew : Provider L → LineLock → ℕ → ℕ → L → L × Bool
  renew provider lock ttl zero locks = (locks, false)
  renew provider lock ttl (suc ticks) locks =
      let (locks2, attempt) = provider.refresh lock ttl locks in
      elim attempt [
        | got refreshed ↦ renew provider lock ttl ticks locks2
        | not_acquired ↦ (locks2, true)
        | broken over message ↦ (locks2, true)
      ]

  unfoldable pub start_lock_renewal : Provider L → LineLock → WorkerJobConfig → ℕ → L → L × Bool
  unfolding renew
  start_lock_renewal provider lock config ticks locks =
      if config.lock_renew_interval == 0
      then (locks, false)
      else renew provider lock config.lock_ttl ticks locks

  module _ (env : WorkerEnv) (provider : Provider L) (config : WorkerJobConfig) (pace : Pace) where
    abbrev requeue : ScheduleJob → String → World L → World L × Option WorkError
    requeue job message w =
        let (db, error) = run_alone (JobStore.mark_job_retry env.now job.id message) w.db in
        (record w { db = db }, error)

    -- The run under the lock, and the deferred release, whose error is only logged.
    unfoldable pub run_under_lock : ScheduleJob → LineLock → World L → World L × Option WorkError
    unfolding start_lock_renewal process_db_job_locked
    run_under_lock job lock w =
        let (renewed, cancelled) = start_lock_renewal provider lock config pace.renewals w.locks in
        let (db, error) = process_db_job_locked env job config.max_retries w.db in
        let (released, result) = provider.release lock renewed in
        (record { locks = released; db = db }, error)

    unfoldable pub after_acquire : ScheduleJob → World L → Acquired → World L × Option WorkError
    unfolding run_alone JobStore.mark_job_retry run_under_lock
    after_acquire job w (locked lock) = run_under_lock job lock w
    after_acquire job w timed_out = requeue job (retry_message true "") w
    after_acquire job w (lock_failed over message) = requeue job (retry_message over message) w

  -- The part behind the checks of the payload.
  unfoldable pub process_job :
      WorkerEnv
      → Option (Provider L)
      → WorkerJobConfig
      → Pace
      → ScheduleJob
      → World L
      → World L × Option WorkError
  unfolding run_alone JobStore.mark_job_failed acquire_line_lock after_acquire
      schedule_line_lock_key
  process_job env none config pace job w =
      let (db, error) = run_alone (JobStore.mark_job_failed env.now job.id "Redis 排程鎖未設定。") w.db in
      (record w { db = db }, error)
  process_job env (some provider) config pace job w =
      let (locks, acquired) =
        acquire_line_lock provider (schedule_line_lock_key job.line_id) config.lock_ttl pace.retries
          w.locks in
      after_acquire env provider config pace job (record w { locks = locks }) acquired

  unfoldable pub process_job_payload :
      WorkerEnv
      → Option (Provider L)
      → WorkerJobConfig
      → Pace
      → String
      → World L
      → World L × Option WorkError
  unfolding process_job
  process_job_payload env provider config pace payload w = elim (env.unmarshal_job payload) [
    | failed e ↦ (w, some e)
    | done job ↦
        if str_eq job.id "" || str_eq job.line_id ""
        then (w, none)
        else process_job env provider config pace job w
  ]

  -- The handler of a message; without a database it does nothing.
  unfoldable pub handle_schedule_message :
      Bool
      → WorkerEnv
      → Option (Provider L)
      → WorkerJobConfig
      → Pace
      → String
      → World L
      → World L × Option WorkError
  unfolding process_job_payload
  handle_schedule_message has_db env provider config pace payload w =
      if not has_db then (w, none) else process_job_payload env provider config pace payload w

  unfoldable pub run_message_loop :
      Bool
      → WorkerEnv
      → Option (Provider L)
      → WorkerJobConfig
      → List Fetched
      → World L
      → World L × List ℕ
  unfolding handle_schedule_message
  run_message_loop has_db env provider config [] w = (w, [])
  run_message_loop has_db env provider config (fetch_failed ∷ events) w =
      run_message_loop has_db env provider config events w
  run_message_loop has_db env provider config (fetched offset payload pace commits ∷ events) w =
      let (handled, error) = handle_schedule_message has_db env provider config pace payload w in
      let (last, offsets) = run_message_loop has_db env provider config events handled in
      (last, elim error [ none ↦ if commits then offset ∷ offsets else offsets | some e ↦ offsets ])
