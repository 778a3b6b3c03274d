-- ===== src/Worker/JobRun.antt =====
-- `runLockedJobState` and `processDBJobLocked` of cmd/scheduler-worker/main.go: one run of a job in a
-- transaction, by the interface `lockedJobStore`, and the store of SQL statements.
use woms.Base.{
  ℕ, Bool, true, false, ◌&&◌, ◌||◌, not, List, [], ◌∷◌, Option, none, some, String, str_eq, ltb,
  if◌then◌else◌,
}
use woms.Clock.{Time}
use woms.Domain.{ScheduleJob, JobStatus, job_status_eq}
use woms.Scheduler.Types.{Allocation}
use woms.Worker.Database.{
  Tables, WorkError, failure, message_of, is_stale, Outcome, done, failed, Transaction, Action,
  Done,
}
use woms.Worker.JobStore
use woms.Worker.LineSchedule.{persist_line_schedule}
use woms.Worker.PreviewSchedule.{persist_preview_allocations}
use Prim.Native.String

-- The clock that the database and the worker read, and the decoders of JSON.
pub record WorkerEnv : Type 0 where
  pub now : Time
  pub unmarshal_job : String → Outcome ScheduleJob
  pub marshal_job : ScheduleJob → Outcome String
  pub unmarshal_allocations : String → Outcome (List Allocation)

pub record LockedJobStore : Type 0 where
  pub job_status : String → Action (Option JobStatus)
  pub mark_running : String → Action ℕ
  pub persist : ScheduleJob → Action Done
  pub mark_retry_after_run : String → String → Action Done
  pub mark_failed_after_run : String → String → String → Action Done
  pub mark_completed : ScheduleJob → Action Done

unfoldable pub persist : WorkerEnv → ScheduleJob → Action Done
unfolding persist_line_schedule persist_preview_allocations
persist env job =
    if str_eq job.source "hpa-peak-demo" || str_eq job.preview_id ""
    then persist_line_schedule env.now job
    else persist_preview_allocations env.unmarshal_allocations env.now job

abbrev pub sql_locked_job_store : WorkerEnv → LockedJobStore
sql_locked_job_store env = record {
  job_status = JobStore.job_status;
  mark_running = JobStore.mark_running env.now;
  persist = persist env;
  mark_retry_after_run = JobStore.mark_retry_after_run env.now;
  mark_failed_after_run = JobStore.mark_failed_after_run env.now;
  mark_completed = JobStore.mark_completed env.now;
}

-- The error that is returned, and whether the transaction is to be committed.
abbrev pub Ran : Type 0
Ran = Transaction × Option WorkError × Bool

module _ (store : LockedJobStore) (job : ScheduleJob) (max_retries : ℕ) where
  unfoldable pub after_completed : Transaction → Outcome Done → Ran
  after_completed tx (failed e) = (tx, some e, false)
  after_completed tx (done ran) = (tx, none, true)

  unfoldable pub after_persist : ℕ → Transaction → Outcome Done → Ran
  unfolding after_completed
  after_persist attempt tx (failed e) =
      if not (is_stale e) && ltb attempt max_retries
      then ((store.mark_retry_after_run job.id "排程任務暫時失敗，等待重試。" tx).0, some e, true)
      else (
        (store.mark_failed_after_run job.id (String.◌++◌ "排程任務失敗：" (message_of e)) (message_of e)
            tx).0,
        none,
        true,
      )
  after_persist attempt tx (done ran) =
      let (tx2, out) = store.mark_completed job tx in after_completed tx2 out

  unfoldable pub after_running : Transaction → Outcome ℕ → Ran
  unfolding after_persist
  after_running tx (failed e) = (tx, some e, false)
  after_running tx (done attempt) =
      let (tx2, out) = store.persist job tx in after_persist attempt tx2 out

  -- Only a queued job runs.
  unfoldable pub after_status : Transaction → Outcome (Option JobStatus) → Ran
  unfolding after_running
  after_status tx (failed e) = (tx, some e, false)
  after_status tx (done none) = (tx, none, true)
  after_status tx (done (some status)) =
      if not (job_status_eq status JobStatus.queued)
      then (tx, none, true)
      else let (tx2, out) = store.mark_running job.id tx in after_running tx2 out

  unfoldable pub run_locked_job_state : Transaction → Ran
  unfolding after_status
  run_locked_job_state tx = let (tx2, out) = store.job_status job.id tx in after_status tx2 out

-- A connection to the database, between transactions.
pub record Connection : Type 0 where
  pub tables : Tables
  pub faults : List (Option String)

abbrev pub connected : Tables → List (Option String) → Connection
connected tables faults = record { tables = tables; faults = faults }

abbrev pub opened : Tables → List (Option String) → Transaction
opened tables faults = record { tables = tables; aborted = false; faults = faults }

-- `db.BeginTx`
abbrev pub begin_tx : Tables → List (Option String) → List (Option String) × Outcome Transaction
begin_tx tables [] = ([], done (opened tables []))
begin_tx tables (none ∷ faults) = (faults, done (opened tables faults))
begin_tx tables (some message ∷ faults) = (faults, failed (failure message))

-- `tx.Commit()` of a transaction that is not aborted, begun on the tables `before`. A commit that fails
-- changes nothing.
abbrev pub commit_with : Tables → Tables → List (Option String) → Connection × Option WorkError
commit_with before after [] = (connected after [], none)
commit_with before after (none ∷ faults) = (connected after faults, none)
commit_with before after (some message ∷ faults) = (connected before faults, some (failure message))

abbrev pub commit_if : Bool → Tables → Transaction → Connection × Option WorkError
commit_if true before tx = (
  connected before tx.faults,
  some (failure "pq: Could not complete operation in a failed transaction"),
)
commit_if false before tx = commit_with before tx.tables tx.faults

unfoldable pub commit : Tables → Transaction → Connection × Option WorkError
commit before tx = commit_if tx.aborted before tx

-- The error of the commit takes the place of the error of the run; without a commit the deferred
-- `tx.Rollback()` undoes the run.
abbrev pub or_run_error :
    Option WorkError → Connection × Option WorkError → Connection × Option WorkError
or_run_error run_err (c, none) = (c, run_err)
or_run_error run_err (c, some e) = (c, some e)

unfoldable pub finish_tx : Tables → Ran → Connection × Option WorkError
unfolding commit
finish_tx before (tx, run_err, should_commit) =
    if should_commit
    then or_run_error run_err (commit before tx)
    else (connected before tx.faults, run_err)

module _ (env : WorkerEnv) (job : ScheduleJob) (max_retries : ℕ) where
  abbrev pub in_tx :
      Tables → List (Option String) → Outcome Transaction → Connection × Option WorkError
  in_tx before faults (failed e) = (connected before faults, some e)
  in_tx before faults (done tx) =
      finish_tx before (run_locked_job_state (sql_locked_job_store env) job max_retries tx)

  unfoldable pub process_db_job_locked : Connection → Connection × Option WorkError
  unfolding run_locked_job_state finish_tx
  process_db_job_locked c =
      let (faults, begun) = begin_tx c.tables c.faults in in_tx c.tables faults begun
