-- ===== src/Worker/JobStore.antt =====
-- `sqlLockedJobStore`: the statements on `schedule_jobs` in the transaction of a job, and
-- `markJobRetry` and `markJobFailed` outside one. `now` is the transaction's `NOW()`.
use woms.Base.{
  ℕ, suc, Bool, ◌&&◌, List, [], ◌∷◌, ◌++◌, Option, none, some, String, str_eq, if◌then◌else◌,
  any_of, keep, ltb,
}
use woms.Base.Maps.{lookup, delete}
use woms.Clock.{Time, is_zero}
use woms.Domain.{ScheduleJob, JobStatus, AuditEntry, job_status_eq}
use woms.Scheduler.Sorting.{stable_sort}
use woms.Worker.Database.{
  JobRow, Tables, Outcome, done, failed, Action, Done, ◌>>◌, pure, query, exec, exec_returning,
  no_rows, update_row,
}
use Prim.Native.String

-- No row is no error here.
abbrev pub status_of : Option JobRow → Option JobStatus
status_of none = none
status_of (some row) = some row.job.status

unfoldable pub job_status : String → Action (Option JobStatus)
unfolding query lookup
job_status id = query (λ (t : Tables). done (status_of (lookup id t.schedule_jobs)))

-- The row after `UPDATE schedule_jobs SET status = 'running', …`
unfoldable pub running_row : Time → JobRow → JobRow
unfolding is_zero
running_row now row = record row {
  attempt_count = suc row.attempt_count;
  job = record row.job {
    status = JobStatus.running;
    message = "排程任務執行中。";
    started_at = if is_zero row.job.started_at then now else row.job.started_at;
    updated_at = now;
  };
}

abbrev pub attempt_of : Option JobRow → Outcome ℕ
attempt_of none = failed no_rows
attempt_of (some row) = done row.attempt_count

unfoldable pub mark_running : Time → String → Action ℕ
unfolding exec_returning update_row running_row lookup
mark_running now id =
    exec_returning
      (λ (t : Tables). record t { schedule_jobs = update_row id (running_row now) t.schedule_jobs })
      (λ (t : Tables). attempt_of (lookup id t.schedule_jobs))

unfoldable pub queued_row : Time → String → JobRow → JobRow
queued_row now message row = record row {
  job = record row.job { status = JobStatus.queued; message = message; updated_at = now };
}

unfoldable pub mark_retry_after_run : Time → String → String → Action Done
unfolding exec update_row queued_row
mark_retry_after_run now id message = exec (λ (t : Tables). record t {
  schedule_jobs = update_row id (queued_row now message) t.schedule_jobs;
})

-- A job that ends, with its status and message.
unfoldable pub ended_row : Time → JobStatus → String → JobRow → JobRow
ended_row now status message row = record row {
  job = record row.job { status = status; message = message; completed_at = now; updated_at = now };
}

unfoldable pub creates_job : String → AuditEntry → Bool
creates_job job_id entry = str_eq entry.resource job_id && str_eq entry.action "schedule.job.create"

-- `ORDER BY created_at LIMIT 1`
unfoldable pub first_creation : String → List AuditEntry → Option AuditEntry
unfolding creates_job stable_sort keep
first_creation job_id entries =
    elim (stable_sort (λ (a b : AuditEntry). ltb a.created_at b.created_at)
      (keep (creates_job job_id) entries)) [ [] ↦ none | entry ∷ rest ↦ some entry ]

unfoldable pub worker_audit : Time → String → String → String → List AuditEntry → List AuditEntry
unfolding first_creation any_of
worker_audit now job_id action reason entries =
    let id : String = String.◌++◌ "AUD-WORKER-" (String.◌++◌ action (String.◌++◌ "-" job_id)) in
    elim (first_creation job_id entries) [
      | none ↦ entries
      | some creation ↦
          if any_of (λ (entry : AuditEntry). str_eq entry.id id) entries
          then entries
          else entries
            ++ record {
              id = id;
              actor_id = creation.actor_id;
              action = action;
              resource = job_id;
              reason = reason;
              created_at = now;
            }
              ∷ []
    ]

unfoldable pub insert_worker_audit_tx : Time → String → String → String → Action Done
unfolding exec worker_audit
insert_worker_audit_tx now job_id action reason =
    exec
      (λ (t : Tables). record t { audit_logs = worker_audit now job_id action reason t.audit_logs })

unfoldable pub mark_failed_after_run : Time → String → String → String → Action Done
unfolding exec update_row ended_row insert_worker_audit_tx
mark_failed_after_run now id message reason = do
  exec (λ (t : Tables). record t {
    schedule_jobs = update_row id (ended_row now JobStatus.failed message) t.schedule_jobs;
  })
  insert_worker_audit_tx now id "schedule.job.fail" reason

unfoldable pub delete_preview_row : String → Action Done
unfolding exec delete
delete_preview_row preview_id =
    exec (λ (t : Tables). record t { schedule_previews = delete preview_id t.schedule_previews })

unfoldable pub delete_preview : String → Action Done
unfolding delete_preview_row
delete_preview preview_id = if str_eq preview_id "" then pure tt else delete_preview_row preview_id

unfoldable pub mark_completed : Time → ScheduleJob → Action Done
unfolding exec update_row ended_row insert_worker_audit_tx delete_preview
mark_completed now job = do
  exec (λ (t : Tables). record t {
    schedule_jobs =
        update_row job.id (ended_row now JobStatus.completed "排程任務已完成。") t.schedule_jobs;
  })
  insert_worker_audit_tx now job.id "schedule.job.complete" "排程任務已完成。"
  delete_preview job.preview_id

abbrev pub is_queued_row : JobRow → Bool
is_queued_row row = job_status_eq row.job.status JobStatus.queued

-- `markJobRetry` and `markJobFailed`, each one statement of its own.
unfoldable pub mark_job_retry : Time → String → String → Action Done
unfolding exec update_row queued_row
mark_job_retry now job_id message = exec (λ (t : Tables). record t {
  schedule_jobs =
      update_row job_id
        (λ (row : JobRow). if is_queued_row row then queued_row now message row else row)
        t.schedule_jobs;
})

unfoldable pub mark_job_failed : Time → String → String → Action Done
unfolding exec update_row ended_row
mark_job_failed now job_id message = exec (λ (t : Tables). record t {
  schedule_jobs = update_row job_id (ended_row now JobStatus.failed message) t.schedule_jobs;
})
