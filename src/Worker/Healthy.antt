-- ===== src/Worker/Healthy.antt =====
-- A run without faults: it stays without faults, and it is committed.
use woms.Base.{
  ℕ, suc, true, ◌≡◌, inl, inr, refl, ap, ◌∙◌, List, Option, some, String, Bool-cases, ltb, not,
  ◌&&◌, eq_iff,
}
use woms.Base.Maps.{lookup}
use woms.Clock.{Time}
use woms.Domain.{ScheduleJob, JobStatus, job_status_eq}
use woms.Worker.Database.{
  JobRow, is_stale, Outcome, done, failed, Transaction, Action, Done, exec_returning, query,
  update_row, statement, with_faults,
}
use woms.Worker.JobStore.{
  job_status, mark_running, mark_retry_after_run, mark_failed_after_run, mark_completed, attempt_of,
  running_row,
}
use woms.Worker.Effects.{
  IsHealthy, Sure, Sure-done, exec-Sure, bind-Sure, bind-Writes, statement-live,
}
use woms.Worker.Endings.{audit-Writes, delete_preview-Writes}
use woms.Worker.Persisting.{persist-Persists}
use woms.Worker.Ticket.{lookup-update_row}
use woms.Worker.JobRun.{
  WorkerEnv, sql_locked_job_store, Ran, after_completed, after_persist, after_running, after_status,
  run_locked_job_state,
}

mark_retry-Sure : (now : Time) (id text : String) → Sure (mark_retry_after_run now id text)
unfolding mark_retry_after_run
mark_retry-Sure now id text = exec-Sure _

mark_failed-Sure :
    (now : Time) (id text reason : String) → Sure (mark_failed_after_run now id text reason)
unfolding mark_failed_after_run
mark_failed-Sure now id text reason = bind-Sure (exec-Sure _) (λ ran. audit-Writes now id _ reason)

mark_completed-Sure : (now : Time) (job : ScheduleJob) → Sure (mark_completed now job)
unfolding mark_completed
mark_completed-Sure now job = bind-Sure (exec-Sure _) (λ ran.
    bind-Writes (audit-Writes now job.id _ _) (λ audited. delete_preview-Writes job.preview_id))

with_no_faults {ℓ} :
    {A : Type ℓ} (run : Action A) (tx : Transaction) → IsHealthy tx → statement run tx ≡ run tx
with_no_faults run tx h =
    statement-live run tx h.0
    ∙ ap (λ (faults : List (Option String)). with_faults faults run tx) h.1

-- A run that ends without faults and is committed.
abbrev pub IsCommitted : Ran → Type 0
IsCommitted ran = (ran.2 ≡ true) × IsHealthy ran.0

module _ (env : WorkerEnv) (job : ScheduleJob) (max_retries : ℕ) where
  after_persist-IsCommitted :
      (attempt : ℕ) (tx : Transaction) (o : Outcome Done)
      → IsHealthy tx
      → IsCommitted (after_persist (sql_locked_job_store env) job max_retries attempt tx o)
  unfolding after_persist after_completed
  after_persist-IsCommitted attempt tx (done ran) h =
      let (a, good) = Sure-done (mark_completed-Sure env.now job) tx h in
      rw (good, after_completed) (refl, (mark_completed-Sure env.now job).healthy tx h)
  after_persist-IsCommitted attempt tx (failed e) h =
      elim (Bool-cases (not (is_stale e) && ltb attempt max_retries)) [
        | inl again ↦
            rw (again, after_persist) (refl, (mark_retry-Sure env.now job.id _).healthy tx h)
        | inr over ↦
            rw (over, after_persist) (refl, (mark_failed-Sure env.now job.id _ _).healthy tx h)
      ]

  mark_running-IsHealthy :
      (tx : Transaction) (row : JobRow)
      → lookup job.id tx.tables.schedule_jobs ≡ some row
      → IsHealthy tx
      → IsHealthy (mark_running env.now job.id tx).0
        × ((mark_running env.now job.id tx).1 ≡ done (suc row.attempt_count))
  unfolding mark_running exec_returning running_row
  mark_running-IsHealthy tx row found h =
      let ran : lookup job.id (update_row job.id (running_row env.now) tx.tables.schedule_jobs)
          ≡ some (running_row env.now row) =
        rw (
          lookup-update_row job.id job.id (running_row env.now) tx.tables.schedule_jobs,
          (eq_iff job.id job.id).1 refl,
          found,
        ) in
      rw (with_no_faults _ tx h) (h, ap attempt_of ran)

  pub run-IsCommitted :
      (tx : Transaction) (row : JobRow)
      → lookup job.id tx.tables.schedule_jobs ≡ some row
      → job_status_eq row.job.status JobStatus.queued ≡ true
      → IsHealthy tx
      → IsCommitted (run_locked_job_state (sql_locked_job_store env) job max_retries tx)
  unfolding run_locked_job_state job_status query after_status after_running
  run-IsCommitted tx row found queued h =
      let marked = mark_running-IsHealthy tx row found h in
      rw (with_no_faults _ tx h, found, queued, marked.1)
        (after_persist-IsCommitted _ _ _
          ((persist-Persists env job).healthy (mark_running env.now job.id tx).0 marked.0))
