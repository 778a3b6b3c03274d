-- ===== src/Worker/Endings.antt =====
-- The statements that end a run, and those around it.
use woms.Base.{ℕ, suc, ◌≡◌, refl, sym, ap, ◌∙◌, none, some, String, eq_iff}
use woms.Base.Maps.{lookup}
use woms.Clock.{Time}
use woms.Domain.{ScheduleJob, JobStatus}
use woms.Worker.Database.{JobRow, Tables, done, Transaction, update_row}
use woms.Worker.JobStore.{
  mark_running, mark_retry_after_run, mark_failed_after_run, mark_completed, insert_worker_audit_tx,
  delete_preview_row, delete_preview, attempt_of, running_row, queued_row, ended_row,
}
use woms.Worker.Effects.{Writes, exec-Writes, pure-Writes, bind-Writes, if-Writes}
use woms.Worker.JobRows.{SetsJobs, exec-SetsJobs, bind-SetsJobs, exec_returning-done}
use woms.Worker.Ticket.{lookup-update_row}

pub done-injective : {A : Type 0} {a b : A} → done a ≡ done b → a ≡ b
done-injective h = cc

pub some-injective : {A : Type 0} {a b : A} → some a ≡ some b → a ≡ b
some-injective h = cc

pub some≢none : {A : Type 0} {a : A} → some a ≡ none → ⊥
some≢none h = cc

pub mark_retry-SetsJobs :
    (now : Time) (id text : String)
    → SetsJobs (update_row id (queued_row now text)) (mark_retry_after_run now id text)
unfolding mark_retry_after_run
mark_retry-SetsJobs now id text = exec-SetsJobs _

pub audit-Writes :
    (now : Time) (id action reason : String) → Writes (insert_worker_audit_tx now id action reason)
unfolding insert_worker_audit_tx
audit-Writes now id action reason = exec-Writes _ (λ t. refl)

pub delete_preview_row-Writes : (preview_id : String) → Writes (delete_preview_row preview_id)
unfolding delete_preview_row
delete_preview_row-Writes preview_id = exec-Writes _ (λ t. refl)

pub delete_preview-Writes : (preview_id : String) → Writes (delete_preview preview_id)
unfolding delete_preview
delete_preview-Writes preview_id =
    if-Writes _ (pure-Writes tt) (delete_preview_row-Writes preview_id)

pub mark_failed-SetsJobs :
    (now : Time) (id text reason : String)
    → SetsJobs
        (update_row id (ended_row now JobStatus.failed text))
        (mark_failed_after_run now id text reason)
unfolding mark_failed_after_run
mark_failed-SetsJobs now id text reason =
    bind-SetsJobs _ (exec-SetsJobs _) (λ ran. audit-Writes now id _ reason)

pub mark_completed-SetsJobs :
    (now : Time) (job : ScheduleJob)
    → SetsJobs
        (update_row job.id (ended_row now JobStatus.completed "排程任務已完成。"))
        (mark_completed now job)
unfolding mark_completed
mark_completed-SetsJobs now job = bind-SetsJobs _ (exec-SetsJobs _) (λ ran.
    bind-Writes (audit-Writes now job.id _ _) (λ audited. delete_preview-Writes job.preview_id))

-- What `UPDATE … RETURNING attempt_count` leaves and returns.
pub mark_running-done :
    (now : Time) (id : String) (tx : Transaction) (row : JobRow) (attempt : ℕ)
    → lookup id tx.tables.schedule_jobs ≡ some row
    → (mark_running now id tx).1 ≡ done attempt
    → ((mark_running now id tx).0.tables.schedule_jobs
        ≡ update_row id (running_row now) tx.tables.schedule_jobs)
      × (attempt ≡ suc row.attempt_count)
unfolding mark_running running_row
mark_running-done now id tx row attempt found h =
    let returned =
      exec_returning-done _ (λ (t : Tables). attempt_of (lookup id t.schedule_jobs)) tx attempt h in
    let ran : lookup id (update_row id (running_row now) tx.tables.schedule_jobs)
        ≡ some (running_row now row) =
      rw (
        lookup-update_row id id (running_row now) tx.tables.schedule_jobs,
        (eq_iff id id).1 refl,
        found,
      ) in
    (
      ap (λ (t : Tables). t.schedule_jobs) returned.0,
      sym (done-injective (ap attempt_of (sym ran) ∙ returned.1)),
    )
