-- ===== src/Worker/Steps.antt =====
-- What one run of a job, and one transaction of the worker, does to the rows of the jobs.
use woms.Base.{
  ℕ, suc, ◌<◌, true, false, ◌≡◌, ◌⊎◌, inl, inr, refl, sym, ap, ◌∙◌, subst, Option, none, some,
  String, arith, Bool-cases, Option-cases, ltb, not, ◌&&◌,
}
use woms.Base.Maps.{Map, lookup}
use woms.Domain.{ScheduleJob, JobStatus, job_status_eq}
use woms.Worker.Database.{
  JobRow, Tables, WorkError, message_of, is_stale, Outcome, done, failed, Transaction, Action, Done,
  update_row,
}
use woms.Worker.JobStore.{
  job_status, mark_running, mark_retry_after_run, mark_failed_after_run, mark_completed, status_of,
  queued_row, ended_row,
}
use woms.Worker.Effects.{query-Reads}
use woms.Worker.JobRows.{IsWritten, SetsJobs, query-done}
use woms.Worker.Persisting.{persist-Persists}
use woms.Worker.Ticket.{ticket, is_queued, Step, running_rows, retry-Step, settle-Step}
use woms.Worker.JobRun.{
  WorkerEnv, sql_locked_job_store, persist, Ran, after_completed, after_persist, after_running,
  after_status, run_locked_job_state,
}
use Prim.Native.String
use woms.Worker.Endings.{
  done-injective, some-injective, some≢none, mark_retry-SetsJobs, mark_failed-SetsJobs,
  mark_completed-SetsJobs, mark_running-done,
}

-- A run either is not committed, or cannot be, or its answer and its rows are as said.
abbrev pub Reached : (Option WorkError → Map JobRow → Type 0) → Ran → Type 0
Reached P ran = (ran.2 ≡ false) ⊎ ((ran.0.aborted ≡ true) ⊎ P ran.1 ran.0.tables.schedule_jobs)

-- The rows that an action sets, from known ones.
sets-IsWritten :
    (change : Map JobRow → Map JobRow) (action : Action Done) (rows : Map JobRow) (tx : Transaction)
    → SetsJobs change action
    → tx.tables.schedule_jobs ≡ rows
    → IsWritten (change rows) (action tx).0 (action tx).1
sets-IsWritten change action rows tx setting known =
    subst (λ (m : Map JobRow). IsWritten (change m) (action tx).0 (action tx).1) known
      (setting.sets tx)

IsWritten-Reached :
    (P : Option WorkError → Map JobRow → Type 0) (next : Map JobRow) (answer : Option WorkError)
    (tx : Transaction) (o : Outcome Done)
    → IsWritten next tx o
    → P answer next
    → Reached P (tx, answer, true)
IsWritten-Reached P next answer tx o (inl dead) ending = inr (inl dead.1)
IsWritten-Reached P next answer tx o (inr set) ending = inr (inr (rw set ending))

-- The run of a queued row, for what holds of each way in which it ends.
module _ (env : WorkerEnv) (job : ScheduleJob) (max_retries : ℕ) (rows : Map JobRow) (row : JobRow)
    (P : Option WorkError → Map JobRow → Type 0)
    (again_holds : (e : WorkError) (text : String)
      → suc row.attempt_count < max_retries
      → P (some e) (update_row job.id (queued_row env.now text) (running_rows env.now job.id rows)))
    (ended_holds : (status : JobStatus) (text : String)
      → job_status_eq status JobStatus.queued ≡ false
      → P none (
          update_row job.id
            (ended_row env.now status text)
            (running_rows env.now job.id rows))) where
  abbrev ran_rows : Map JobRow
  ran_rows = running_rows env.now job.id rows

  abbrev failed_text : WorkError → String
  failed_text e = String.◌++◌ "排程任務失敗：" (message_of e)

  below :
      (attempt : ℕ) (e : WorkError)
      → not (is_stale e) && ltb attempt max_retries ≡ true
      → attempt ≡ suc row.attempt_count
      → suc row.attempt_count < max_retries
  below attempt e again counted = ground (arith, again, counted)

  after_completed-Reached :
      (tx : Transaction) (o : Outcome Done)
      → IsWritten
          (update_row job.id (ended_row env.now JobStatus.completed "排程任務已完成。") ran_rows)
          tx
          o
      → Reached P (after_completed (sql_locked_job_store env) job max_retries tx o)
  unfolding after_completed
  after_completed-Reached tx (failed e) set = inl refl
  after_completed-Reached tx (done ran) set =
      IsWritten-Reached P _ none tx (done ran) set (ended_holds JobStatus.completed _ refl)

  after_persist-Reached :
      (attempt : ℕ) (tx : Transaction) (o : Outcome Done)
      → tx.tables.schedule_jobs ≡ ran_rows
      → attempt ≡ suc row.attempt_count
      → Reached P (after_persist (sql_locked_job_store env) job max_retries attempt tx o)
  unfolding after_persist
  after_persist-Reached attempt tx (done ran) ran_so counted = after_completed-Reached _ _ (
      sets-IsWritten _ (mark_completed env.now job) ran_rows tx
        (mark_completed-SetsJobs env.now job) ran_so)
  after_persist-Reached attempt tx (failed e) ran_so counted =
      elim (Bool-cases (not (is_stale e) && ltb attempt max_retries)) [
        | inl again ↦
            let action = mark_retry_after_run env.now job.id "排程任務暫時失敗，等待重試。" in
            rw (again, after_persist)
              (IsWritten-Reached P _ (some e) (action tx).0 (action tx).1
                (sets-IsWritten _ action ran_rows tx (mark_retry-SetsJobs env.now job.id _) ran_so)
                (again_holds e _ (below attempt e again counted)))
        | inr over ↦
            let action = mark_failed_after_run env.now job.id (failed_text e) (message_of e) in
            rw (over, after_persist)
              (IsWritten-Reached P _ none (action tx).0 (action tx).1
                (sets-IsWritten _ action ran_rows tx (mark_failed-SetsJobs env.now job.id _ _)
                  ran_so)
                (ended_holds JobStatus.failed _ refl))
      ]

  after_running-Reached :
      (tx : Transaction) (o : Outcome ℕ)
      → ((attempt : ℕ)
          → o ≡ done attempt
          → (tx.tables.schedule_jobs ≡ ran_rows) × (attempt ≡ suc row.attempt_count))
      → Reached P (after_running (sql_locked_job_store env) job max_retries tx o)
  unfolding after_running
  after_running-Reached tx (failed e) marked = inl refl
  after_running-Reached tx (done attempt) marked =
      let (ran_so, counted) = marked attempt refl in
      after_persist-Reached attempt (persist env job tx).0 (persist env job tx).1
        ((persist-Persists env job).jobs tx ∙ ran_so) counted

abbrev pub IsStep : ℕ → String → Map JobRow → Option WorkError → Map JobRow → Type 0
IsStep max_retries read before answer after =
    Step max_retries (ticket (lookup read before)) answer (ticket (lookup read after))

module _ (env : WorkerEnv) (job : ScheduleJob) (max_retries : ℕ) (read : String) where
  -- The status is that of the row; a job that is not queued does not run.
  after_status-Reached :
      (tx : Transaction) (o : Outcome (Option JobStatus))
      → ((status : Option JobStatus)
          → o ≡ done status
          → status ≡ status_of (lookup job.id tx.tables.schedule_jobs))
      → Reached
          (IsStep max_retries read tx.tables.schedule_jobs)
          (after_status (sql_locked_job_store env) job max_retries tx o)
  unfolding after_status
  after_status-Reached tx (failed e) shown = inl refl
  after_status-Reached tx (done none) shown = inr (inr (Step.stay refl))
  after_status-Reached tx (done (some status)) shown =
      elim (Option-cases (lookup job.id tx.tables.schedule_jobs)) [
        | inl missing ↦ absurd (some≢none (shown (some status) refl ∙ ap status_of missing))
        | inr (row, found) ↦
            let same : status ≡ row.job.status =
              some-injective (shown (some status) refl ∙ ap status_of found) in
            elim (Bool-cases (job_status_eq status JobStatus.queued)) [
              | inl queued ↦
                  let is_so : is_queued row ≡ true =
                    subst (λ (s : JobStatus). job_status_eq s JobStatus.queued ≡ true) same
                      queued in
                  rw (queued, after_status)
                    (after_running-Reached env job max_retries tx.tables.schedule_jobs row
                      (IsStep max_retries read tx.tables.schedule_jobs)
                      (λ e text.
                        retry-Step env.now job.id read tx.tables.schedule_jobs max_retries row text
                          e found is_so)
                      (λ status text.
                        settle-Step env.now job.id read tx.tables.schedule_jobs max_retries row
                          status text found is_so)
                      (mark_running env.now job.id tx).0 (mark_running env.now job.id tx).1
                      (λ attempt h. mark_running-done env.now job.id tx row attempt found h))
              | inr other ↦ rw (other, after_status) (inr (inr (Step.stay refl)))
            ]
      ]

  pub run_locked_job_state-Reached :
      (tx : Transaction)
      → Reached
          (IsStep max_retries read tx.tables.schedule_jobs)
          (run_locked_job_state (sql_locked_job_store env) job max_retries tx)
  unfolding run_locked_job_state job_status
  run_locked_job_state-Reached tx =
      let same =
        (query-Reads (λ (t : Tables). done (status_of (lookup job.id t.schedule_jobs)))).same tx in
      subst
        (λ (t : Tables).
          Reached (IsStep max_retries read t.schedule_jobs)
            (run_locked_job_state (sql_locked_job_store env) job max_retries tx))
        same
        (after_status-Reached (job_status job.id tx).0 (job_status job.id tx).1 (λ status h.
          subst (λ (t : Tables). status ≡ status_of (lookup job.id t.schedule_jobs)) (sym same)
            (sym (done-injective (query-done _ tx status h)))))

-- The run of a queued job, for what holds of each way in which it ends.
pub run_own-Reached :
    (env : WorkerEnv) (job : ScheduleJob) (max_retries : ℕ) (row : JobRow)
    (P : Option WorkError → Map JobRow → Type 0) (tx : Transaction)
    → ((e : WorkError) (text : String)
        → suc row.attempt_count < max_retries
        → P (some e) (
            update_row job.id
              (queued_row env.now text)
              (running_rows env.now job.id tx.tables.schedule_jobs)))
    → ((status : JobStatus) (text : String)
        → job_status_eq status JobStatus.queued ≡ false
        → P none (
            update_row job.id
              (ended_row env.now status text)
              (running_rows env.now job.id tx.tables.schedule_jobs)))
    → lookup job.id tx.tables.schedule_jobs ≡ some row
    → is_queued row ≡ true
    → (o : Outcome (Option JobStatus)) → o ≡ done (some row.job.status)
    → Reached P (after_status (sql_locked_job_store env) job max_retries tx o)
unfolding after_status
run_own-Reached env job max_retries row P tx again ended found queued o is_own =
    rw (is_own, queued, after_status)
      (after_running-Reached env job max_retries tx.tables.schedule_jobs row P again ended
        (mark_running env.now job.id tx).0 (mark_running env.now job.id tx).1
        (λ attempt h. mark_running-done env.now job.id tx row attempt found h))
