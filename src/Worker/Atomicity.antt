-- ===== src/Worker/Atomicity.antt =====
-- What the tables other than `schedule_jobs` hold after a transaction of the worker that returns an
-- error.
use woms.Base.{
  ℕ, Bool, true, false, ◌≡◌, ◌⊎◌, inl, inr, refl, ap, subst, ◌∙◌, List, [], ◌∷◌, Option, none, some,
  String, Bool-cases, ltb, not, ◌&&◌,
}
use woms.Base.Maps.{lookup}
use woms.Clock.{Time}
use woms.Domain.{ScheduleJob, JobStatus, job_status_eq}
use woms.Worker.Database.{
  Tables, WorkError, is_stale, Outcome, done, failed, Transaction, Done, exec, exec_returning,
  with_faults,
}
use woms.Worker.JobStore.{job_status, attempt_of, mark_running, mark_retry_after_run}
use woms.Worker.Effects.{query-Reads, statement-dead, statement-live}
use woms.Worker.Persisting.{persist-Persists}
use woms.Worker.JobRun.{
  WorkerEnv, Connection, sql_locked_job_store, persist, Ran, after_completed, after_persist,
  after_running, after_status, run_locked_job_state, commit, commit_if, commit_with, or_run_error,
  finish_tx, in_tx, begin_tx, opened, process_db_job_locked,
}

-- Everything but the jobs.
abbrev data_of : Tables → Tables
data_of t = record t { schedule_jobs = [] }

with_faults-data_of {ℓ} :
    {A : Type ℓ} (change : Tables → Tables) (answer : Tables → Outcome A)
    (faults : List (Option String)) (tx : Transaction)
    → ((t : Tables) → data_of (change t) ≡ data_of t)
    → data_of
        (with_faults faults
          (λ (t : Transaction). (record t { tables = change t.tables }, answer (change t.tables)))
          tx).0.tables
      ≡ data_of tx.tables
with_faults-data_of change answer [] tx h = h tx.tables
with_faults-data_of change answer (none ∷ faults) tx h = h tx.tables
with_faults-data_of change answer (some text ∷ faults) tx h = refl

statement-data_of {ℓ} :
    {A : Type ℓ} (change : Tables → Tables) (answer : Tables → Outcome A) (tx : Transaction)
    → ((t : Tables) → data_of (change t) ≡ data_of t)
    → data_of (exec_returning change answer tx).0.tables ≡ data_of tx.tables
unfolding exec_returning
statement-data_of change answer tx h = elim (Bool-cases tx.aborted) [
  | inl dead ↦ rw (statement-dead _ tx dead) refl
  | inr live ↦ rw (statement-live _ tx live) (with_faults-data_of change answer tx.faults tx h)
]

-- `exec` is a statement that returns nothing.
exec-data_of :
    (change : Tables → Tables) (tx : Transaction)
    → ((t : Tables) → data_of (change t) ≡ data_of t)
    → data_of (exec change tx).0.tables ≡ data_of tx.tables
unfolding exec exec_returning
exec-data_of change tx h = statement-data_of change (λ t. done tt) tx h

exec_aborted :
    (change : Tables → Tables) (tx : Transaction)
    → tx.aborted ≡ true
    → (exec change tx).0.aborted ≡ true
unfolding exec
exec_aborted change tx dead = rw (statement-dead _ tx dead) dead

mark_retry-data_of :
    (now : Time) (id text : String) (tx : Transaction)
    → data_of (mark_retry_after_run now id text tx).0.tables ≡ data_of tx.tables
unfolding mark_retry_after_run
mark_retry-data_of now id text tx = exec-data_of _ tx (λ t. refl)

mark_retry-aborted :
    (now : Time) (id text : String) (tx : Transaction)
    → tx.aborted ≡ true
    → (mark_retry_after_run now id text tx).0.aborted ≡ true
unfolding mark_retry_after_run
mark_retry-aborted now id text tx dead = exec_aborted _ tx dead

mark_running-data_of :
    (now : Time) (id : String) (tx : Transaction)
    → data_of (mark_running now id tx).0.tables ≡ data_of tx.tables
unfolding mark_running
mark_running-data_of now id tx =
    statement-data_of _ (λ (t : Tables). attempt_of (lookup id t.schedule_jobs)) tx (λ t. refl)

-- A run is not committed, cannot be, returns no error, or leaves the data as it was.
abbrev Keeps : Tables → Ran → Type 0
Keeps before ran =
    (ran.2 ≡ false)
    ⊎ ((ran.0.aborted ≡ true) ⊎ ((ran.1 ≡ none) ⊎ (data_of ran.0.tables ≡ data_of before)))

module _ (env : WorkerEnv) (job : ScheduleJob) (max_retries : ℕ) (before : Tables) where
  after_completed-Keeps :
      (tx : Transaction) (o : Outcome Done)
      → Keeps before (after_completed (sql_locked_job_store env) job max_retries tx o)
  unfolding after_completed
  after_completed-Keeps tx (failed e) = inl refl
  after_completed-Keeps tx (done ran) = inr (inr (inl refl))

  after_persist-Keeps :
      (attempt : ℕ) (tx : Transaction) (o : Outcome Done)
      → ((e : WorkError) → o ≡ failed e → tx.aborted ≡ false → data_of tx.tables ≡ data_of before)
      → Keeps before (after_persist (sql_locked_job_store env) job max_retries attempt tx o)
  unfolding after_persist
  after_persist-Keeps attempt tx (done ran) clean = after_completed-Keeps _ _
  after_persist-Keeps attempt tx (failed e) clean =
      elim (Bool-cases (not (is_stale e) && ltb attempt max_retries)) [
        | inl again ↦
            rw (again, after_persist)
              (elim (Bool-cases tx.aborted) [
                | inl dead ↦ inr (inl (mark_retry-aborted env.now job.id _ tx dead))
                | inr live ↦
                    inr (inr (inr (mark_retry-data_of env.now job.id _ tx ∙ clean e refl live)))
              ])
        | inr over ↦ rw (over, after_persist) (inr (inr (inl refl)))
      ]

  after_running-Keeps :
      (tx : Transaction) (o : Outcome ℕ)
      → data_of tx.tables ≡ data_of before
      → Keeps before (after_running (sql_locked_job_store env) job max_retries tx o)
  unfolding after_running
  after_running-Keeps tx (failed e) same = inl refl
  after_running-Keeps tx (done attempt) same =
      after_persist-Keeps attempt (persist env job tx).0 (persist env job tx).1
        (λ e bad live. ap data_of ((persist-Persists env job).clean tx e bad live) ∙ same)

  after_status-Keeps :
      (tx : Transaction) (o : Outcome (Option JobStatus))
      → data_of tx.tables ≡ data_of before
      → Keeps before (after_status (sql_locked_job_store env) job max_retries tx o)
  unfolding after_status
  after_status-Keeps tx (failed e) same = inl refl
  after_status-Keeps tx (done none) same = inr (inr (inl refl))
  after_status-Keeps tx (done (some status)) same =
      elim (Bool-cases (job_status_eq status JobStatus.queued)) [
        | inl queued ↦
            rw (queued, after_status)
              (after_running-Keeps (mark_running env.now job.id tx).0
                (mark_running env.now job.id tx).1 (mark_running-data_of env.now job.id tx ∙ same))
        | inr other ↦ rw (other, after_status) (inr (inr (inl refl)))
      ]

  run-Keeps :
      (tx : Transaction)
      → tx.tables ≡ before
      → Keeps before (run_locked_job_state (sql_locked_job_store env) job max_retries tx)
  unfolding run_locked_job_state job_status
  run-Keeps tx same = after_status-Keeps _ _ (ap data_of ((query-Reads _).same tx ∙ same))

-- What the connection and the answer say.
abbrev Restores : Tables → Connection × Option WorkError → Type 0
Restores before out = (out.1 ≡ none) ⊎ (data_of out.0.tables ≡ data_of before)

commit_with-Restores :
    (before after : Tables) (faults : List (Option String)) (answer : Option WorkError)
    → (answer ≡ none) ⊎ (data_of after ≡ data_of before)
    → Restores before (or_run_error answer (commit_with before after faults))
commit_with-Restores before after [] answer h = h
commit_with-Restores before after (none ∷ faults) answer h = h
commit_with-Restores before after (some text ∷ faults) answer h = inr refl

commit_if-Restores :
    (before : Tables) (tx : Transaction) (answer : Option WorkError) (aborted : Bool)
    → tx.aborted ≡ aborted
    → Keeps before (tx, answer, true)
    → Restores before (or_run_error answer (commit_if aborted before tx))
commit_if-Restores before tx answer true dead kept = inr refl
commit_if-Restores before tx answer false live (inl bad) = cc
commit_if-Restores before tx answer false live (inr (inl bad)) = cc
commit_if-Restores before tx answer false live (inr (inr kept)) =
    commit_with-Restores before tx.tables tx.faults answer kept

finish_tx-Restores :
    (before : Tables) (tx : Transaction) (answer : Option WorkError) (should_commit : Bool)
    → Keeps before (tx, answer, should_commit)
    → Restores before (finish_tx before (tx, answer, should_commit))
unfolding finish_tx commit
finish_tx-Restores before tx answer false kept = inr refl
finish_tx-Restores before tx answer true kept =
    commit_if-Restores before tx answer tx.aborted refl kept

in_tx-Restores :
    (env : WorkerEnv) (job : ScheduleJob) (max_retries : ℕ) (before : Tables)
    (faults : List (Option String))
    → let begun = begin_tx before faults in
      Restores before (in_tx env job max_retries before begun.0 begun.1)
in_tx-Restores env job max_retries before [] =
    finish_tx-Restores before _ _ _ (run-Keeps env job max_retries before (opened before []) refl)
in_tx-Restores env job max_retries before (none ∷ faults) =
    finish_tx-Restores before _ _ _
      (run-Keeps env job max_retries before (opened before faults) refl)
in_tx-Restores env job max_retries before (some text ∷ faults) = inr refl

-- A transaction of the worker that returns an error has changed no table but that of the jobs: no
-- order, allocation, line, preview or audit entry is written in part.
pub process_db_job_locked_atomic :
    (env : WorkerEnv) (job : ScheduleJob) (max_retries : ℕ) (c after : Connection) (e : WorkError)
    → process_db_job_locked env job max_retries c ≡ (after, some e)
    → after.tables ≡ record c.tables { schedule_jobs = after.tables.schedule_jobs }
unfolding process_db_job_locked
process_db_job_locked_atomic env job max_retries c after e h =
    let restored : Restores c.tables (after, some e) =
      subst (λ (out : Connection × Option WorkError). Restores c.tables out) h
        (in_tx-Restores env job max_retries c.tables c.faults) in
    elim restored [
      | inl bad ↦ cc
      | inr same ↦ ap (λ (t : Tables). record t { schedule_jobs = after.tables.schedule_jobs }) same
    ]
