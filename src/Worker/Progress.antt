-- ===== src/Worker/Progress.antt =====
-- Deliveries of jobs, each with the faults of its connection, and what they come to.
use woms.Base.{
  ℕ, suc, ◌+◌, ◌≤◌, ◌<◌, Bool, true, false, ◌≡◌, ◌⊎◌, inl, inr, refl, sym, ap, ◌∙◌, List, [], ◌∷◌,
  Option, none, some, String, arith, if◌then◌else◌, Bool-cases, str_eq, eq_iff, ◌&&◌, is_empty,
}
use woms.Base.Maps.{Map, lookup}
use woms.Domain.{ScheduleJob, JobStatus, job_status_eq}
use woms.Worker.Database.{
  JobRow, Tables, WorkError, done, Transaction, update_row, query, statement,
}
use woms.Worker.JobStore.{job_status, status_of, running_row, queued_row, ended_row}
use woms.Worker.Ticket.{Ticket, waiting, settled, ticket, is_queued, Step, running_rows, lookup-ran}
use woms.Worker.Steps.{Reached, run_own-Reached}
use woms.Worker.Healthy.{IsCommitted, run-IsCommitted}
use woms.Worker.Refinement.{shown, process_db_job_locked-Step}
use woms.Worker.JobRun.{
  WorkerEnv, connected, opened, commit, commit_if, commit_with, or_run_error, finish_tx,
  run_locked_job_state, process_db_job_locked,
}

-- A job whose message comes, and the faults of the statements that run for it.
pub record Delivery : Type 0 where
  pub job : ScheduleJob
  pub faults : List (Option String)

unfoldable pub serve : WorkerEnv → ℕ → List Delivery → Tables → Tables
unfolding process_db_job_locked
serve env max_retries [] t = t
serve env max_retries (delivery ∷ deliveries) t =
    serve env max_retries deliveries
      (process_db_job_locked env delivery.job max_retries (connected t delivery.faults)).0.tables

-- How often a job is delivered without a fault.
unfoldable pub good_deliveries : String → List Delivery → ℕ
good_deliveries id [] = 0
good_deliveries id (delivery ∷ deliveries) =
    (if str_eq delivery.job.id id && is_empty delivery.faults then 1 else 0)
    + good_deliveries id deliveries

-- What a run without faults makes of a job that waits after `runs` runs.
abbrev IsProgress : ℕ → ℕ → Ticket → Type 0
IsProgress max_retries runs after =
    ((after ≡ waiting (suc runs)) × (suc runs < max_retries)) ⊎ (after ≡ settled)

true≢false : true ≡ false → ⊥
true≢false h = cc

-- The commit of a transaction without faults.
commit_healthy :
    (before : Tables) (tx : Transaction) (answer : Option WorkError)
    → tx.aborted ≡ false
    → tx.faults ≡ []
    → or_run_error answer (commit_if tx.aborted before tx) ≡ (connected tx.tables [], answer)
commit_healthy before tx answer live no_faults =
    ap (λ (b : Bool). or_run_error answer (commit_if b before tx)) live
    ∙ ap
        (λ (faults : List (Option String)).
          or_run_error answer (commit_with before tx.tables faults))
        no_faults

module _ (env : WorkerEnv) (job : ScheduleJob) (max_retries : ℕ) (row : JobRow) (t : Tables)
    (found : lookup job.id t.schedule_jobs ≡ some row) (queued : is_queued row ≡ true) where
  abbrev Ends : Option WorkError → Map JobRow → Type 0
  Ends answer rows = IsProgress max_retries row.attempt_count (ticket (lookup job.id rows))

  again_holds :
      (e : WorkError) (text : String)
      → suc row.attempt_count < max_retries
      → Ends (some e) (
          update_row job.id (queued_row env.now text) (running_rows env.now job.id t.schedule_jobs))
  unfolding running_row queued_row
  again_holds e text below =
      rw
        (lookup-ran env.now job.id job.id t.schedule_jobs (queued_row env.now text) row found
          ((eq_iff job.id job.id).1 refl))
        (inl (refl, below))

  ended_holds :
      (status : JobStatus) (text : String)
      → job_status_eq status JobStatus.queued ≡ false
      → Ends none (
          update_row job.id
            (ended_row env.now status text)
            (running_rows env.now job.id t.schedule_jobs))
  unfolding running_row ended_row
  ended_holds status text ends =
      rw
        (
          lookup-ran env.now job.id job.id t.schedule_jobs (ended_row env.now status text) row found
              ((eq_iff job.id job.id).1 refl),
          ends,
        )
        (inr refl)

  -- A run that is committed shows what holds of its rows.
  committed_ends :
      (tx : Transaction) (answer : Option WorkError) (should_commit : Bool)
      → IsCommitted (tx, answer, should_commit)
      → Reached Ends (tx, answer, should_commit)
      → IsProgress max_retries row.attempt_count
          (shown job.id (finish_tx t (tx, answer, should_commit)).0.tables)
  unfolding finish_tx commit
  committed_ends tx answer false committed reached = cc
  committed_ends tx answer true committed (inl bad) = cc
  committed_ends tx answer true committed (inr (inl bad)) =
      absurd (true≢false (sym bad ∙ committed.1.0))
  committed_ends tx answer true committed (inr (inr ends)) =
      rw (commit_healthy t tx answer committed.1.0 committed.1.1) ends

  progress :
      IsProgress max_retries row.attempt_count
        (shown job.id (process_db_job_locked env job max_retries (connected t [])).0.tables)
  unfolding process_db_job_locked run_locked_job_state job_status query statement
  progress =
      committed_ends _ _ _
        (run-IsCommitted env job max_retries (opened t []) row found queued (refl, refl))
        (run_own-Reached env job max_retries row Ends (opened t []) again_holds ended_holds found
          queued (done (status_of (lookup job.id t.schedule_jobs)))
          (ap (λ (o : Option JobRow). done (status_of o)) found))

waiting-row :
    (o : Option JobRow) (runs : ℕ)
    → ticket o ≡ waiting runs
    → (row : JobRow) × (o ≡ some row) × (is_queued row ≡ true) × (row.attempt_count ≡ runs)
waiting-row none runs h = cc
waiting-row (some row) runs h = elim (Bool-cases (is_queued row)) [
  | inl queued ↦ (row, refl, queued, ground (arith, h, queued))
  | inr other ↦ ground (arith, h, other)
]

-- A delivery without a fault of a job that waits.
good-IsProgress :
    (env : WorkerEnv) (job : ScheduleJob) (max_retries : ℕ) (id : String) (runs : ℕ) (t : Tables)
    (faults : List (Option String))
    → str_eq job.id id && is_empty faults ≡ true
    → shown id t ≡ waiting runs
    → IsProgress max_retries runs
        (shown id (process_db_job_locked env job max_retries (connected t faults)).0.tables)
good-IsProgress env job max_retries id runs t (fault ∷ faults) good waits = ground (arith, good)
good-IsProgress env job max_retries id runs t [] good waits =
    let same : job.id ≡ id = (eq_iff job.id id).0 (ground (arith, good)) in
    let (row, found, queued, counted) =
      waiting-row (lookup job.id t.schedule_jobs) runs (rw same waits) in
    rw (sym same, sym counted) (progress env job max_retries row t found queued)

-- What a delivery can make of a job: it stays as it is, is counted, or is settled.
abbrev IsNext : ℕ → Ticket → Ticket → Type 0
IsNext max_retries before after =
    (after ≡ before)
    ⊎ (((runs : ℕ) × (before ≡ waiting runs)
          × (after ≡ waiting (suc runs))
          × (suc runs < max_retries))
        ⊎ (after ≡ settled))

Step-IsNext :
    {max_retries : ℕ} {before after : Ticket} {answer : Option WorkError}
    → Step max_retries before answer after
    → IsNext max_retries before after
Step-IsNext (Step.stay same) = inl same
Step-IsNext (Step.retry runs e was below answered now) = inr (inl (runs, was, now, below))
Step-IsNext (Step.settle runs was answered now) = inr (inr now)

waiting-injective : {m n : ℕ} → waiting m ≡ waiting n → m ≡ n
waiting-injective h = cc

settled-stays :
    (max_retries : ℕ) (before after : Ticket)
    → IsNext max_retries before after
    → before ≡ settled
    → after ≡ settled
settled-stays max_retries before after (inl same) h = same ∙ h
settled-stays max_retries before after (inr (inl (runs, was, now, below))) h = cc
settled-stays max_retries before after (inr (inr now)) h = now

-- A job that waits, after any delivery.
waits-next :
    (max_retries runs : ℕ) (before after : Ticket)
    → IsNext max_retries before after
    → before ≡ waiting runs
    → (after ≡ waiting runs) ⊎ ((after ≡ waiting (suc runs)) ⊎ (after ≡ settled))
waits-next max_retries runs before after (inl same) h = inl (same ∙ h)
waits-next max_retries runs before after (inr (inl (k, was, now, below))) h =
    let same : k ≡ runs = waiting-injective (sym was ∙ h) in
    inr (inl (now ∙ ap (λ (m : ℕ). waiting (suc m)) same))
waits-next max_retries runs before after (inr (inr now)) h = inr (inr now)

module _ (env : WorkerEnv) (max_retries : ℕ) (id : String) where
  abbrev next_tables : Delivery → Tables → Tables
  next_tables d t = (process_db_job_locked env d.job max_retries (connected t d.faults)).0.tables

  delivery-IsNext :
      (d : Delivery) (t : Tables) → IsNext max_retries (shown id t) (shown id (next_tables d t))
  delivery-IsNext d t =
      Step-IsNext (process_db_job_locked-Step env d.job max_retries id (connected t d.faults))

  -- What is settled stays settled.
  serve-settled :
      (deliveries : List Delivery) (t : Tables)
      → shown id t ≡ settled
      → shown id (serve env max_retries deliveries t) ≡ settled
  unfolding serve
  serve-settled [] t h = h
  serve-settled (d ∷ deliveries) t h =
      serve-settled deliveries (next_tables d t)
        (settled-stays max_retries _ _ (delivery-IsNext d t) h)

  -- A job that waits is settled once it has been delivered without a fault as often as its runs are
  -- short of the bound, and at least once, whatever is delivered in between and with whatever faults.
  pub serve-settles :
      (deliveries : List Delivery) (runs : ℕ) (t : Tables)
      → shown id t ≡ waiting runs
      → max_retries ≤ runs + good_deliveries id deliveries
      → 1 ≤ good_deliveries id deliveries
      → shown id (serve env max_retries deliveries t) ≡ settled
  unfolding serve good_deliveries
  serve-settles [] runs t waits enough some_good = absurd (omega (arith, some_good))
  serve-settles (d ∷ deliveries) runs t waits enough some_good =
      elim (Bool-cases (str_eq d.job.id id && is_empty d.faults)) [
        | inl good ↦ elim (good-IsProgress env d.job max_retries id runs t d.faults good waits) [
          | inl (now, below) ↦
              serve-settles deliveries (suc runs) (next_tables d t) now
                (ground (arith, enough, good)) (ground (arith, enough, good, below))
          | inr now ↦ serve-settled deliveries (next_tables d t) now
        ]
        | inr bad ↦ elim (waits-next max_retries runs _ _ (delivery-IsNext d t) waits) [
          | inl now ↦
              serve-settles deliveries runs (next_tables d t) now (ground (arith, enough, bad))
                (ground (arith, some_good, bad))
          | inr (inl now) ↦
              serve-settles deliveries (suc runs) (next_tables d t) now
                (ground (arith, enough, bad)) (ground (arith, some_good, bad))
          | inr (inr now) ↦ serve-settled deliveries (next_tables d t) now
        ]
      ]
