-- ===== src/Worker/Refinement.antt =====
-- The worker's transactions against what a client sees of a job.
use woms.Base.{ℕ, Bool, true, false, ◌≡◌, inl, inr, refl, List, [], ◌∷◌, Option, none, some, String}
use woms.Base.Maps.{lookup}
use woms.Domain.{ScheduleJob}
use woms.Worker.Database.{Tables, WorkError, Transaction}
use woms.Worker.Ticket.{Ticket, ticket, Step}
use woms.Worker.Steps.{IsStep, Reached, run_locked_job_state-Reached}
use woms.Worker.JobRun.{
  WorkerEnv, Connection, commit, commit_with, commit_if, or_run_error, finish_tx, in_tx, begin_tx,
  opened, process_db_job_locked,
}

abbrev pub shown : String → Tables → Ticket
shown id t = ticket (lookup id t.schedule_jobs)

abbrev Leaves : ℕ → String → Tables → Connection × Option WorkError → Type 0
Leaves max_retries read before out =
    Step max_retries (shown read before) out.1 (shown read out.0.tables)

commit_with-Leaves :
    (max_retries : ℕ) (read : String) (before after : Tables) (faults : List (Option String))
    (answer : Option WorkError)
    → Step max_retries (shown read before) answer (shown read after)
    → Leaves max_retries read before (or_run_error answer (commit_with before after faults))
commit_with-Leaves max_retries read before after [] answer step = step
commit_with-Leaves max_retries read before after (none ∷ faults) answer step = step
commit_with-Leaves max_retries read before after (some text ∷ faults) answer step = Step.stay refl

commit_if-Leaves :
    (max_retries : ℕ) (read : String) (before : Tables) (tx : Transaction)
    (answer : Option WorkError) (aborted : Bool)
    → tx.aborted ≡ aborted
    → Reached (IsStep max_retries read before.schedule_jobs) (tx, answer, true)
    → Leaves max_retries read before (or_run_error answer (commit_if aborted before tx))
commit_if-Leaves max_retries read before tx answer true dead reached = Step.stay refl
commit_if-Leaves max_retries read before tx answer false live (inl bad) = cc
commit_if-Leaves max_retries read before tx answer false live (inr (inl bad)) = cc
commit_if-Leaves max_retries read before tx answer false live (inr (inr step)) =
    commit_with-Leaves max_retries read before tx.tables tx.faults answer step

finish_tx-Leaves :
    (max_retries : ℕ) (read : String) (before : Tables) (tx : Transaction)
    (answer : Option WorkError) (should_commit : Bool)
    → Reached (IsStep max_retries read before.schedule_jobs) (tx, answer, should_commit)
    → Leaves max_retries read before (finish_tx before (tx, answer, should_commit))
unfolding finish_tx commit
finish_tx-Leaves max_retries read before tx answer false reached = Step.stay refl
finish_tx-Leaves max_retries read before tx answer true reached =
    commit_if-Leaves max_retries read before tx answer tx.aborted refl reached

in_tx-Leaves :
    (env : WorkerEnv) (job : ScheduleJob) (max_retries : ℕ) (read : String) (before : Tables)
    (faults : List (Option String))
    → let begun = begin_tx before faults in
      Leaves max_retries read before (in_tx env job max_retries before begun.0 begun.1)
in_tx-Leaves env job max_retries read before [] =
    finish_tx-Leaves max_retries read before _ _ _
      (run_locked_job_state-Reached env job max_retries read (opened before []))
in_tx-Leaves env job max_retries read before (none ∷ faults) =
    finish_tx-Leaves max_retries read before _ _ _
      (run_locked_job_state-Reached env job max_retries read (opened before faults))
in_tx-Leaves env job max_retries read before (some text ∷ faults) = Step.stay refl

-- Whatever faults there are, a transaction of the worker takes what a client sees of any job by at most
-- one step: a job that waits is put back with its error, its runs counted and still below the bound,
-- or it is settled without an error; nothing else changes what is seen.
pub process_db_job_locked-Step :
    (env : WorkerEnv) (job : ScheduleJob) (max_retries : ℕ) (read : String) (c : Connection)
    → let ran = process_db_job_locked env job max_retries c in
      Step max_retries (shown read c.tables) ran.1 (shown read ran.0.tables)
unfolding process_db_job_locked
process_db_job_locked-Step env job max_retries read c =
    in_tx-Leaves env job max_retries read c.tables c.faults
