-- ===== src/Worker/Ticket.antt =====
-- What a client of the worker sees of a job: whether it waits, and after how many runs. The worker's
-- transactions are steps of this view.
use woms.Base.{
  ℕ, suc, ◌<◌, ◌≡◌, inl, inr, refl, sym, Bool, true, false, Option, none, some, String, arith,
  if◌then◌else◌, str_eq, eq_iff, Bool-cases, Option-cases,
}
use woms.Base.Maps.{Map, lookup, lookup-insert}
use woms.Clock.{Time}
use woms.Domain.{JobStatus, job_status_eq}
use woms.Worker.Database.{JobRow, WorkError, update_row}
use woms.Worker.JobStore.{running_row, queued_row, ended_row}

pub data Ticket : Type 0 where
  absent : Ticket
  waiting : ℕ → Ticket
  settled : Ticket

abbrev pub is_queued : JobRow → Bool
is_queued row = job_status_eq row.job.status JobStatus.queued

abbrev pub ticket : Option JobRow → Ticket
ticket none = absent
ticket (some row) = if is_queued row then waiting row.attempt_count else settled

-- A step for a bound on the runs, with the error that is returned.
pub data Step (max_retries : ℕ) (before : Ticket) : Option WorkError → Ticket → Type 0 where
  stay :
      {answer : Option WorkError} {after : Ticket}
      → after ≡ before
      → Step max_retries before answer after
  retry :
      {answer : Option WorkError} {after : Ticket} (runs : ℕ) (e : WorkError)
      → before ≡ waiting runs
      → suc runs < max_retries
      → answer ≡ some e
      → after ≡ waiting (suc runs)
      → Step max_retries before answer after
  settle :
      {answer : Option WorkError} {after : Ticket} (runs : ℕ)
      → before ≡ waiting runs
      → answer ≡ none
      → after ≡ settled
      → Step max_retries before answer after

abbrev pub changed {ℓ} : {V : Type ℓ} → (V → V) → Option V → Option V
changed change none = none
changed change (some row) = some (change row)

module _ {ℓ} {V : Type ℓ} where
  -- What a key holds after an update.
  pub lookup-update_row :
      (written read : String) (change : V → V) (rows : Map V)
      → lookup read (update_row written change rows)
        ≡ (if str_eq written read then changed change (lookup read rows) else lookup read rows)
  unfolding update_row
  lookup-update_row written read change rows = elim (Option-cases (lookup written rows)) [
    | inl missing ↦ ground (arith, missing, eq_iff written read)
    | inr (row, found) ↦
        ground (arith, found, eq_iff written read, lookup-insert written read (change row) rows)
  ]

abbrev pub running_rows : Time → String → Map JobRow → Map JobRow
running_rows now written rows = update_row written (running_row now) rows

-- The rows after a run of the job `written`: the run, and what ends it.
module _ (now : Time) (written read : String) (rows : Map JobRow) where
  -- Another job reads as before.
  lookup-other :
      (ending : JobRow → JobRow)
      → str_eq written read ≡ false
      → lookup read (update_row written ending (running_rows now written rows)) ≡ lookup read rows
  lookup-other ending other = rw (
    lookup-update_row written read ending (running_rows now written rows),
    lookup-update_row written read (running_row now) rows,
    other,
  )

  pub lookup-ran :
      (ending : JobRow → JobRow) (row : JobRow)
      → lookup written rows ≡ some row
      → str_eq written read ≡ true
      → lookup read (update_row written ending (running_rows now written rows))
        ≡ some (ending (running_row now row))
  lookup-ran ending row found same = rw (
    lookup-update_row written read ending (running_rows now written rows),
    lookup-update_row written read (running_row now) rows,
    same,
    sym ((eq_iff written read).0 same),
    found,
  )

  lookup-same :
      (row : JobRow)
      → lookup written rows ≡ some row
      → str_eq written read ≡ true
      → lookup read rows ≡ some row
  lookup-same row found same = rw (sym ((eq_iff written read).0 same)) found

  pub retry-Step :
      (max_retries : ℕ) (row : JobRow) (text : String) (e : WorkError)
      → lookup written rows ≡ some row
      → is_queued row ≡ true
      → suc row.attempt_count < max_retries
      → Step max_retries (ticket (lookup read rows)) (some e) (
          ticket (
            lookup read (update_row written (queued_row now text) (running_rows now written rows))))
  unfolding running_row queued_row
  retry-Step max_retries row text e found queued below = elim (Bool-cases (str_eq written read)) [
    | inl same ↦
        rw (lookup-ran (queued_row now text) row found same, lookup-same row found same)
          (Step.retry row.attempt_count e (rw queued refl) below refl refl)
    | inr other ↦ rw (lookup-other (queued_row now text) other) (Step.stay refl)
  ]

  pub settle-Step :
      (max_retries : ℕ) (row : JobRow) (status : JobStatus) (text : String)
      → lookup written rows ≡ some row
      → is_queued row ≡ true
      → job_status_eq status JobStatus.queued ≡ false
      → Step max_retries (ticket (lookup read rows)) none (
          ticket (
            lookup read
              (update_row written (ended_row now status text) (running_rows now written rows))))
  unfolding running_row ended_row
  settle-Step max_retries row status text found queued ends =
      elim (Bool-cases (str_eq written read)) [
        | inl same ↦
            rw
              (
                lookup-ran (ended_row now status text) row found same,
                lookup-same row found same,
                ends,
              )
              (Step.settle row.attempt_count (rw queued refl) refl refl)
        | inr other ↦ rw (lookup-other (ended_row now status text) other) (Step.stay refl)
      ]
