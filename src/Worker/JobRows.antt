-- ===== src/Worker/JobRows.antt =====
-- The statements that change the rows of `schedule_jobs`.
use woms.Base.{
  true, ◌≡◌, ◌⊎◌, inl, inr, refl, ◌∙◌, List, [], ◌∷◌, Option, none, some, String, Bool-cases, sym,
}
use woms.Base.Maps.{Map}
use woms.Worker.Database.{
  JobRow, Tables, WorkError, Outcome, done, failed, Transaction, Action, Done, ◌>>=◌, continue,
  query, exec, exec_returning, with_faults,
}
use woms.Worker.Effects.{Writes, statement-dead, statement-live}

-- The rows of the jobs become those of `change`, or a fault makes the action fail.
abbrev pub IsWritten : {A : Type 0} → Map JobRow → Transaction → Outcome A → Type 0
IsWritten rows tx o =
    (((e : WorkError) × (o ≡ failed e)) × (tx.aborted ≡ true)) ⊎ (tx.tables.schedule_jobs ≡ rows)

pub record SetsJobs (change : Map JobRow → Map JobRow) (action : Action Done) : Type 0 where
  pub sets :
      (tx : Transaction) → IsWritten (change tx.tables.schedule_jobs) (action tx).0 (action tx).1

pub failed≢done {ℓ} : {A : Type ℓ} {e : WorkError} {a : A} → failed e ≡ done a → ⊥
failed≢done h = cc

abbrev setting : (Map JobRow → Map JobRow) → Tables → Tables
setting change t = record t { schedule_jobs = change t.schedule_jobs }

abbrev setting_jobs : (Map JobRow → Map JobRow) → Action Done
setting_jobs change t = (record t { tables = setting change t.tables }, done tt)

with_faults-IsWritten :
    (change : Map JobRow → Map JobRow) (faults : List (Option String)) (tx : Transaction)
    → let ran =
        with_faults faults
          (λ (t : Transaction). (record t { tables = setting change t.tables }, done tt))
          tx in
      IsWritten (change tx.tables.schedule_jobs) ran.0 ran.1
with_faults-IsWritten change [] tx = inr refl
with_faults-IsWritten change (none ∷ faults) tx = inr refl
with_faults-IsWritten change (some text ∷ faults) tx = inl ((_, refl), refl)

exec-IsWritten :
    (change : Map JobRow → Map JobRow) (tx : Transaction)
    → let ran = exec (setting change) tx in IsWritten (change tx.tables.schedule_jobs) ran.0 ran.1
unfolding exec
exec-IsWritten change tx = elim (Bool-cases tx.aborted) [
  | inl dead ↦ rw (statement-dead (setting_jobs change) tx dead) (inl ((_, refl), dead))
  | inr live ↦
      rw (statement-live (setting_jobs change) tx live) (with_faults-IsWritten change tx.faults tx)
]

pub exec-SetsJobs :
    (change : Map JobRow → Map JobRow)
    → SetsJobs change (exec (λ (t : Tables). record t { schedule_jobs = change t.schedule_jobs }))
exec-SetsJobs change = record { sets = exec-IsWritten change }

continue-IsWritten :
    (next : Done → Action Done) (rows : Map JobRow)
    → ((a : Done) → Writes (next a))
    → (tx : Transaction) (o : Outcome Done) → IsWritten rows tx o
    → IsWritten rows (continue next tx o).0 (continue next tx o).1
continue-IsWritten next rows h tx (done a) (inl ((e, bad), dead)) = absurd (failed≢done (sym bad))
continue-IsWritten next rows h tx (done a) (inr set) = inr ((h a).jobs tx ∙ set)
continue-IsWritten next rows h tx (failed e) (inl dead) = inl dead
continue-IsWritten next rows h tx (failed e) (inr set) = inr set

pub bind-SetsJobs :
    (change : Map JobRow → Map JobRow) {first : Action Done} {next : Done → Action Done}
    → SetsJobs change first
    → ((a : Done) → Writes (next a))
    → SetsJobs change (first >>= next)
bind-SetsJobs change {first} {next} f h = record {
  sets = λ tx.
      continue-IsWritten next (change tx.tables.schedule_jobs) h (first tx).0 (first tx).1
        (f.sets tx);
}

abbrev returning {ℓ} : {A : Type ℓ} → (Tables → Tables) → (Tables → Outcome A) → Action A
returning change answer t = (record t { tables = change t.tables }, answer (change t.tables))

with_faults-returns {ℓ} :
    {A : Type ℓ} (change : Tables → Tables) (answer : Tables → Outcome A)
    (faults : List (Option String)) (tx : Transaction) (a : A)
    → (with_faults faults (returning change answer) tx).1 ≡ done a
    → ((with_faults faults (returning change answer) tx).0.tables ≡ change tx.tables)
      × (answer (change tx.tables) ≡ done a)
with_faults-returns change answer [] tx a h = (refl, h)
with_faults-returns change answer (none ∷ faults) tx a h = (refl, h)
with_faults-returns change answer (some text ∷ faults) tx a h = cc

-- A statement that returns a row has made its change.
pub exec_returning-done {ℓ} :
    {A : Type ℓ} (change : Tables → Tables) (answer : Tables → Outcome A) (tx : Transaction) (a : A)
    → (exec_returning change answer tx).1 ≡ done a
    → ((exec_returning change answer tx).0.tables ≡ change tx.tables)
      × (answer (change tx.tables) ≡ done a)
unfolding exec_returning
exec_returning-done change answer tx a h = elim (Bool-cases tx.aborted) [
  | inl dead ↦ absurd (failed≢done (rw (statement-dead (returning change answer) tx dead) at h))
  | inr live ↦ rw (statement-live (returning change answer) tx live) (
      with_faults-returns change answer tx.faults tx a
        (rw (statement-live (returning change answer) tx live) at h))
]

with_faults-answers {ℓ} :
    {A : Type ℓ} (answer : Tables → Outcome A) (faults : List (Option String)) (tx : Transaction)
    (a : A)
    → (with_faults faults (λ (t : Transaction). (t, answer t.tables)) tx).1 ≡ done a
    → answer tx.tables ≡ done a
with_faults-answers answer [] tx a h = h
with_faults-answers answer (none ∷ faults) tx a h = h
with_faults-answers answer (some text ∷ faults) tx a h = cc

-- A query that returns has read the tables.
pub query-done {ℓ} :
    {A : Type ℓ} (answer : Tables → Outcome A) (tx : Transaction) (a : A)
    → (query answer tx).1 ≡ done a
    → answer tx.tables ≡ done a
unfolding query
query-done answer tx a h = elim (Bool-cases tx.aborted) [
  | inl dead ↦
      absurd
        (failed≢done (rw (statement-dead (λ (t : Transaction). (t, answer t.tables)) tx dead) at h))
  | inr live ↦
      with_faults-answers answer tx.faults tx a
        (rw (statement-live (λ (t : Transaction). (t, answer t.tables)) tx live) at h)
]
