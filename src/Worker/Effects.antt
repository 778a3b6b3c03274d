-- ===== src/Worker/Effects.antt =====
-- What the actions of a transaction may do, with a rule for each way in which they are composed.
use woms.Base.{
  Bool, true, false, ◌≡◌, ◌⊎◌, inl, inr, refl, ap, ◌∙◌, List, [], ◌∷◌, arith, if◌then◌else◌,
}
use woms.Worker.Database.{
  Tables, WorkError, failure, Outcome, done, failed, Transaction, Action, Done, ◌>>=◌, continue,
  pure, fail, statement, query, exec, each, with_faults,
}

-- No fault lies ahead, and none has happened.
abbrev pub IsHealthy : Transaction → Type 0
IsHealthy tx = (tx.aborted ≡ false) × (tx.faults ≡ [])

pub Outcome-cases {ℓ} :
    {A : Type ℓ} (o : Outcome A) → ((a : A) × (o ≡ done a)) ⊎ ((e : WorkError) × (o ≡ failed e))
Outcome-cases (done a) = inl (a, refl)
Outcome-cases (failed e) = inr (e, refl)

pub statement-dead {ℓ} :
    {A : Type ℓ} (run : Action A) (tx : Transaction)
    → tx.aborted ≡ true
    → statement run tx ≡ (tx, failed (failure "pq: current transaction is aborted"))
unfolding statement
statement-dead run tx h =
    ap
      (λ (b : Bool).
        if b
        then (tx, failed (failure "pq: current transaction is aborted"))
        else with_faults tx.faults run tx)
      h

pub statement-live {ℓ} :
    {A : Type ℓ} (run : Action A) (tx : Transaction)
    → tx.aborted ≡ false
    → statement run tx ≡ with_faults tx.faults run tx
unfolding statement
statement-live run tx h =
    ap
      (λ (b : Bool).
        if b
        then (tx, failed (failure "pq: current transaction is aborted"))
        else with_faults tx.faults run tx)
      h

-- The tables stay as they are.
pub record Reads {ℓ} {A : Type ℓ} (action : Action A) : Type ℓ where
  pub same : (tx : Transaction) → (action tx).0.tables ≡ tx.tables
  pub healthy : (tx : Transaction) → IsHealthy tx → IsHealthy (action tx).0

-- The jobs stay as they are, and only a fault makes the action fail.
pub record Writes {ℓ} {A : Type ℓ} (action : Action A) : Type ℓ where
  pub jobs : (tx : Transaction) → (action tx).0.tables.schedule_jobs ≡ tx.tables.schedule_jobs
  pub healthy : (tx : Transaction) → IsHealthy tx → IsHealthy (action tx).0
  pub aborts :
      (tx : Transaction) (e : WorkError) → (action tx).1 ≡ failed e → (action tx).0.aborted ≡ true

-- The jobs stay as they are, and a failure without a fault leaves every table as it was.
pub record Persists {ℓ} {A : Type ℓ} (action : Action A) : Type ℓ where
  pub jobs : (tx : Transaction) → (action tx).0.tables.schedule_jobs ≡ tx.tables.schedule_jobs
  pub healthy : (tx : Transaction) → IsHealthy tx → IsHealthy (action tx).0
  pub clean :
      (tx : Transaction) (e : WorkError)
      → (action tx).1 ≡ failed e
      → (action tx).0.aborted ≡ false
      → (action tx).0.tables ≡ tx.tables

module _ {ℓ} {A : Type ℓ} where
  pub pure-Reads : (value : A) → Reads (pure value)
  pure-Reads value = record { same = λ tx. refl; healthy = λ tx h. h }

  pub fail-Reads : (e : WorkError) → Reads (fail {A = A} e)
  fail-Reads e = record { same = λ tx. refl; healthy = λ tx h. h }

  query_same :
      (answer : Tables → Outcome A) (tx : Transaction) → (query answer tx).0.tables ≡ tx.tables
  unfolding query statement
  query_same answer tx = ground arith

  query-IsHealthy :
      (answer : Tables → Outcome A) (tx : Transaction)
      → IsHealthy tx
      → IsHealthy (query answer tx).0
  unfolding query statement
  query-IsHealthy answer tx h = ground arith

  pub query-Reads : (answer : Tables → Outcome A) → Reads (query answer)
  query-Reads answer = record { same = query_same answer; healthy = query-IsHealthy answer }

abbrev pub LeavesJobs : (Tables → Tables) → Type 0
LeavesJobs change = (t : Tables) → (change t).schedule_jobs ≡ t.schedule_jobs

exec_jobs :
    (change : Tables → Tables)
    → LeavesJobs change
    → (tx : Transaction) → (exec change tx).0.tables.schedule_jobs ≡ tx.tables.schedule_jobs
unfolding exec statement
exec_jobs change h tx = ground (arith, h tx.tables)

pub exec-IsHealthy :
    (change : Tables → Tables) (tx : Transaction) → IsHealthy tx → IsHealthy (exec change tx).0
unfolding exec statement
exec-IsHealthy change tx h = ground arith

pub exec_aborts :
    (change : Tables → Tables) (tx : Transaction) (e : WorkError)
    → (exec change tx).1 ≡ failed e
    → (exec change tx).0.aborted ≡ true
unfolding exec statement
exec_aborts change tx e h = ground arith

pub exec-Writes : (change : Tables → Tables) → LeavesJobs change → Writes (exec change)
exec-Writes change h = record {
  jobs = exec_jobs change h;
  healthy = exec-IsHealthy change;
  aborts = exec_aborts change;
}

pub pure-Writes {ℓ} : {A : Type ℓ} (value : A) → Writes (pure value)
pure-Writes value = record { jobs = λ tx. refl; healthy = λ tx h. h; aborts = λ tx e h. cc }

module _ {ℓ κ} {A : Type ℓ} {B : Type κ} (next : A → Action B) where
  continue_same :
      ((a : A) → Reads (next a))
      → (tx : Transaction) (o : Outcome A) → (continue next tx o).0.tables ≡ tx.tables
  continue_same h tx (done a) = (h a).same tx
  continue_same h tx (failed e) = refl

  continue-IsHealthy :
      ((a : A) (tx : Transaction) → IsHealthy tx → IsHealthy (next a tx).0)
      → (tx : Transaction) (o : Outcome A) → IsHealthy tx
      → IsHealthy (continue next tx o).0
  continue-IsHealthy h tx (done a) k = h a tx k
  continue-IsHealthy h tx (failed e) k = k

  continue_jobs :
      ((a : A) (tx : Transaction) → (next a tx).0.tables.schedule_jobs ≡ tx.tables.schedule_jobs)
      → (tx : Transaction) (o : Outcome A)
      → (continue next tx o).0.tables.schedule_jobs ≡ tx.tables.schedule_jobs
  continue_jobs h tx (done a) = h a tx
  continue_jobs h tx (failed e) = refl

  -- A failure of the whole is one of the second part, or one of the first.
  continue_aborts :
      ((a : A) → Writes (next a))
      → (tx : Transaction) (o : Outcome A) → ((e : WorkError) → o ≡ failed e → tx.aborted ≡ true)
      → (e : WorkError) → (continue next tx o).1 ≡ failed e
      → (continue next tx o).0.aborted ≡ true
  continue_aborts h tx (done a) first e k = (h a).aborts tx e k
  continue_aborts h tx (failed e) first e' k = first e refl

  continue_clean :
      ((a : A) → Persists (next a))
      → (tx : Transaction) (o : Outcome A) (e : WorkError) → (continue next tx o).1 ≡ failed e
      → (continue next tx o).0.aborted ≡ false
      → (continue next tx o).0.tables ≡ tx.tables
  continue_clean h tx (done a) e k live = (h a).clean tx e k live
  continue_clean h tx (failed e) e' k live = refl

module _ {ℓ κ} {A : Type ℓ} {B : Type κ} {first : Action A} {next : A → Action B} where
  pub bind-Reads : Reads first → ((a : A) → Reads (next a)) → Reads (first >>= next)
  bind-Reads f h = record {
    same = λ tx. continue_same next h (first tx).0 (first tx).1 ∙ f.same tx;
    healthy = λ tx k.
        continue-IsHealthy next (λ a. (h a).healthy) (first tx).0 (first tx).1 (f.healthy tx k);
  }

  pub bind-Writes : Writes first → ((a : A) → Writes (next a)) → Writes (first >>= next)
  bind-Writes f h = record {
    jobs = λ tx. continue_jobs next (λ a. (h a).jobs) (first tx).0 (first tx).1 ∙ f.jobs tx;
    healthy = λ tx k.
        continue-IsHealthy next (λ a. (h a).healthy) (first tx).0 (first tx).1 (f.healthy tx k);
    aborts = λ tx. continue_aborts next h (first tx).0 (first tx).1 (f.aborts tx);
  }

  -- Reading before persisting.
  pub bind-Persists : Reads first → ((a : A) → Persists (next a)) → Persists (first >>= next)
  bind-Persists f h = record {
    jobs = λ tx.
        continue_jobs next (λ a. (h a).jobs) (first tx).0 (first tx).1
        ∙ ap (λ (t : Tables). t.schedule_jobs) (f.same tx);
    healthy = λ tx k.
        continue-IsHealthy next (λ a. (h a).healthy) (first tx).0 (first tx).1 (f.healthy tx k);
    clean = λ tx e k live. continue_clean next h (first tx).0 (first tx).1 e k live ∙ f.same tx;
  }

pub Writes-Persists {ℓ} : {A : Type ℓ} {action : Action A} → Writes action → Persists action
Writes-Persists {action} w = record {
  jobs = w.jobs;
  healthy = w.healthy;
  clean = λ tx e k live. let dead : (action tx).0.aborted ≡ true = w.aborts tx e k in cc;
}

pub Reads-Persists {ℓ} : {A : Type ℓ} {action : Action A} → Reads action → Persists action
Reads-Persists r = record {
  jobs = λ tx. ap (λ (t : Tables). t.schedule_jobs) (r.same tx);
  healthy = r.healthy;
  clean = λ tx e k live. r.same tx;
}

pub each-Writes {ℓ} :
    {A : Type ℓ} (body : A → Action Done) (xs : List A)
    → ((x : A) → Writes (body x))
    → Writes (each body xs)
unfolding each
each-Writes body [] h = pure-Writes tt
each-Writes body (x ∷ xs) h = bind-Writes (h x) (λ ran. each-Writes body xs h)

pub if-Writes {ℓ} :
    {A : Type ℓ} (test : Bool) {yes_part no_part : Action A}
    → Writes yes_part
    → Writes no_part
    → Writes (if test then yes_part else no_part)
if-Writes true y n = y
if-Writes false y n = n

pub if-Reads {ℓ} :
    {A : Type ℓ} (test : Bool) {yes_part no_part : Action A}
    → Reads yes_part
    → Reads no_part
    → Reads (if test then yes_part else no_part)
if-Reads true y n = y
if-Reads false y n = n

-- An action that only a fault makes fail.
pub record Sure {ℓ} {A : Type ℓ} (action : Action A) : Type ℓ where
  pub healthy : (tx : Transaction) → IsHealthy tx → IsHealthy (action tx).0
  pub aborts :
      (tx : Transaction) (e : WorkError) → (action tx).1 ≡ failed e → (action tx).0.aborted ≡ true

pub Writes-Sure {ℓ} : {A : Type ℓ} {action : Action A} → Writes action → Sure action
Writes-Sure w = record { healthy = w.healthy; aborts = w.aborts }

pub exec-Sure : (change : Tables → Tables) → Sure (exec change)
exec-Sure change = record { healthy = exec-IsHealthy change; aborts = exec_aborts change }

module _ {ℓ κ} {A : Type ℓ} {B : Type κ} {first : Action A} {next : A → Action B} where
  pub bind-Sure : Sure first → ((a : A) → Writes (next a)) → Sure (first >>= next)
  bind-Sure f h = record {
    healthy = λ tx k.
        continue-IsHealthy next (λ a. (h a).healthy) (first tx).0 (first tx).1 (f.healthy tx k);
    aborts = λ tx. continue_aborts next h (first tx).0 (first tx).1 (f.aborts tx);
  }

-- Without a fault it succeeds.
pub Sure-done {ℓ} :
    {A : Type ℓ} {action : Action A}
    → Sure action
    → (tx : Transaction) → IsHealthy tx
    → (a : A) × ((action tx).1 ≡ done a)
Sure-done {action} sure tx h = elim (Outcome-cases (action tx).1) [
  | inl good ↦ good
  | inr (e, bad) ↦
      let dead : (action tx).0.aborted ≡ true = sure.aborts tx e bad in
      let live : (action tx).0.aborted ≡ false = (sure.healthy tx h).0 in cc
]
