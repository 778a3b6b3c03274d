-- ===== src/Worker/Database.antt =====
-- The Postgres tables of db/migrations/001_init.sql, as far as cmd/scheduler-worker/main.go reads and
-- writes them, and what a transaction of database/sql does. A statement that the server refuses
-- (a lost connection, a cancelled context, a violated constraint) is a fault of the surroundings:
-- the list of a connection says which of the statements to come have one.
use woms.Base.{ℕ, Bool, true, false, List, [], ◌∷◌, Option, none, some, String, if◌then◌else◌}
use woms.Base.Maps.{Map, lookup, insert}
use woms.Clock.{Time}
use woms.Domain.{ProductionLine, Order, ScheduleAllocation, ScheduleJob, AuditEntry}

-- A row of `schedule_jobs`. NULL in a column of times is the zero time.
pub record JobRow : Type 0 where
  pub job : ScheduleJob
  pub attempt_count : ℕ

-- A row of `schedule_previews`; `allocations` is the text of its JSON column.
pub record PreviewRow : Type 0 where
  pub line_id : String
  pub line_revision : ℕ
  pub allocations : String
  pub expires_at : Time

pub record Tables : Type 0 where
  pub schedule_jobs : Map JobRow
  pub orders : Map Order
  pub production_lines : Map ProductionLine
  pub schedule_allocations : List ScheduleAllocation
  pub schedule_previews : Map PreviewRow
  pub audit_logs : List AuditEntry

-- `errStaleScheduleData`, and every other error by its message.
pub data WorkError : Type 0 where
  stale_schedule_data : WorkError
  failure : String → WorkError

pub data Outcome {ℓ} (A : Type ℓ) : Type ℓ where
  done : A → Outcome A
  failed : WorkError → Outcome A

-- `err.Error()`
abbrev pub message_of : WorkError → String
message_of stale_schedule_data = "排程資料已變更，請重新試排。"
message_of (failure message) = message

abbrev pub is_stale : WorkError → Bool
is_stale stale_schedule_data = true
is_stale (failure message) = false

pub record Transaction : Type 0 where
  pub tables : Tables
  pub aborted : Bool
  pub faults : List (Option String)

abbrev pub Action {ℓ} : Type ℓ → Type ℓ
Action A = Transaction → Transaction × Outcome A

abbrev pub Done : Type 0
Done = Unit {0}

module _ {ℓ κ} {A : Type ℓ} {B : Type κ} where
  -- What follows a part that has run.
  abbrev pub continue : (A → Action B) → Transaction → Outcome A → Transaction × Outcome B
  continue next tx (done value) = next value tx
  continue next tx (failed e) = (tx, failed e)

  infixl 5 ◌>>=◌
  abbrev pub ◌>>=◌ : Action A → (A → Action B) → Action B
  ◌>>=◌ first next tx = continue next (first tx).0 (first tx).1

module _ {κ} {B : Type κ} where
  infixl 5 ◌>>◌
  abbrev pub ◌>>◌ : Action Done → Action B → Action B
  first >> next = first >>= λ ran. next

module _ {ℓ} {A : Type ℓ} where
  abbrev pub pure : A → Action A
  pure value tx = (tx, done value)

  abbrev pub fail : WorkError → Action A
  fail e tx = (tx, failed e)

  -- A fault aborts the transaction.
  abbrev pub with_faults : List (Option String) → Action A → Action A
  with_faults [] run tx = run tx
  with_faults (none ∷ faults) run tx = run (record tx { faults = faults })
  with_faults (some message ∷ faults) run tx =
      (record tx { aborted = true; faults = faults }, failed (failure message))

  -- One statement: in an aborted transaction it is refused.
  unfoldable pub statement : Action A → Action A
  statement run tx =
      if tx.aborted
      then (tx, failed (failure "pq: current transaction is aborted"))
      else with_faults tx.faults run tx

  -- A query with its `Scan`.
  unfoldable pub query : (Tables → Outcome A) → Action A
  unfolding statement
  query answer = statement (λ (tx : Transaction). (tx, answer tx.tables))

-- `UPDATE … RETURNING …`: the change, and what its `Scan` reads afterwards.
unfoldable pub exec_returning {ℓ} :
    {A : Type ℓ} → (Tables → Tables) → (Tables → Outcome A) → Action A
unfolding statement
exec_returning change answer =
    statement
      (λ (tx : Transaction). (record tx { tables = change tx.tables }, answer (change tx.tables)))

-- `tx.ExecContext`
unfoldable pub exec : (Tables → Tables) → Action Done
unfolding statement
exec change = statement (λ (tx : Transaction). (record tx { tables = change tx.tables }, done tt))

-- A loop that stops at the first error.
unfoldable pub each {ℓ} : {A : Type ℓ} → (A → Action Done) → List A → Action Done
each body [] = pure tt
each body (x ∷ xs) = body x >> each body xs

-- `sql.ErrNoRows`
abbrev pub no_rows : WorkError
no_rows = failure "sql: no rows in result set"

abbrev pub row_or_no_rows {ℓ} : {A : Type ℓ} → Option A → Outcome A
row_or_no_rows none = failed no_rows
row_or_no_rows (some row) = done row

-- `UPDATE … WHERE id = …`
unfoldable pub update_row {ℓ} : {V : Type ℓ} → String → (V → V) → Map V → Map V
unfolding lookup insert
update_row id change rows = elim (lookup id rows) [
  | none ↦ rows
  | some row ↦ insert id (change row) rows
]
