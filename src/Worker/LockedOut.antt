-- ===== src/Worker/LockedOut.antt =====
-- A delivery of a job whose line is locked by another worker.
use woms.Base.{ℕ, suc, ◌≤◌, length, ◌≡◌, some, String, if◌then◌else◌}
use woms.Clock.{Time}
use woms.Lock.Protocol.{Bytes}
use woms.Lock.Provider.{not_acquired, Provider}
use woms.Lock.Redis.{Server, Redis}
use woms.Worker.Database.{JobRow, Tables}
use woms.Worker.JobStore.{queued_row, is_queued_row}
use woms.Worker.Refinement.{shown}

-- A row that waits is put back as one that waits as long.
requeued_row : Time → String → JobRow → JobRow
unfolding queued_row
requeued_row now text row = if is_queued_row row then queued_row now text row else row

-- Nothing but messages and times of jobs changes.
abbrev pub IsIdle : Tables → Tables → Type 0
IsIdle before after =
    (after ≡ record before { schedule_jobs = after.schedule_jobs })
    × ((read : String) → shown read after ≡ shown read before)

-- The provider refuses the line as often as the bound says, for locks that live so long.
pub record Refuses {ℓ} {L : Type ℓ} (provider : Provider L) (key : String) (ttl : ℕ)
    (IsHeld : ℕ → L → Type 0) : Type ℓ where
  pub refuses :
      (left : ℕ) (locks : L)
      → IsHeld (suc left) locks
      → ((provider.acquire key ttl locks).1 ≡ not_acquired)
        × IsHeld left (provider.acquire key ttl locks).0

-- Another worker holds the key, and there are as many random values as attempts.
abbrev pub IsTaken {ℓ} : {R : Type ℓ} → Server R → Bytes → Bytes → ℕ → Redis R → Type 0
IsTaken server key val left redis =
    (server.value_at key redis.server ≡ some val) × (left ≤ length redis.randoms)
