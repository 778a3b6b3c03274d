-- ===== src/Api/State.antt =====
-- `MemoryStore` of internal/api/server.go and the helpers that every operation uses. Its mutex is
-- held for a whole operation, so an operation is a function on the state.
use woms.Base.{ℕ, suc, List, [], ◌∷◌, ◌++◌, Option, none, some, String, str_eq, if◌then◌else◌}
use woms.Base.Maps.{Map, lookup, insert}
use woms.Base.Results.{Result, ok, err, or_fail, ◌>>=◌}
use woms.Base.Text.{trim_space, itoa, itoa_padded}
use woms.Auth.Passwords.{Crypto}
use woms.Clock.{Time, truncate_date}
use woms.Domain.{User, ProductionLine, Order, ScheduleAllocation, ScheduleJob, AuditEntry}
use woms.Api.Requests.{ScheduleRequest, PreviewRecord}
use Prim.Native.String

-- What the operations take from outside: the clock, read once by an operation; the time zones of the
-- system (`none` for a name that `time.LoadLocation` refuses, else the wall clock of an instant); the
-- cryptography of passwords; the digest of a request.
pub record Env : Type 0 where
  pub now : Time
  pub load_location : String → Option (Time → Time)
  pub crypto : Crypto
  pub request_hash : ScheduleRequest → String

pub record MemoryStore : Type 0 where
  pub next_order_id : ℕ
  pub next_job_id : ℕ
  pub next_audit_id : ℕ
  pub next_preview_id : ℕ
  pub lines : Map ProductionLine
  pub users : Map User
  pub orders : Map Order
  pub jobs : Map ScheduleJob
  pub job_requests : Map ScheduleRequest
  pub allocations : List ScheduleAllocation
  pub previews : Map PreviewRecord
  pub audits : List AuditEntry
  -- The lines that are locked.
  pub line_locks : List String

-- `if err != nil { return err }` before anything is written, and the writes.
abbrev pub committing {ℓ κ} :
    {A : Type ℓ} {B : Type κ}
    → MemoryStore
    → Result A
    → (A → MemoryStore × B)
    → MemoryStore × Result B
committing s (err e) write = (s, err e)
committing s (ok a) write = let out = write a in (out.0, ok (out.1))

unfoldable pub bump_line_revision_locked : String → MemoryStore → MemoryStore
bump_line_revision_locked line_id s = elim (lookup line_id s.lines) [
  | none ↦ s
  | some line ↦ record s {
    lines = insert line_id (record line { schedule_revision = suc line.schedule_revision }) s.lines;
  }
]

unfoldable pub audit_locked : Env → String → String → String → String → MemoryStore → MemoryStore
audit_locked env actor_id action resource reason s = record s {
  next_audit_id = suc s.next_audit_id;
  audits =
      s.audits
      ++ record {
        id = String.◌++◌ "AUD-" (itoa s.next_audit_id);
        actor_id = actor_id;
        action = action;
        resource = resource;
        reason = reason;
        created_at = env.now;
      }
        ∷ [];
}

-- `s.orders[order.ID] = order`
abbrev pub put_order : Order → MemoryStore → MemoryStore
put_order order s = record s { orders = insert order.id order s.orders }

unfoldable pub order_id_from_sequence : ℕ → String
unfolding itoa_padded
order_id_from_sequence seq = String.◌++◌ "ORD-" (itoa_padded 7 seq)

unfoldable pub current_date_in_line_timezone : Env → ProductionLine → Result Time
unfolding trim_space
current_date_in_line_timezone env line =
    let trimmed : String = trim_space line.timezone in
    elim (env.load_location (if str_eq trimmed "" then "Asia/Taipei" else trimmed)) [
      | none ↦ err "production line timezone is invalid"
      | some wall ↦ ok (truncate_date (wall env.now))
    ]

unfoldable pub current_date_for_line_locked : Env → String → MemoryStore → Result Time
unfolding current_date_in_line_timezone
current_date_for_line_locked env line_id s = do
  line ← or_fail (lookup line_id s.lines) "production line does not exist"
  current_date_in_line_timezone env line
