-- ===== src/Domain.antt =====
-- The data types of internal/domain/types.go. Roles, priorities and statuses are Go strings there;
-- here they are the constants with a constructor for what else a request or a zero value can hold.
use woms.Base.{ℕ, ◌≡◌, ◌↔◌, Bool, true, false, List, [], String, arith, str_eq}
use woms.Clock.{Time, zero_time}

pub data Role : Type 0 where
  admin sales scheduler : Role
  other_role : String → Role

-- `unset` is the empty string.
pub data Priority : Type 0 where
  low high unset_priority : Priority
  other_priority : String → Priority

pub data OrderStatus : Type 0 where
  pending scheduled in_progress completed rejected cancelled unset : OrderStatus

pub data JobStatus : Type 0 where
  queued running completed failed cancelled unset : JobStatus

abbrev pub is_admin : Role → Bool
is_admin admin = true
is_admin _ = false

abbrev pub is_sales : Role → Bool
is_sales sales = true
is_sales _ = false

abbrev pub is_scheduler : Role → Bool
is_scheduler scheduler = true
is_scheduler _ = false

abbrev pub role_eq : Role → Role → Bool
role_eq admin admin = true
role_eq sales sales = true
role_eq scheduler scheduler = true
role_eq (other_role s) (other_role t) = str_eq s t
role_eq _ _ = false

abbrev pub role_text : Role → String
role_text admin = "admin"
role_text sales = "sales"
role_text scheduler = "scheduler"
role_text (other_role s) = s

abbrev pub is_high : Priority → Bool
is_high high = true
is_high _ = false

abbrev pub is_low : Priority → Bool
is_low low = true
is_low _ = false

abbrev pub priority_eq : Priority → Priority → Bool
priority_eq low low = true
priority_eq high high = true
priority_eq unset_priority unset_priority = true
priority_eq (other_priority s) (other_priority t) = str_eq s t
priority_eq _ _ = false

abbrev pub status_eq : OrderStatus → OrderStatus → Bool
status_eq OrderStatus.pending OrderStatus.pending = true
status_eq OrderStatus.scheduled OrderStatus.scheduled = true
status_eq OrderStatus.in_progress OrderStatus.in_progress = true
status_eq OrderStatus.completed OrderStatus.completed = true
status_eq OrderStatus.rejected OrderStatus.rejected = true
status_eq OrderStatus.cancelled OrderStatus.cancelled = true
status_eq OrderStatus.unset OrderStatus.unset = true
status_eq _ _ = false

abbrev pub job_status_eq : JobStatus → JobStatus → Bool
job_status_eq JobStatus.queued JobStatus.queued = true
job_status_eq JobStatus.running JobStatus.running = true
job_status_eq JobStatus.completed JobStatus.completed = true
job_status_eq JobStatus.failed JobStatus.failed = true
job_status_eq JobStatus.cancelled JobStatus.cancelled = true
job_status_eq JobStatus.unset JobStatus.unset = true
job_status_eq _ _ = false

pub status_eq_iff : (a b : OrderStatus) → (status_eq a b ≡ true) ↔ (a ≡ b)
status_eq_iff a b = ground arith

pub record User : Type 0 where
  pub id : String
  pub username : String
  pub password_hash : String
  pub role : Role
  pub line_id : String
  pub disabled : Bool
  pub deleted : Bool

pub record ProductionLine : Type 0 where
  pub id : String
  pub name : String
  pub capacity_per_day : ℕ
  pub timezone : String
  pub schedule_revision : ℕ

pub record Order : Type 0 where
  pub id : String
  pub customer : String
  pub line_id : String
  pub quantity : ℕ
  pub priority : Priority
  pub status : OrderStatus
  pub due_date : Time
  pub note : String
  pub created_by : String
  pub source_order : String
  pub rejection_reason : String
  pub rejected_by : String
  pub rejected_at : Time
  pub created_at : Time
  pub updated_at : Time

-- The zero `Order` and `ScheduleJob`: what Go reads of a map that misses the key.
abbrev pub zero_order : Order
zero_order = record {
  id = "";
  customer = "";
  line_id = "";
  quantity = 0;
  priority = unset_priority;
  status = OrderStatus.unset;
  due_date = zero_time;
  note = "";
  created_by = "";
  source_order = "";
  rejection_reason = "";
  rejected_by = "";
  rejected_at = zero_time;
  created_at = zero_time;
  updated_at = zero_time;
}

pub record ScheduleAllocation : Type 0 where
  pub order_id : String
  pub line_id : String
  pub date : Time
  pub quantity : ℕ
  pub priority : Priority
  pub locked : Bool
  pub status : OrderStatus

pub record ScheduleJob : Type 0 where
  pub id : String
  pub line_id : String
  pub status : JobStatus
  pub message : String
  pub source : String
  pub preview_id : String
  pub request_hash : String
  pub line_revision : ℕ
  pub order_ids : List String
  pub started_at : Time
  pub completed_at : Time
  pub created_at : Time
  pub updated_at : Time

abbrev pub zero_job : ScheduleJob
zero_job = record {
  id = "";
  line_id = "";
  status = JobStatus.unset;
  message = "";
  source = "";
  preview_id = "";
  request_hash = "";
  line_revision = 0;
  order_ids = [];
  started_at = zero_time;
  completed_at = zero_time;
  created_at = zero_time;
  updated_at = zero_time;
}

pub record AuditEntry : Type 0 where
  pub id : String
  pub actor_id : String
  pub action : String
  pub resource : String
  pub reason : String
  pub created_at : Time
