-- ===== src/Scheduler/Types.antt =====
-- The data types of internal/scheduler/scheduler.go. Quantities are those of stored or validated
-- orders, so they are natural numbers, and sums of them do not reach 2^63.
use woms.Base.{ℕ, Bool, List, String, ◌==◌, ◌||◌, not, str_eq}
use woms.Base.Results.{Result, refuse_if}
use woms.Clock.{Time, is_zero}
use woms.Domain.{Priority, OrderStatus}

pub record OrderInput : Type 0 where
  pub id : String
  pub customer : String
  pub line_id : String
  pub quantity : ℕ
  pub priority : Priority
  pub status : OrderStatus
  pub due_date : Time
  pub created_at_timestamp : ℕ

pub record ExistingAllocation : Type 0 where
  pub order_id : String
  pub line_id : String
  pub date : Time
  pub quantity : ℕ
  pub priority : Priority
  pub locked : Bool

pub record Allocation : Type 0 where
  pub order_id : String
  pub source_order_id : String
  pub customer : String
  pub line_id : String
  pub date : Time
  pub quantity : ℕ
  pub priority : Priority
  pub status : OrderStatus
  pub locked : Bool
  pub due_date : Time
  pub created_at_timestamp : ℕ

pub record Conflict : Type 0 where
  pub order_id : String
  pub reason : String
  pub earliest_finish_date : Time
  pub affected_order_ids : List String

pub record Request : Type 0 where
  pub line_id : String
  pub capacity_per_day : ℕ
  pub start_date : Time
  pub current_date : Time
  pub orders : List OrderInput
  pub existing_allocations : List ExistingAllocation
  pub manual_force : Bool
  pub force_reason : String
  pub allow_late_completion : Bool

-- `Result` of the source.
pub record PlanResult : Type 0 where
  pub allocations : List Allocation
  pub conflicts : List Conflict
  pub finish_date : Time

abbrev pub invalid_request : String
invalid_request = "invalid schedule request"

unfoldable pub validate_request : Request → Result (Unit {0})
unfolding is_zero
validate_request req =
    refuse_if (str_eq req.line_id "" || req.capacity_per_day == 0 || is_zero req.start_date)
      invalid_request

unfoldable pub validate_order : String → OrderInput → Result (Unit {0})
unfolding is_zero
validate_order line_id order =
    refuse_if
      (str_eq order.id ""
        || not (str_eq order.line_id line_id)
        || order.quantity == 0
        || is_zero order.due_date)
      invalid_request
