-- ===== src/Api/Requests.antt =====
-- The request and response types of internal/api/server.go, and `Claims` of internal/auth/jwt.go.
-- A JSON number may be negative, so quantities and counts of requests are integers.
use woms.Base.{ℕ, Bool, List, Option, String}
use woms.Base.Int.{ℤ}
use woms.Clock.{Time}
use woms.Domain.{Role, Priority, Order}
use woms.Scheduler.Types.{Allocation, Conflict}

pub record Claims : Type 0 where
  pub subject : String
  pub role : Role
  pub line_id : String
  pub expires : ℕ

pub record CreateOrderRequest : Type 0 where
  pub customer : String
  pub line_id : String
  pub quantity : ℤ
  pub priority : Priority
  pub due_date : String
  pub note : String

pub record CancelOrdersRequest : Type 0 where
  pub order_ids : List String

pub record CancelOrdersResponse : Type 0 where
  pub cancelled_order_ids : List String
  pub skipped_order_ids : List String

pub record UpdateOrderRequest : Type 0 where
  pub due_date : String
  pub quantity : ℤ
  pub note : String

pub record RejectOrdersRequest : Type 0 where
  pub order_ids : List String
  pub reason : String

pub record ResubmitOrderRequest : Type 0 where
  pub order_id : String
  pub due_date : String
  pub quantity : ℤ
  pub note : String

pub record AssignUserRequest : Type 0 where
  pub username : String
  pub role : Role
  pub line_id : String

pub record CreateUserRequest : Type 0 where
  pub username : String
  pub password : String
  pub role : Role
  pub line_id : String

pub record ResetUserPasswordRequest : Type 0 where
  pub username : String
  pub password : String

pub record ConfirmPreviewRequest : Type 0 where
  pub preview_id : String
  pub deferred_order_ids : List String
  pub defer_draft : Bool

pub record ScheduleRequest : Type 0 where
  pub line_id : String
  pub start_date : String
  pub current_date : String
  pub order_ids : List String
  pub resolution_order_ids : List String
  pub manual_force : Bool
  pub allow_late_completion : Bool
  pub reason : String
  pub preview_id : String
  pub draft_order : Option CreateOrderRequest

pub record PreviewRecord : Type 0 where
  pub actor_id : String
  pub actor_role : Role
  pub line_id : String
  pub line_revision : ℕ
  pub request : ScheduleRequest
  pub request_hash : String
  pub draft_order : Option CreateOrderRequest
  pub allocations : List Allocation
  pub conflicts : List Conflict
  pub created_at : Time

pub record ProductionConfirmRequest : Type 0 where
  pub order_id : String
  pub production_date : String
  pub produced_quantity : ℤ

pub record ProductionStartRequest : Type 0 where
  pub order_id : String

pub record ProductionConfirmResponse : Type 0 where
  pub order : Order
  pub remainder : Option Order
