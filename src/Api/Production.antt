-- ===== src/Api/Production.antt =====
-- `StartProduction` and `ConfirmProduction` of internal/api/server.go.
use woms.Base.{ℕ, suc, Bool, false, not, Option, none, some, String, str_eq, ltb, length}
use woms.Base.Int.{ℤ, pos, negsuc}
use woms.Base.Maps.{lookup, has}
use woms.Base.Results.{Result, ok, err, or_fail, refuse_if, ◌>>=◌, ◌>>◌}
use woms.Base.Text.{itoa}
use woms.Clock.{Time, parse_date}
use woms.Domain.{Order, OrderStatus, status_eq}
use woms.Scheduler.Confirm.{ConfirmationResult, confirm_production}
use woms.Scheduler.Plan.{out_of_fuel}
use woms.Api.Requests.{
  Claims, ProductionConfirmRequest, ProductionStartRequest, ProductionConfirmResponse,
}
use woms.Api.State.{
  Env, MemoryStore, committing, bump_line_revision_locked, audit_locked, put_order,
}
use woms.Api.Allocations.{
  has_allocation_locked, lock_allocations_locked, production_allocation_locked, is_open,
  complete_production_allocation_locked, replace_order_allocations_with_completed_locked,
}
use woms.Api.OrderIds.{next_remainder_order_id}
use Prim.Native.String

unfoldable pub validate_production_start_locked :
    ProductionStartRequest → Claims → MemoryStore → Result Order
unfolding has_allocation_locked
validate_production_start_locked req claims s = do
  order ← or_fail (lookup req.order_id s.orders) "order not found"
  refuse_if (not (str_eq order.line_id claims.line_id)) "cannot start another production line"
  refuse_if (not (status_eq order.status OrderStatus.scheduled))
      "only scheduled orders can start production"
  refuse_if (not (has_allocation_locked order.id s)) "scheduled order has no allocation"
  ok order

unfoldable pub start_production :
    Env → ProductionStartRequest → Claims → MemoryStore → MemoryStore × Result Order
unfolding validate_production_start_locked lock_allocations_locked bump_line_revision_locked
    audit_locked
start_production env req claims s =
    committing s (validate_production_start_locked req claims s) λ found.
      let order : Order = record found { status = OrderStatus.in_progress; updated_at = env.now } in
      (
        audit_locked env claims.subject "production.start" order.id "" (
            bump_line_revision_locked order.line_id
              (lock_allocations_locked order.id (put_order order s))),
        order,
      )

abbrev is_positive : ℤ → Bool
is_positive (pos n) = ltb 0 n
is_positive (negsuc n) = false

abbrev pub produced_number : ℤ → ℕ
produced_number (pos n) = n
produced_number (negsuc n) = 0

-- `time.Parse(dateLayout, req.ProductionDate)`
abbrev production_day : ProductionConfirmRequest → Result Time
production_day req = or_fail (parse_date req.production_date) "productionDate must use YYYY-MM-DD"

unfoldable pub validate_production_confirm_locked :
    ProductionConfirmRequest → Claims → MemoryStore → Result (Order × Time)
unfolding production_allocation_locked
validate_production_confirm_locked req claims s = do
  order ← or_fail (lookup req.order_id s.orders) "order not found"
  refuse_if (not (str_eq order.line_id claims.line_id)) "cannot confirm another production line"
  refuse_if (not (status_eq order.status OrderStatus.in_progress))
      "only in-progress orders can be confirmed"
  refuse_if (not (is_positive req.produced_quantity)) "producedQuantity must be greater than zero"
  production_date ← production_day req
  allocation ←
      or_fail (production_allocation_locked order.id production_date s)
        "scheduled allocation not found for productionDate"
  refuse_if (not (is_open allocation)) "productionDate has already been confirmed"
  refuse_if (ltb allocation.quantity (produced_number req.produced_quantity))
      "producedQuantity cannot exceed scheduled allocation quantity"
  ok (order, production_date)

unfoldable pub complete_production_order_locked :
    Env → Order → Time → String → MemoryStore → MemoryStore × ProductionConfirmResponse
unfolding complete_production_allocation_locked bump_line_revision_locked audit_locked
complete_production_order_locked env found production_date actor_id s =
    let order : Order = record found { status = OrderStatus.completed; updated_at = env.now } in
    (
      audit_locked env actor_id "production.confirm.complete" order.id "" (
          bump_line_revision_locked order.line_id
            (complete_production_allocation_locked order.id production_date (put_order order s))),
      record { order = order; remainder = none },
    )

production_audit_reason : ℕ → ℕ → Order → String
unfolding itoa
production_audit_reason produced original remainder = String.◌++◌ "produced " (
    String.◌++◌ (itoa produced) (
      String.◌++◌ " of " (
        String.◌++◌ (itoa original) (
          String.◌++◌ ", remainder " (
            String.◌++◌ remainder.id (
              String.◌++◌ " quantity "
                (String.◌++◌ (itoa remainder.quantity) " returned to pending")))))))

-- The ID of the remainder: among one more candidates than there are orders one is free.
unfoldable pub remainder_id : Order → MemoryStore → Option String
unfolding next_remainder_order_id has
remainder_id order s =
    next_remainder_order_id (suc (length s.orders)) order.id (not (str_eq order.source_order ""))
      (λ id. has id s.orders)

unfoldable pub partial_production_order_locked :
    Env
    → Order
    → Order
    → String
    → ℕ
    → Time
    → String
    → MemoryStore
    → MemoryStore × ProductionConfirmResponse
unfolding replace_order_allocations_with_completed_locked bump_line_revision_locked audit_locked
    production_audit_reason
partial_production_order_locked env found rest id produced production_date actor_id s =
    let remainder : Order = record rest { id = id; created_at = env.now; updated_at = env.now } in
    let order : Order = record found {
      quantity = produced;
      status = OrderStatus.completed;
      updated_at = env.now;
    } in
    (
      audit_locked env actor_id "production.confirm.partial" order.id
          (production_audit_reason produced found.quantity remainder)
          (bump_line_revision_locked order.line_id (
            replace_order_allocations_with_completed_locked order.id production_date
              (put_order remainder (put_order order s)))),
      record { order = order; remainder = some remainder },
    )

-- The branches of `ConfirmProduction` behind `scheduler.ConfirmProduction`.
unfoldable pub apply_confirmation :
    Env
    → ProductionConfirmRequest
    → Claims
    → Order
    → Time
    → ConfirmationResult
    → MemoryStore
    → MemoryStore × Result ProductionConfirmResponse
unfolding complete_production_order_locked partial_production_order_locked remainder_id
apply_confirmation env req claims order date result s = elim (result.remainder) [
  | none ↦
      let out : MemoryStore × ProductionConfirmResponse =
        complete_production_order_locked env order date claims.subject s in
      (out.0, ok (out.1))
  | some rest ↦ committing s (or_fail (remainder_id order s) out_of_fuel) λ id.
      partial_production_order_locked env order rest id (produced_number req.produced_quantity) date
        claims.subject s
]

unfoldable pub confirm_production_order :
    Env
    → ProductionConfirmRequest
    → Claims
    → MemoryStore
    → MemoryStore × Result ProductionConfirmResponse
unfolding validate_production_confirm_locked confirm_production apply_confirmation
confirm_production_order env req claims s = elim (validate_production_confirm_locked req claims s) [
  | err e ↦ (s, err e)
  | ok (order, date) ↦ elim (confirm_production order req.produced_quantity env.now) [
    | err e ↦ (s, err e)
    | ok result ↦ apply_confirmation env req claims order date result s
  ]
]
