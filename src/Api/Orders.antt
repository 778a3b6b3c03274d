-- ===== src/Api/Orders.antt =====
-- The operations on orders of internal/api/server.go: create, update, reject, resubmit, cancel, list.
use woms.Base.{
  suc, Bool, true, false, ◌&&◌, not, List, [], ◌∷◌, ◌++◌, none, some, String, str_eq, str_lt, ltb,
  is_empty, keep, if◌then◌else◌,
}
use woms.Base.Maps.{lookup, values}
use woms.Base.Results.{Result, ok, err, or_fail, refuse_if, ◌>>=◌, ◌>>◌}
use woms.Base.Text.{trim_space, rune_count}
use woms.Clock.{Time, zero_time}
use woms.Domain.{Order, OrderStatus, status_eq, is_sales, is_scheduler}
use woms.Scheduler.Sorting.{stable_sort}
use woms.Api.Requests.{
  Claims, CreateOrderRequest, UpdateOrderRequest, RejectOrdersRequest, ResubmitOrderRequest,
  CancelOrdersRequest, CancelOrdersResponse,
}
use woms.Api.State.{
  Env, MemoryStore, committing, bump_line_revision_locked, audit_locked, put_order,
  order_id_from_sequence, current_date_for_line_locked,
}
use woms.Api.Validation.{
  stored_quantity, can_sales_resubmit_status, can_update_order_details, can_reject_order,
  can_cancel_order, validate_order_request, apply_optional_quantity, apply_optional_due_date,
  reset_rejected_state,
}
use woms.Api.Allocations.{remove_allocations_locked}
use Prim.Native.String

-- What `createOrderLocked` checks; the due date.
unfoldable pub created_due_date : Env → CreateOrderRequest → MemoryStore → Result Time
unfolding current_date_for_line_locked validate_order_request
created_due_date env req s = do
  current_date ← current_date_for_line_locked env req.line_id s
  validate_order_request env.now req s.lines current_date

abbrev pub new_order : Env → CreateOrderRequest → String → String → Time → Order
new_order env req actor_id id due = record {
  id = id;
  customer = req.customer;
  line_id = req.line_id;
  quantity = stored_quantity req.quantity;
  priority = req.priority;
  status = OrderStatus.pending;
  due_date = due;
  note = trim_space req.note;
  created_by = actor_id;
  source_order = "";
  rejection_reason = "";
  rejected_by = "";
  rejected_at = zero_time;
  created_at = env.now;
  updated_at = env.now;
}

unfoldable pub create_order_locked :
    Env → CreateOrderRequest → String → MemoryStore → MemoryStore × Result Order
unfolding created_due_date bump_line_revision_locked audit_locked
create_order_locked env req actor_id s = committing s (created_due_date env req s) λ due.
    let order : Order = new_order env req actor_id (order_id_from_sequence s.next_order_id) due in
    let stored : MemoryStore = put_order order (record s { next_order_id = suc s.next_order_id }) in
    (
      audit_locked env actor_id "order.create" order.id ""
          (bump_line_revision_locked order.line_id stored),
      order,
    )

-- `if req.DueDate != "" { … }` of the two updates.
unfoldable pub with_due_date : Env → MemoryStore → Order → String → Result Order
unfolding current_date_for_line_locked apply_optional_due_date
with_due_date env s order due_date =
    if str_eq due_date ""
    then ok order
    else (current_date_for_line_locked env order.line_id s >>= λ current_date.
        apply_optional_due_date env.now order due_date current_date)

-- What `UpdateOrderDueDate` checks; the updated order.
unfoldable pub updated_order :
    Env → String → UpdateOrderRequest → Claims → MemoryStore → Result Order
unfolding can_update_order_details with_due_date apply_optional_quantity
updated_order env id req claims s = do
  order ← or_fail (lookup id s.orders) "order not found"
  refuse_if (not (str_eq (trim_space req.note) "")) "note cannot be updated after order creation"
  can_update_order_details order claims
  dated ← with_due_date env s order req.due_date
  counted ← apply_optional_quantity dated req.quantity
  ok (record counted { updated_at = env.now })

-- The writes that the changes of an order share.
unfoldable pub commit_order : Env → Order → String → String → String → MemoryStore → MemoryStore
unfolding bump_line_revision_locked audit_locked remove_allocations_locked
commit_order env order actor_id action reason s = audit_locked env actor_id action order.id reason (
    bump_line_revision_locked order.line_id
      (remove_allocations_locked order.id (put_order order s)))

unfoldable pub update_order_due_date :
    Env → String → UpdateOrderRequest → Claims → MemoryStore → MemoryStore × Result Order
unfolding updated_order commit_order
update_order_due_date env id req claims s =
    committing s (updated_order env id req claims s)
      λ order. (commit_order env order claims.subject "order.update_due_date" req.due_date s, order)

unfoldable pub rejectable_order : String → Claims → MemoryStore → Result Order
unfolding can_reject_order
rejectable_order id claims s = do
  order ← or_fail (lookup id s.orders) (String.◌++◌ "order not found: " id)
  can_reject_order order claims
  ok order

abbrev pub rejected_order : Env → String → Claims → Order → Order
rejected_order env reason claims order = record order {
  status = OrderStatus.rejected;
  rejection_reason = reason;
  rejected_by = claims.subject;
  rejected_at = env.now;
  updated_at = env.now;
}

-- The loop of `RejectOrders`: an error keeps what the earlier rounds wrote.
unfoldable pub reject_loop :
    Env
    → String
    → Claims
    → List String
    → List Order
    → MemoryStore
    → MemoryStore × Result (List Order)
unfolding rejectable_order commit_order
reject_loop env reason claims [] done s = (s, ok done)
reject_loop env reason claims (id ∷ ids) done s = elim (rejectable_order id claims s) [
  | err e ↦ (s, err e)
  | ok order ↦
      let after : Order = rejected_order env reason claims order in
      reject_loop env reason claims ids (done ++ after ∷ [])
        (commit_order env after claims.subject "order.reject" reason s)
]

unfoldable pub rejection_reason : RejectOrdersRequest → Result String
unfolding trim_space
rejection_reason req = do
  refuse_if (is_empty req.order_ids) "orderIds is required"
  let reason = trim_space req.reason
  refuse_if (str_eq reason "") "rejection reason is required"
  refuse_if (ltb 240 (rune_count reason)) "rejection reason must be 240 characters or fewer"
  ok reason

unfoldable pub reject_orders :
    Env → RejectOrdersRequest → Claims → MemoryStore → MemoryStore × Result (List Order)
unfolding rejection_reason reject_loop
reject_orders env req claims s = elim (rejection_reason req) [
  | err e ↦ (s, err e)
  | ok reason ↦ reject_loop env reason claims req.order_ids [] s
]

-- What `ResubmitOrder` checks; the resubmitted order.
unfoldable pub resubmitted_order : Env → ResubmitOrderRequest → Claims → MemoryStore → Result Order
unfolding can_sales_resubmit_status with_due_date apply_optional_quantity reset_rejected_state
resubmitted_order env req claims s = do
  order ← or_fail (lookup req.order_id s.orders) "order not found"
  refuse_if (not (str_eq order.created_by claims.subject))
      "sales can resubmit only their own orders"
  refuse_if (not (can_sales_resubmit_status order.status))
      "only pending or rejected orders can be resubmitted"
  refuse_if (not (str_eq (trim_space req.note) "")) "note cannot be updated after order creation"
  counted ← apply_optional_quantity order req.quantity
  dated ← with_due_date env s counted req.due_date
  ok (record (reset_rejected_state dated) { status = OrderStatus.pending; updated_at = env.now })

unfoldable pub resubmit_order :
    Env → ResubmitOrderRequest → Claims → MemoryStore → MemoryStore × Result Order
unfolding resubmitted_order commit_order
resubmit_order env req claims s =
    committing s (resubmitted_order env req claims s)
      λ order. (commit_order env order claims.subject "order.resubmit" "" s, order)

abbrev pub is_visible : Claims → Order → Bool
is_visible claims order =
    not (is_sales claims.role && not (str_eq order.created_by claims.subject))
    && not (is_scheduler claims.role && not (str_eq order.line_id claims.line_id))

unfoldable pub list_orders : Claims → MemoryStore → List Order
unfolding keep stable_sort
list_orders claims s =
    stable_sort (λ a b. str_lt a.id b.id) (keep (is_visible claims) (values s.orders))

-- The loop of `CancelOrders`: an error keeps what the earlier rounds wrote.
unfoldable pub cancel_loop :
    Env
    → Claims
    → List String
    → CancelOrdersResponse
    → MemoryStore
    → MemoryStore × Result CancelOrdersResponse
unfolding can_cancel_order audit_locked bump_line_revision_locked remove_allocations_locked
cancel_loop env claims [] done s = (s, ok done)
cancel_loop env claims (id ∷ ids) done s =
    let skipped : CancelOrdersResponse = record done {
      skipped_order_ids = done.skipped_order_ids ++ id ∷ [];
    } in
    elim (lookup id s.orders) [
      | none ↦ cancel_loop env claims ids skipped s
      | some order ↦ elim (status_eq order.status OrderStatus.cancelled) [
        | true ↦ cancel_loop env claims ids skipped s
        | false ↦ elim (can_cancel_order order claims) [
          | err e ↦ (s, err e)
          | ok _ ↦
              let after : Order = record order {
                status = OrderStatus.cancelled;
                updated_at = env.now;
              } in
              cancel_loop env claims ids
                (record done { cancelled_order_ids = done.cancelled_order_ids ++ id ∷ [] })
                (audit_locked env claims.subject "order.cancel" id "" (
                  bump_line_revision_locked order.line_id
                    (remove_allocations_locked id (put_order after s))))
        ]
      ]
    ]

unfoldable pub cancel_orders :
    Env → CancelOrdersRequest → Claims → MemoryStore → MemoryStore × Result CancelOrdersResponse
unfolding cancel_loop
cancel_orders env req claims s =
    if is_empty req.order_ids
    then (s, err "orderIds is required")
    else cancel_loop env claims req.order_ids
        (record { cancelled_order_ids = []; skipped_order_ids = [] }) s
