-- ===== src/Api/Validation.antt =====
-- The validation of internal/api/server.go: order fields, due dates, roles, and who may do what to an
-- order in which status.
use woms.Base.{
  ℕ, Bool, true, false, ◌||◌, ◌&&◌, not, none, some, String, str_eq, ltb, leb, ◌==◌, if◌then◌else◌,
  List, [], ◌∷◌,
}
use woms.Base.Int.{ℤ, pos, negsuc}
use woms.Base.Maps.{Map, has}
use woms.Base.Results.{Result, ok, err, refuse_if, ◌>>=◌, ◌>>◌}
use woms.Base.Text.{trim_space, rune_count, codes}
use woms.Clock.{Time, after, effective_current_date, parse_date, zero_time}
use woms.Domain.{
  Role, Priority, low, high, unset_priority, is_admin, is_sales, is_scheduler, status_eq,
  OrderStatus, Order, ProductionLine,
}
use woms.Api.Requests.{Claims, CreateOrderRequest}
use Prim.Native.String

abbrev pub out_of_range : ℤ → Bool
out_of_range (pos n) = ltb n 25 || ltb 2500 n
out_of_range (negsuc n) = true

abbrev pub is_int_zero : ℤ → Bool
is_int_zero (pos n) = n == 0
is_int_zero (negsuc n) = false

-- The stored quantity of a request whose quantity is in range.
abbrev pub stored_quantity : ℤ → ℕ
stored_quantity (pos n) = n
stored_quantity (negsuc n) = 0

unfoldable pub can_sales_resubmit_status : OrderStatus → Bool
can_sales_resubmit_status status =
    status_eq status OrderStatus.pending || status_eq status OrderStatus.rejected

unfoldable pub can_sales_cancel_status : OrderStatus → Bool
can_sales_cancel_status status =
    status_eq status OrderStatus.pending || status_eq status OrderStatus.rejected

-- A role that is none of the three.
abbrev pub unknown_role : Role → Bool
unknown_role role = not (is_admin role) && not (is_sales role) && not (is_scheduler role)

unfoldable pub can_update_order_details : Order → Claims → Result (Unit {0})
can_update_order_details order claims = do
  refuse_if (is_scheduler claims.role && not (str_eq order.line_id claims.line_id))
      "cannot update another production line"
  refuse_if (is_sales claims.role && not (str_eq order.created_by claims.subject))
      "sales can update only their own orders"
  refuse_if (unknown_role claims.role) "role cannot update orders"
  refuse_if
      (not (status_eq order.status OrderStatus.pending)
        && not (status_eq order.status OrderStatus.rejected))
      "only pending or rejected orders can change order details"

unfoldable pub can_reject_order : Order → Claims → Result (Unit {0})
can_reject_order order claims = do
  refuse_if (not (str_eq order.line_id claims.line_id)) "cannot reject another production line"
  refuse_if (not (status_eq order.status OrderStatus.pending)) "only pending orders can be rejected"

unfoldable pub can_cancel_order : Order → Claims → Result (Unit {0})
unfolding can_sales_cancel_status
can_cancel_order order claims = do
  refuse_if (is_sales claims.role && not (str_eq order.created_by claims.subject))
      "sales can cancel only their own orders"
  refuse_if (is_sales claims.role && not (can_sales_cancel_status order.status))
      "sales can cancel only pending or rejected orders"
  refuse_if (is_scheduler claims.role && not (str_eq order.line_id claims.line_id))
      "cannot cancel another production line"
  refuse_if (unknown_role claims.role) "role cannot cancel orders"
  refuse_if
      (status_eq order.status OrderStatus.in_progress
        || status_eq order.status OrderStatus.completed)
      "cannot cancel in-progress or completed orders"

unfoldable pub validate_order_fields : String → ℤ → String → Result (Unit {0})
unfolding trim_space
validate_order_fields customer quantity note = do
  refuse_if (str_eq (trim_space customer) "" || out_of_range quantity)
      "customer is required and quantity must be between 25 and 2500"
  refuse_if (ltb 120 (rune_count note)) "note must be 120 characters or fewer"

unfoldable pub validate_future_due_date : Time → String → Time → Result Time
unfolding parse_date effective_current_date
validate_future_due_date now value current_date = elim (parse_date value) [
  | none ↦ err "dueDate must use YYYY-MM-DD"
  | some due ↦
      if after due (effective_current_date now current_date) then ok due else err "無法被接受的交期"
]

-- The empty priority stands for low, in this test.
abbrev pub is_order_priority : Priority → Bool
is_order_priority low = true
is_order_priority high = true
is_order_priority unset_priority = true
is_order_priority _ = false

unfoldable pub validate_order_request :
    Time → CreateOrderRequest → Map ProductionLine → Time → Result Time
unfolding validate_order_fields has validate_future_due_date
validate_order_request now req lines current_date = do
  validate_order_fields req.customer req.quantity req.note
  refuse_if (not (has req.line_id lines)) "production line does not exist"
  refuse_if (not (is_order_priority req.priority)) "priority must be low or high"
  validate_future_due_date now req.due_date current_date

unfoldable pub apply_optional_quantity : Order → ℤ → Result Order
apply_optional_quantity order quantity =
    if is_int_zero quantity
    then ok order
    else if out_of_range quantity
    then err "quantity must be between 25 and 2500"
    else ok (record order { quantity = stored_quantity quantity })

unfoldable pub apply_optional_due_date : Time → Order → String → Time → Result Order
unfolding validate_future_due_date
apply_optional_due_date now order due_date current_date =
    if str_eq due_date ""
    then ok order
    else (validate_future_due_date now due_date current_date >>= λ parsed.
        ok (record order { due_date = parsed }))

unfoldable pub reset_rejected_state : Order → Order
reset_rejected_state order = record order {
  rejection_reason = "";
  rejected_by = "";
  rejected_at = zero_time;
}

is_username_code : ℕ → Bool
is_username_code c =
    leb b'a' c && leb c b'z'
    || leb b'A' c && leb c b'Z'
    || leb b'0' c && leb c b'9'
    || c == b'-'
    || c == b'_'
    || c == b'.'

all_username : List ℕ → Bool
unfolding is_username_code
all_username [] = true
all_username (c ∷ cs) = is_username_code c && all_username cs

unfoldable pub validate_username : String → Result (Unit {0})
unfolding all_username
validate_username username = do
  refuse_if (str_eq username "") "username is required"
  refuse_if (ltb 40 (String.len username)) "username must be 40 characters or fewer"
  refuse_if (not (all_username (codes username)))
      "username can contain only letters, numbers, dash, underscore, or dot"

unfoldable pub validate_user_role : Role → String → Map ProductionLine → Result (Unit {0})
unfolding has
validate_user_role role line_id lines = do
  refuse_if (unknown_role role) "role must be admin, sales, or scheduler"
  refuse_if (is_scheduler role && not (has line_id lines)) "scheduler lineId must be A, B, C, or D"
