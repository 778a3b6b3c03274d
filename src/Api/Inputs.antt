-- ===== src/Api/Inputs.antt =====
-- What `planLocked` of internal/api/server.go collects for the planner: the line, the dates, the
-- orders and the existing allocations.
use woms.Base.{
  Bool, true, false, not, ◌&&◌, List, [], ◌∷◌, none, some, String, str_eq, keep, map, contains,
  is_empty, if◌then◌else◌,
}
use woms.Base.Maps.{Map, lookup, values}
use woms.Base.Results.{Result, ok, or_fail, refuse_if, ◌>>=◌, ◌>>◌}
use woms.Base.Text.{trim_space}
use woms.Clock.{Time, zero_time, is_zero, parse_date, unix_milliseconds, effective_current_date}
use woms.Domain.{
  ProductionLine, Order, OrderStatus, Priority, low, unset_priority, status_eq, is_sales,
  is_scheduler, ScheduleAllocation,
}
use woms.Scheduler.Types.{OrderInput, ExistingAllocation}
use woms.Api.Requests.{Claims, ScheduleRequest, CreateOrderRequest}
use woms.Api.State.{Env, MemoryStore, current_date_in_line_timezone}
use woms.Api.Validation.{validate_order_request, stored_quantity}
use woms.Api.Allocations.{can_move_scheduled_order_locked}

unfoldable pub schedule_line_id : ScheduleRequest → Claims → String
schedule_line_id req claims =
    if not (str_eq req.line_id "")
    then req.line_id
    else if is_scheduler claims.role
    then claims.line_id
    else ""

unfoldable pub resolve_schedule_line_locked :
    ScheduleRequest → Claims → MemoryStore → Result (String × ProductionLine)
unfolding schedule_line_id
resolve_schedule_line_locked req claims s = do
  let line_id = schedule_line_id req claims
  refuse_if (str_eq line_id "") "lineId is required"
  refuse_if (is_scheduler claims.role && not (str_eq claims.line_id line_id))
      "cannot access another production line"
  line ← or_fail (lookup line_id s.lines) "production line does not exist"
  ok (line_id, line)

-- The current date and the start date.
unfoldable pub parse_schedule_dates : Env → ProductionLine → ScheduleRequest → Result (Time × Time)
unfolding current_date_in_line_timezone is_zero
parse_schedule_dates env line req = do
  current_date ←
      if str_eq req.current_date ""
      then ok zero_time
      else or_fail (parse_date req.current_date) "currentDate must use YYYY-MM-DD"
  default_start ←
      if is_zero current_date then current_date_in_line_timezone env line else ok current_date
  start_date ←
      if str_eq req.start_date ""
      then ok default_start
      else or_fail (parse_date req.start_date) "startDate must use YYYY-MM-DD"
  ok (current_date, start_date)

unfoldable pub order_input_from_order : Order → OrderInput
unfolding unix_milliseconds
order_input_from_order order = record {
  id = order.id;
  customer = order.customer;
  line_id = order.line_id;
  quantity = order.quantity;
  priority = order.priority;
  status = order.status;
  due_date = order.due_date;
  created_at_timestamp = unix_milliseconds order.created_at;
}

abbrev pub is_selected : String → ScheduleRequest → Order → Bool
is_selected line_id req order =
    str_eq order.line_id line_id
    && (if status_eq order.status OrderStatus.pending
        then not (not (is_empty req.order_ids) && not (contains req.order_ids order.id))
        else contains req.resolution_order_ids order.id)

unfoldable pub selected_order_inputs_locked :
    String → ScheduleRequest → MemoryStore → List OrderInput
unfolding keep contains order_input_from_order
selected_order_inputs_locked line_id req s =
    map order_input_from_order (keep (is_selected line_id req) (values s.orders))

unfoldable pub pending_order_inputs_for_line_locked : String → MemoryStore → List OrderInput
unfolding keep order_input_from_order
pending_order_inputs_for_line_locked line_id s = map order_input_from_order (
    keep (λ o. str_eq o.line_id line_id && status_eq o.status OrderStatus.pending)
      (values s.orders))

abbrev pub preview_draft_order_id : String
preview_draft_order_id = "PREVIEW-DRAFT"

abbrev default_priority : Priority → Priority
default_priority unset_priority = low
default_priority p = p

unfoldable pub validate_draft_preview_request :
    Env
    → String
    → Time
    → CreateOrderRequest
    → Claims
    → Map ProductionLine
    → Result (CreateOrderRequest × Time)
unfolding validate_order_request effective_current_date
validate_draft_preview_request env line_id current_date req_draft claims lines = do
  refuse_if (not (is_sales claims.role)) "only sales can preview draft orders"
  let draft_line_id = if str_eq req_draft.line_id "" then line_id else req_draft.line_id
  refuse_if (not (str_eq draft_line_id line_id)) "draft order line must match preview line"
  let draft = record req_draft {
    line_id = draft_line_id;
    priority = default_priority req_draft.priority;
  }
  due_date ←
      validate_order_request env.now draft lines (effective_current_date env.now current_date)
  ok (draft, due_date)

unfoldable pub draft_order_input : Env → CreateOrderRequest → Time → OrderInput
unfolding unix_milliseconds trim_space
draft_order_input env draft due_date = record {
  id = preview_draft_order_id;
  customer = trim_space draft.customer;
  line_id = draft.line_id;
  quantity = stored_quantity draft.quantity;
  priority = draft.priority;
  status = OrderStatus.pending;
  due_date = due_date;
  created_at_timestamp = unix_milliseconds env.now;
}

unfoldable pub draft_order_inputs_locked :
    Env → String → Time → CreateOrderRequest → Claims → MemoryStore → Result (List OrderInput)
unfolding validate_draft_preview_request draft_order_input pending_order_inputs_for_line_locked
draft_order_inputs_locked env line_id current_date req_draft claims s = do
  (draft, due_date) ←
      validate_draft_preview_request env line_id current_date req_draft claims s.lines
  ok (draft_order_input env draft due_date ∷ pending_order_inputs_for_line_locked line_id s)

unfoldable pub schedule_order_inputs_locked :
    Env → String → Time → ScheduleRequest → Claims → MemoryStore → Result (List OrderInput)
unfolding draft_order_inputs_locked selected_order_inputs_locked
schedule_order_inputs_locked env line_id current_date req claims s = elim (req.draft_order) [
  | some draft ↦ draft_order_inputs_locked env line_id current_date draft claims s
  | none ↦ ok (selected_order_inputs_locked line_id req s)
]

abbrev pub has_draft : ScheduleRequest → Bool
has_draft req = elim (req.draft_order) [ none ↦ false | some draft ↦ true ]

-- One order of the resolution.
unfoldable pub check_resolution :
    String → ScheduleRequest → MemoryStore → String → Result (Unit {0})
unfolding can_move_scheduled_order_locked
check_resolution line_id req s order_id = do
  refuse_if (has_draft req) "draft previews cannot include resolution orders"
  order ← or_fail (lookup order_id s.orders) "resolution order not found"
  refuse_if (not (str_eq order.line_id line_id)) "resolution order line must match preview line"
  refuse_if (not (can_move_scheduled_order_locked order_id s))
      "resolution orders must be low-priority scheduled orders without locked or completed allocations"

-- The set of `resolutionOrderIDSetLocked` as a list.
unfoldable pub resolution_loop :
    String → ScheduleRequest → MemoryStore → List String → Result (List String)
unfolding check_resolution
resolution_loop line_id req s [] = ok []
resolution_loop line_id req s (id ∷ ids) =
    let later : Result (List String) = resolution_loop line_id req s ids in
    if str_eq id ""
    then later
    else (check_resolution line_id req s id >> (later >>= λ rest. ok (id ∷ rest)))

unfoldable pub resolution_order_id_set_locked :
    String → ScheduleRequest → MemoryStore → Result (List String)
unfolding resolution_loop
resolution_order_id_set_locked line_id req s =
    resolution_loop line_id req s req.resolution_order_ids

abbrev pub existing_input : ScheduleAllocation → ExistingAllocation
existing_input a = record {
  order_id = a.order_id;
  line_id = a.line_id;
  date = a.date;
  quantity = a.quantity;
  priority = a.priority;
  locked = a.locked;
}

unfoldable pub existing_allocation_inputs_locked :
    List String → MemoryStore → List ExistingAllocation
unfolding keep contains
existing_allocation_inputs_locked resolution s =
    map existing_input (keep (λ a. not (contains resolution a.order_id)) s.allocations)
