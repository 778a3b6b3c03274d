-- ===== src/Api/Views.antt =====
-- The reads of internal/api/server.go: the calendar of a line and the history of its schedule.
use woms.Base.{
  ℕ, zero, suc, ◌+◌, ◌-◌, ◌*◌, ◌%◌, Bool, false, not, ◌&&◌, ◌||◌, List, [], ◌∷◌, none, some, String,
  str_eq, str_lt, ltb, ◌==◌, keep, map, is_empty, if◌then◌else◌,
}
use woms.Base.Maps.{lookup, lookup_or, has, Map, insert}
use woms.Base.Results.{Result, ok, or_fail, refuse_if, ◌>>=◌, ◌>>◌}
use woms.Clock.{
  Time, day_length, zero_time, truncate_date, add_days, date_key, before, parse_date, format_date,
  unix_milliseconds,
}
use woms.Domain.{
  ProductionLine, OrderStatus, Priority, ScheduleAllocation, AuditEntry, Order, zero_order,
  status_eq, priority_eq, is_high, is_sales, is_admin, is_scheduler,
}
use woms.Scheduler.Types.{OrderInput, ExistingAllocation, Allocation}
use woms.Scheduler.Sorting.{stable_sort}
use woms.Scheduler.Plan.{plan}
use woms.Api.Requests.{Claims}
use woms.Api.State.{Env, MemoryStore, current_date_in_line_timezone}
use woms.Api.Inputs.{pending_order_inputs_for_line_locked, existing_input}
use Prim.Native.String

pub record CalendarAllocation : Type 0 where
  pub order_id : String
  pub customer : String
  pub line_id : String
  pub date : Time
  pub quantity : ℕ
  pub completed_quantity : ℕ
  pub priority : Priority
  pub status : OrderStatus
  pub locked : Bool
  pub due_date : Time
  pub created_at_timestamp : ℕ

pub record CalendarWindow : Type 0 where
  pub month : String
  pub start : Time
  pub finish : Time

pub record CalendarResponse : Type 0 where
  pub line_id : String
  pub timezone : String
  pub month : String
  pub allocations : List CalendarAllocation
  pub pending_allocations : List CalendarAllocation

unfoldable pub resolve_calendar_line_locked :
    String → Claims → MemoryStore → Result (String × ProductionLine)
resolve_calendar_line_locked line_id claims s = do
  let id = if str_eq line_id "" && is_scheduler claims.role then claims.line_id else line_id
  refuse_if (str_eq id "") "lineId is required"
  refuse_if (is_scheduler claims.role && not (str_eq claims.line_id id))
      "cannot access another production line"
  line ← or_fail (lookup id s.lines) "production line does not exist"
  ok (id, line)

-- `Format("2006-01")`: a date without its last three characters.
month_of_date : String → String
month_of_date (String.◌∷◌ a (String.◌∷◌ b (String.◌∷◌ c (String.◌∷◌ d s)))) =
    String.◌∷◌ a (month_of_date (String.◌∷◌ b (String.◌∷◌ c (String.◌∷◌ d s))))
month_of_date _ = String.[]

-- Day 0 is a Saturday, and Sunday counts 0.
unfoldable pub weekday : Time → ℕ
unfolding date_key
weekday t = (date_key t + 6) % 7

-- Six weeks from the Sunday on or before the first of the month. `time.Parse` with the layout
-- "2006-01" accepts a text exactly if the layout of dates accepts it with "-01".
unfoldable pub parse_calendar_window : Env → ProductionLine → String → Result CalendarWindow
unfolding current_date_in_line_timezone month_of_date format_date parse_date weekday
parse_calendar_window env line month_in = do
  month ←
      if str_eq month_in ""
      then (current_date_in_line_timezone env line >>= λ date.
          ok (month_of_date (format_date date)))
      else ok month_in
  first ← or_fail (parse_date (String.◌++◌ month "-01")) "month must use YYYY-MM"
  ok (record {
    month = month;
    start = first - weekday first * day_length;
    finish = first + 42 * day_length - weekday first * day_length;
  })

abbrev pub in_window : CalendarWindow → Time → Bool
in_window window date = not (before date window.start) && before date window.finish

unfoldable pub calendar_allocation_from_schedule :
    ScheduleAllocation → Time → MemoryStore → CalendarAllocation
unfolding lookup_or unix_milliseconds
calendar_allocation_from_schedule a date s =
    let order : Order = lookup_or zero_order a.order_id s.orders in
    let status : OrderStatus =
      if status_eq a.status OrderStatus.unset then order.status else a.status in
    record {
      order_id = a.order_id;
      customer = order.customer;
      line_id = a.line_id;
      date = date;
      quantity = a.quantity;
      completed_quantity = if status_eq status OrderStatus.completed then order.quantity else 0;
      priority = a.priority;
      status = status;
      locked = a.locked;
      due_date = order.due_date;
      created_at_timestamp = unix_milliseconds order.created_at;
    }

unfoldable pub calendar_less : CalendarAllocation → CalendarAllocation → Bool
calendar_less a b =
    if not (a.date == b.date)
    then before a.date b.date
    else if not (priority_eq a.priority b.priority)
    then is_high a.priority
    else if not (a.due_date == b.due_date)
    then before a.due_date b.due_date
    else if not (a.created_at_timestamp == b.created_at_timestamp)
    then ltb a.created_at_timestamp b.created_at_timestamp
    else str_lt a.order_id b.order_id

unfoldable pub sort_calendar_allocations : List CalendarAllocation → List CalendarAllocation
unfolding calendar_less stable_sort
sort_calendar_allocations allocations = stable_sort calendar_less allocations

unfoldable pub persisted_calendar_allocations_locked :
    String → CalendarWindow → MemoryStore → List CalendarAllocation
unfolding keep truncate_date calendar_allocation_from_schedule sort_calendar_allocations
persisted_calendar_allocations_locked line_id window s = sort_calendar_allocations (
    map (λ a. calendar_allocation_from_schedule a (truncate_date a.date) s)
      (keep (λ a. str_eq a.line_id line_id && in_window window (truncate_date a.date))
        s.allocations))

unfoldable pub existing_allocations_for_line_locked : String → MemoryStore → List ExistingAllocation
unfolding keep
existing_allocations_for_line_locked line_id s =
    map existing_input (keep (λ a. str_eq a.line_id line_id) s.allocations)

-- The two maps of `pendingBacklogCalendarAllocations`: a later input overwrites an earlier one.
abbrev due_dates : List OrderInput → Map Time → Map Time
due_dates [] m = m
due_dates (o ∷ rest) m = due_dates rest (insert o.id o.due_date m)

abbrev timestamps : List OrderInput → Map ℕ → Map ℕ
timestamps [] m = m
timestamps (o ∷ rest) m = timestamps rest (insert o.id o.created_at_timestamp m)

pending_calendar_allocation : List OrderInput → Allocation → CalendarAllocation
unfolding lookup_or insert truncate_date
pending_calendar_allocation inputs a = record {
  order_id = a.order_id;
  customer = a.customer;
  line_id = a.line_id;
  date = truncate_date a.date;
  quantity = a.quantity;
  completed_quantity = 0;
  priority = a.priority;
  status = OrderStatus.pending;
  locked = a.locked;
  due_date = lookup_or zero_time a.order_id (due_dates inputs []);
  created_at_timestamp = lookup_or 0 a.order_id (timestamps inputs []);
}

unfoldable pub pending_backlog_calendar_allocations :
    ProductionLine
    → List OrderInput
    → List ExistingAllocation
    → Time
    → CalendarWindow
    → Result (List CalendarAllocation)
unfolding plan add_days truncate_date keep pending_calendar_allocation sort_calendar_allocations
pending_backlog_calendar_allocations line inputs existing current_date window =
    if is_empty inputs
    then ok []
    else (plan (record {
      line_id = line.id;
      capacity_per_day = line.capacity_per_day;
      start_date = add_days (truncate_date current_date) 1;
      current_date = current_date;
      orders = inputs;
      existing_allocations = existing;
      manual_force = false;
      force_reason = "";
      allow_late_completion = false;
    })
        >>= λ result. ok (
            sort_calendar_allocations (
              map (pending_calendar_allocation inputs)
                (keep (λ a. in_window window (truncate_date a.date)) result.allocations))))

unfoldable pub sales_pending_backlog_calendar_allocations_locked :
    Env → ProductionLine → CalendarWindow → Claims → MemoryStore → Result (List CalendarAllocation)
unfolding current_date_in_line_timezone pending_backlog_calendar_allocations
    pending_order_inputs_for_line_locked existing_allocations_for_line_locked
sales_pending_backlog_calendar_allocations_locked env line window claims s =
    if not (is_sales claims.role)
    then ok []
    else (current_date_in_line_timezone env line >>= λ current_date.
        pending_backlog_calendar_allocations line (pending_order_inputs_for_line_locked line.id s)
          (existing_allocations_for_line_locked line.id s) current_date window)

unfoldable pub schedule_calendar :
    Env → String → String → Claims → MemoryStore → Result CalendarResponse
unfolding resolve_calendar_line_locked parse_calendar_window
    sales_pending_backlog_calendar_allocations_locked persisted_calendar_allocations_locked
schedule_calendar env line_id_in month claims s = do
  (line_id, line) ← resolve_calendar_line_locked line_id_in claims s
  window ← parse_calendar_window env line month
  pending ← sales_pending_backlog_calendar_allocations_locked env line window claims s
  ok (record {
    line_id = line_id;
    timezone = line.timezone;
    month = window.month;
    allocations = persisted_calendar_allocations_locked line_id window s;
    pending_allocations = pending;
  })

unfoldable pub is_scheduler_workflow_audit : String → Bool
is_scheduler_workflow_audit action =
    str_eq action "schedule.job.create"
    || str_eq action "schedule.job.manual_force"
    || str_eq action "order.reject"
    || str_eq action "order.cancel"
    || str_eq action "production.start"
    || str_eq action "production.confirm.complete"
    || str_eq action "production.confirm.partial"

unfoldable pub audit_resource_line_locked : AuditEntry → MemoryStore → String
audit_resource_line_locked entry s = elim (lookup entry.resource s.jobs) [
  | some job ↦ job.line_id
  | none ↦ elim (lookup entry.resource s.orders) [ none ↦ "" | some order ↦ order.line_id ]
]

abbrev pub in_history : String → MemoryStore → AuditEntry → Bool
in_history line_id s entry =
    is_scheduler_workflow_audit entry.action
    && not (not (str_eq line_id "") && not (str_eq (audit_resource_line_locked entry s) line_id))

-- The loop from the last entry down, while fewer than `room` are taken: the entries come reversed.
unfoldable pub history_loop : ℕ → String → MemoryStore → List AuditEntry → List AuditEntry
unfolding is_scheduler_workflow_audit audit_resource_line_locked
history_loop room line_id s [] = []
history_loop zero line_id s entries = []
history_loop (suc room) line_id s (entry ∷ rest) =
    let skipped : List AuditEntry = history_loop (suc room) line_id s rest in
    let taken : List AuditEntry = entry ∷ history_loop room line_id s rest in
    if in_history line_id s entry then taken else skipped

abbrev reversed {ℓ} : {A : Type ℓ} → List A → List A → List A
reversed [] done = done
reversed (x ∷ xs) done = reversed xs (x ∷ done)

unfoldable pub schedule_history : String → Claims → MemoryStore → Result (List AuditEntry)
unfolding history_loop has
schedule_history line_id_in claims s = do
  refuse_if (not (is_admin claims.role) && not (is_scheduler claims.role))
      "only admin or schedulers can read schedule history"
  refuse_if
      (not (is_scheduler claims.role) && not (str_eq line_id_in "") && not (has line_id_in s.lines))
      "production line does not exist"
  let line_id = if is_scheduler claims.role then claims.line_id else line_id_in
  ok (history_loop 12 line_id s (reversed s.audits []))
