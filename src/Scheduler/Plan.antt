-- ===== src/Scheduler/Plan.antt =====
-- `Plan` and its loops, of internal/scheduler/scheduler.go. A loop runs on fuel, and `none` means
-- that the fuel ran out; `search_bound` is the fuel.
use Prim.Native.Nat.{min}
use woms.Base.{
  ℕ, zero, suc, ◌+◌, ◌-◌, ◌*◌, Bool, false, ◌&&◌, ◌||◌, List, [], ◌∷◌, ◌++◌, Option, none, some,
  String, ◌==◌, leb, str_eq, not, is_empty, if◌then◌else◌,
}
use woms.Base.Results.{Result, ok, err, ◌>>=◌, ◌>>◌}
use woms.Clock.{Time, zero_time, is_zero, before, after, truncate_date, add_days, date_key}
use woms.Domain.{is_high}
use woms.Scheduler.Types.{
  OrderInput, Allocation, Conflict, Request, PlanResult, validate_request, validate_order,
}
use woms.Scheduler.Sorting.{sorted_orders}
use woms.Scheduler.Ledger.{
  DayTotals, DayOrders, CapacityLedger, append_unique_many, orders_on, add_on,
  build_capacity_ledger, available_capacity,
}

-- What is booked from a day on: no loop passes more full days than this.
unfoldable pub booked_from : ℕ → DayTotals → ℕ
booked_from key [] = 0
booked_from key ((k, n) ∷ m) = (if leb key k then n else 0) + booked_from key m

unfoldable pub ledger_from : CapacityLedger → ℕ → ℕ
unfolding booked_from
ledger_from ledger key =
    booked_from key ledger.high_used
    + booked_from key ledger.new_used
    + booked_from key ledger.low_used

unfoldable pub search_bound : CapacityLedger → Time → ℕ → ℕ
unfolding ledger_from
search_bound ledger day remaining = suc (ledger_from ledger (date_key day) + 2 * remaining)

unfoldable pub schedule_start_date : Time → Time → Time
unfolding truncate_date is_zero add_days
schedule_start_date requested current =
    let start : Time = truncate_date requested in
    let earliest : Time = add_days (truncate_date current) 1 in
    if is_zero current then start else if before start earliest then earliest else start

-- The loop of `estimateFinishDate`.
unfoldable pub finish_loop : Request → CapacityLedger → ℕ → Time → ℕ → Option Time
unfolding available_capacity add_days
finish_loop req ledger zero day remaining = none
finish_loop req ledger (suc fuel) day remaining =
    let left : ℕ = remaining - min remaining (available_capacity req ledger day) in
    let rest : Option Time =
      finish_loop req ledger fuel (if left == 0 then day else add_days day 1) left in
    if remaining == 0 then some day else rest

unfoldable pub estimate_finish_date : Request → Time → ℕ → CapacityLedger → Option Time
unfolding finish_loop truncate_date search_bound
estimate_finish_date req start remaining ledger =
    let day : Time = truncate_date start in
    finish_loop req ledger (search_bound ledger day remaining) day remaining

-- The loop of `affectedOrdersBetween`.
unfoldable pub affected_loop : ℕ → Time → Time → DayOrders → List String → Option (List String)
unfolding append_unique_many orders_on add_days
affected_loop zero day due by_date affected = none
affected_loop (suc fuel) day due by_date affected =
    let rest : Option (List String) =
      affected_loop fuel (add_days day 1) due by_date
        (append_unique_many affected (orders_on (date_key day) by_date)) in
    if after day due then some affected else rest

-- One round for each day up to `due`, and one that ends the loop.
unfoldable pub affected_orders_between : Time → Time → DayOrders → Option (List String)
unfolding affected_loop truncate_date
affected_orders_between start due by_date =
    affected_loop (suc (suc (date_key due) - date_key start)) (truncate_date start) due by_date []

abbrev pub manual_force_reason : String
manual_force_reason = "existing allocations require manual review or reschedule"

abbrev pub late_reason : String
late_reason = "capacity cannot satisfy order before due date"

-- What the loop of `planOrder` changes.
pub record LoopState : Type 0 where
  pub ledger : CapacityLedger
  pub result : PlanResult
  pub remaining : ℕ
  pub day : Time

-- `ledger.reportedManualForceConflicts[order.ID+"@"+key]`
reported : List (String × ℕ) → String → ℕ → Bool
reported [] id key = false
reported ((i, k) ∷ rest) id key = str_eq i id && k == key || reported rest id key

abbrev pub manual_conflict : OrderInput → Time → List String → Conflict
manual_conflict order day affected = record {
  order_id = order.id;
  reason = manual_force_reason;
  earliest_finish_date = day;
  affected_order_ids = affected;
}

unfoldable pub record_manual_force_conflict :
    Request → CapacityLedger → OrderInput → PlanResult → Time → CapacityLedger × PlanResult
unfolding append_unique_many orders_on reported
record_manual_force_conflict req ledger order result day =
    let key : ℕ = date_key day in
    let affected : List String =
      append_unique_many (orders_on key ledger.low_by_date) (orders_on key ledger.locked_by_date) in
    if not req.manual_force
    then (ledger, result)
    else if is_empty affected
    then (ledger, result)
    else if reported ledger.reported_manual_force_conflicts order.id key
    then (ledger, result)
    else (
      record ledger {
        reported_manual_force_conflicts = (order.id, key) ∷ ledger.reported_manual_force_conflicts;
      },
      record result { conflicts = result.conflicts ++ manual_conflict order day affected ∷ [] },
    )

abbrev pub late_result : OrderInput → PlanResult → Time → List String → PlanResult
late_result order result finish affected = record result {
  conflicts =
      result.conflicts
      ++ record {
        order_id = order.id;
        reason = late_reason;
        earliest_finish_date = finish;
        affected_order_ids = affected;
      }
        ∷ [];
}

unfoldable pub record_late_capacity_conflict :
    Request → OrderInput → Time → Time → LoopState → Option PlanResult
unfolding estimate_finish_date affected_orders_between
record_late_capacity_conflict req order start due s =
    elim (estimate_finish_date req s.day s.remaining s.ledger) [
      | none ↦ none
      | some finish ↦
          elim (affected_orders_between start (if before finish due then due else finish)
            s.ledger.low_by_date) [
              | none ↦ none
              | some affected ↦ some (late_result order s.result finish affected)
            ]
    ]

-- One round of the loop of `planOrder`: it ends, goes round again, or a search ran out of fuel.
pub data Turn : Type 0 where
  finished : LoopState → Turn
  again : LoopState → Turn
  stuck : Turn

abbrev pub new_allocation : Request → OrderInput → Time → ℕ → Allocation
new_allocation req order day qty = record {
  order_id = order.id;
  source_order_id = "";
  customer = order.customer;
  line_id = req.line_id;
  date = day;
  quantity = qty;
  priority = order.priority;
  status = order.status;
  locked = is_high order.priority;
  due_date = order.due_date;
  created_at_timestamp = order.created_at_timestamp;
}

abbrev pub place : Request → OrderInput → Time → ℕ → PlanResult → PlanResult
place req order day qty result = record {
  allocations = result.allocations ++ new_allocation req order day qty ∷ [];
  conflicts = result.conflicts;
  finish_date = if before result.finish_date day then day else result.finish_date;
}

abbrev pub book : Time → ℕ → CapacityLedger → CapacityLedger
book day qty ledger = record ledger { new_used = add_on (date_key day) qty ledger.new_used }

-- The round that uses `available > 0` of the day.
unfoldable pub allocate : Request → OrderInput → ℕ → LoopState → LoopState
unfolding add_on record_manual_force_conflict
allocate req order available s =
    let qty : ℕ = min s.remaining available in
    let out : CapacityLedger × PlanResult =
      record_manual_force_conflict req (book s.day qty s.ledger) order
        (place req order s.day qty s.result) s.day in
    record { ledger = out.0; result = out.1; remaining = s.remaining - qty; day = s.day }

abbrev pub conclude : LoopState → Option PlanResult → Turn
conclude s none = stuck
conclude s (some result) = finished (record s { result = result })

unfoldable pub plan_turn : Request → OrderInput → Time → Time → LoopState → Turn
unfolding record_late_capacity_conflict available_capacity allocate
plan_turn req order start due s =
    let available : ℕ = available_capacity req s.ledger s.day in
    if s.remaining == 0
    then finished s
    else if after s.day due && not req.allow_late_completion
    then conclude s (record_late_capacity_conflict req order start due s)
    else if available == 0
    then again (record s { day = add_days s.day 1 })
    else again (allocate req order available s)

unfoldable pub plan_loop : Request → OrderInput → Time → Time → ℕ → LoopState → Option LoopState
unfolding plan_turn
plan_loop req order start due zero s = none
plan_loop req order start due (suc fuel) s = elim (plan_turn req order start due s) [
  | finished t ↦ some t
  | again t ↦ plan_loop req order start due fuel t
  | stuck ↦ none
]

-- The errors of the source, and the fuel that ran out.
abbrev pub out_of_fuel : String
out_of_fuel = "out of fuel"

abbrev pub begin : OrderInput → CapacityLedger → PlanResult → Time → LoopState
begin order ledger result start = record {
  ledger = ledger;
  result = result;
  remaining = order.quantity;
  day = start;
}

unfoldable pub plan_order :
    Request → CapacityLedger → PlanResult → OrderInput → Result (CapacityLedger × PlanResult)
unfolding plan_loop schedule_start_date search_bound validate_order date_key
plan_order req ledger result order = do
  validate_order req.line_id order
  let start = schedule_start_date req.start_date req.current_date
  let s = begin order ledger result start
  elim (plan_loop req order start (truncate_date order.due_date)
      (search_bound ledger start order.quantity) s) [
        | none ↦ err out_of_fuel
        | some t ↦ ok (t.ledger, t.result)
      ]

unfoldable pub plan_orders :
    Request → CapacityLedger → PlanResult → List OrderInput → Result PlanResult
unfolding plan_order
plan_orders req ledger result [] = ok result
plan_orders req ledger result (order ∷ rest) =
    plan_order req ledger result order >>= λ (ledger', result').
    plan_orders req ledger' result' rest

abbrev pub empty_result : PlanResult
empty_result = record { allocations = []; conflicts = []; finish_date = zero_time }

unfoldable pub plan : Request → Result PlanResult
unfolding validate_request sorted_orders build_capacity_ledger plan_orders
plan req = do
  validate_request req
  plan_orders req (build_capacity_ledger req) empty_result (sorted_orders req.orders)
