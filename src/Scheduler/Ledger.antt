-- ===== src/Scheduler/Ledger.antt =====
-- `capacityLedger` of internal/scheduler/scheduler.go and what reads it. Its maps are keyed by days.
use woms.Base.{
  ℕ, ◌+◌, ◌-◌, ◌||◌, List, [], ◌∷◌, ◌++◌, String, ◌==◌, str_eq, not, contains, if◌then◌else◌,
}
use woms.Clock.{Time, date_key}
use woms.Domain.{is_high}
use woms.Scheduler.Types.{ExistingAllocation, Request}

-- `map[string]int`: a day that is missing has 0.
abbrev pub DayTotals : Type 0
DayTotals = List (ℕ × ℕ)

unfoldable pub total_on : ℕ → DayTotals → ℕ
total_on key [] = 0
total_on key ((k, n) ∷ m) = if k == key then n else total_on key m

-- `m[key] += n`
unfoldable pub add_on : ℕ → ℕ → DayTotals → DayTotals
add_on key n [] = (key, n) ∷ []
add_on key n ((k, m) ∷ rest) = if k == key then (k, m + n) ∷ rest else (k, m) ∷ add_on key n rest

-- `map[string][]string`: a day that is missing has no orders.
abbrev pub DayOrders : Type 0
DayOrders = List (ℕ × List String)

unfoldable pub orders_on : ℕ → DayOrders → List String
orders_on key [] = []
orders_on key ((k, ids) ∷ m) = if k == key then ids else orders_on key m

unfoldable pub append_unique : List String → String → List String
unfolding contains
append_unique values value =
    if str_eq value ""
    then values
    else if contains values value
    then values
    else values ++ value ∷ []

unfoldable pub append_unique_many : List String → List String → List String
append_unique_many values [] = values
append_unique_many values (value ∷ additions) =
    append_unique_many (append_unique values value) additions

-- `m[key] = appendUnique(m[key], id)`
unfoldable pub note_order : ℕ → String → DayOrders → DayOrders
unfolding append_unique
note_order key id [] = (key, append_unique [] id) ∷ []
note_order key id ((k, ids) ∷ m) =
    if k == key then (k, append_unique ids id) ∷ m else (k, ids) ∷ note_order key id m

pub record CapacityLedger : Type 0 where
  pub high_used : DayTotals
  pub low_used : DayTotals
  pub new_used : DayTotals
  pub low_by_date : DayOrders
  pub locked_by_date : DayOrders
  -- The keys `order.ID + "@" + date` that are set.
  pub reported_manual_force_conflicts : List (String × ℕ)

abbrev pub empty_ledger : CapacityLedger
empty_ledger = record {
  high_used = [];
  low_used = [];
  new_used = [];
  low_by_date = [];
  locked_by_date = [];
  reported_manual_force_conflicts = [];
}

-- The body of the loop of `buildCapacityLedger`.
unfoldable pub enter_allocation : Request → CapacityLedger → ExistingAllocation → CapacityLedger
unfolding note_order add_on date_key
enter_allocation req ledger allocation =
    let key : ℕ = date_key allocation.date in
    let id : String = allocation.order_id in
    if not (str_eq allocation.line_id req.line_id)
    then ledger
    else if req.manual_force
    then if is_high allocation.priority || allocation.locked
      then record ledger { locked_by_date = note_order key id ledger.locked_by_date }
      else record ledger { low_by_date = note_order key id ledger.low_by_date }
    else if allocation.locked
    then record ledger {
      high_used = add_on key allocation.quantity ledger.high_used;
      locked_by_date = note_order key id ledger.locked_by_date;
    }
    else record ledger {
      low_used = add_on key allocation.quantity ledger.low_used;
      low_by_date = note_order key id ledger.low_by_date;
    }

unfoldable pub enter_allocations :
    Request → CapacityLedger → List ExistingAllocation → CapacityLedger
unfolding enter_allocation
enter_allocations req ledger [] = ledger
enter_allocations req ledger (a ∷ rest) = enter_allocations req (enter_allocation req ledger a) rest

unfoldable pub build_capacity_ledger : Request → CapacityLedger
unfolding enter_allocations
build_capacity_ledger req = enter_allocations req empty_ledger req.existing_allocations

unfoldable pub used_on : Request → CapacityLedger → ℕ → ℕ
unfolding total_on
used_on req ledger key =
    total_on key ledger.high_used
    + total_on key ledger.new_used
    + (if req.manual_force then 0 else total_on key ledger.low_used)

-- The difference may be negative in the source, which tests it for `<= 0` only: here it stops at 0.
unfoldable pub available_capacity : Request → CapacityLedger → Time → ℕ
unfolding used_on
available_capacity req ledger day = req.capacity_per_day - used_on req ledger (date_key day)
