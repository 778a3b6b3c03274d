-- ===== src/Api/Allocations.antt =====
-- The operations of internal/api/server.go on the list of allocations.
use woms.Base.{
  Bool, true, false, ◌||◌, ◌&&◌, not, List, [], ◌∷◌, ◌++◌, Option, none, some, String, str_eq, keep,
  any_of, contains, map, ◌==◌, if◌then◌else◌, is_empty,
}
use woms.Base.Maps.{lookup}
use woms.Clock.{Time, truncate_date}
use woms.Domain.{ScheduleAllocation, OrderStatus, status_eq, is_low}
use woms.Scheduler.Types.{Allocation}
use woms.Api.State.{Env, MemoryStore, put_order}

unfoldable pub remove_allocations_locked : String → MemoryStore → MemoryStore
unfolding keep
remove_allocations_locked order_id s = record s {
  allocations = keep (λ a. not (str_eq a.order_id order_id)) s.allocations;
}

abbrev pub is_open : ScheduleAllocation → Bool
is_open a = not (status_eq a.status OrderStatus.completed)

unfoldable pub remove_open_allocations_for_orders_locked : List String → MemoryStore → MemoryStore
unfolding keep contains
remove_open_allocations_for_orders_locked order_ids s = if is_empty order_ids then s else record s {
  allocations = keep (λ a. not (contains order_ids a.order_id && is_open a)) s.allocations;
}

-- The loop of `canMoveScheduledOrderLocked`.
unfoldable pub movable : String → List ScheduleAllocation → Bool → Bool
movable order_id [] has_open = has_open
movable order_id (a ∷ rest) has_open =
    let ours : Bool = str_eq a.order_id order_id in
    let later : Bool = movable order_id rest (has_open || ours) in
    if ours
      && (a.locked
          || status_eq a.status OrderStatus.in_progress
          || status_eq a.status OrderStatus.completed)
    then false
    else later

unfoldable pub can_move_scheduled_order_locked : String → MemoryStore → Bool
unfolding movable
can_move_scheduled_order_locked order_id s = elim (lookup order_id s.orders) [
  | none ↦ false
  | some order ↦
      status_eq order.status OrderStatus.scheduled
      && is_low order.priority
      && movable order_id s.allocations false
]

abbrev pub is_production : String → Time → ScheduleAllocation → Bool
is_production order_id date a = str_eq a.order_id order_id && truncate_date a.date == date

-- The loop of `productionAllocationLocked`: `completed` is the last completed one of the day so far.
unfoldable pub production_loop :
    String → Time → Option ScheduleAllocation → List ScheduleAllocation → Option ScheduleAllocation
production_loop order_id date none [] = none
production_loop order_id date (some a) [] = if str_eq a.order_id "" then none else some a
production_loop order_id date completed (a ∷ rest) =
    let later : Option ScheduleAllocation =
      production_loop order_id date
        (if is_production order_id date a && not (is_open a) then some a else completed) rest in
    if is_production order_id date a && is_open a then some a else later

unfoldable pub production_allocation_locked :
    String → Time → MemoryStore → Option ScheduleAllocation
unfolding production_loop
production_allocation_locked order_id production_date s =
    production_loop order_id (truncate_date production_date) none s.allocations

unfoldable pub complete_first : String → Time → List ScheduleAllocation → List ScheduleAllocation
complete_first order_id date [] = []
complete_first order_id date (a ∷ rest) =
    if is_production order_id date a && is_open a
    then record a { locked = true; status = OrderStatus.completed } ∷ rest
    else a ∷ complete_first order_id date rest

unfoldable pub complete_production_allocation_locked : String → Time → MemoryStore → MemoryStore
unfolding complete_first
complete_production_allocation_locked order_id production_date s = record s {
  allocations = complete_first order_id (truncate_date production_date) s.allocations;
}

-- What the loop of `replaceOrderAllocationsWithCompletedLocked` keeps, and what it completes.
abbrev pub is_kept : String → ScheduleAllocation → Bool
is_kept order_id a = not (str_eq a.order_id order_id) || not (is_open a)

unfoldable pub first_completed : String → Time → List ScheduleAllocation → List ScheduleAllocation
first_completed order_id date [] = []
first_completed order_id date (a ∷ rest) =
    let later : List ScheduleAllocation = first_completed order_id date rest in
    if is_production order_id date a && is_open a
    then record a { locked = true; status = OrderStatus.completed } ∷ []
    else later

unfoldable pub replace_order_allocations_with_completed_locked :
    String → Time → MemoryStore → MemoryStore
unfolding first_completed keep
replace_order_allocations_with_completed_locked order_id production_date s = record s {
  allocations =
      keep (is_kept order_id) s.allocations
      ++ (if str_eq order_id ""
          then []
          else first_completed order_id (truncate_date production_date) s.allocations);
}

unfoldable pub has_allocation_locked : String → MemoryStore → Bool
unfolding any_of
has_allocation_locked order_id s =
    any_of (λ a. str_eq a.order_id order_id && is_open a) s.allocations

abbrev pub start_allocation : String → ScheduleAllocation → ScheduleAllocation
start_allocation order_id a =
    if str_eq a.order_id order_id && is_open a
    then record a { locked = true; status = OrderStatus.in_progress }
    else a

unfoldable pub lock_allocations_locked : String → MemoryStore → MemoryStore
lock_allocations_locked order_id s = record s {
  allocations = map (start_allocation order_id) s.allocations;
}

unfoldable pub append_allocation_and_mark_order_scheduled_locked :
    Env → Allocation → MemoryStore → MemoryStore
append_allocation_and_mark_order_scheduled_locked env a s =
    let appended : MemoryStore = record s {
      allocations =
          s.allocations
          ++ record {
            order_id = a.order_id;
            line_id = a.line_id;
            date = truncate_date a.date;
            quantity = a.quantity;
            priority = a.priority;
            locked = a.locked;
            status = OrderStatus.scheduled;
          }
            ∷ [];
    } in
    elim (lookup a.order_id s.orders) [
      | none ↦ appended
      | some order ↦
          if status_eq order.status OrderStatus.pending
          then put_order (record order { status = OrderStatus.scheduled; updated_at = env.now })
              appended
          else appended
    ]
