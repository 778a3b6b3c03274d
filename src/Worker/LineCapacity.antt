-- ===== src/Worker/LineCapacity.antt =====
-- How much a schedule of a line's pending orders puts on a day.
use mathlib.Core.List.{append_assoc, append-nil}
use woms.Base.{
  ℕ, ◌+◌, ◌≤◌, ◌<◌, ◌≡◌, refl, sym, ◌∙◌, ◌⊎◌, inl, inr, false, List, [], ◌∷◌, ◌++◌, arith,
  if◌then◌else◌, Bool-cases, ltb, ◌==◌, All, sum_of, sum_of-append,
}
use woms.Clock.{Time, date_key, truncate_date, date_key-add_days}
use woms.Domain.{ScheduleJob, ScheduleAllocation}
use woms.Worker.Database.{Tables, exec, statement}
use woms.Worker.LineSchedule.{
  WorkerOrderRow, line_allocation, insert_allocation, mark_order_scheduled, next_place,
  place_orders, insert_line_schedule_allocations_tx,
}

-- The allocations that the loop inserts.
planned : ScheduleJob → ℕ → Time → ℕ → List WorkerOrderRow → List ScheduleAllocation
unfolding next_place line_allocation
planned job capacity date used [] = []
planned job capacity date used (order ∷ orders) =
    let place = next_place capacity date used order.quantity in
    line_allocation job place.0 order
    ∷ planned job capacity place.0 (place.1 + order.quantity) orders

abbrev on_day : ℕ → ScheduleAllocation → ℕ
on_day day allocation = if date_key allocation.date == day then allocation.quantity else 0

-- What the allocations put on a day.
unfoldable pub quantity_on : ℕ → List ScheduleAllocation → ℕ
unfolding sum_of date_key
quantity_on day allocations = sum_of (on_day day) allocations

place_orders-planned :
    (now : Time) (job : ScheduleJob) (capacity : ℕ) (orders : List WorkerOrderRow) (date : Time)
    (used : ℕ) (tables : Tables)
    → (place_orders now job capacity date used orders
        (record { tables = tables; aborted = false; faults = [] })).0.tables.schedule_allocations
      ≡ tables.schedule_allocations ++ planned job capacity date used orders
unfolding place_orders planned insert_allocation mark_order_scheduled exec statement
place_orders-planned now job capacity [] date used tables = sym (append-nil _)
place_orders-planned now job capacity (order ∷ orders) date used tables =
    place_orders-planned now job capacity orders _ _ _
    ∙ append_assoc tables.schedule_allocations
        (line_allocation job (next_place capacity date used order.quantity).0 order ∷ [])
        (planned job capacity (next_place capacity date used order.quantity).0
          ((next_place capacity date used order.quantity).1 + order.quantity) orders)

abbrev pub Fits : ℕ → WorkerOrderRow → Type 0
Fits capacity order = order.quantity ≤ capacity

quantity_on-cons :
    (day : ℕ) (a : ScheduleAllocation) (l : List ScheduleAllocation)
    → quantity_on day (a ∷ l)
      ≡ (if date_key a.date == day then a.quantity else 0) + quantity_on day l
unfolding quantity_on sum_of
quantity_on-cons day a l = refl

quantity_on-nil : (day : ℕ) → quantity_on day [] ≡ 0
unfolding quantity_on sum_of
quantity_on-nil day = refl

quantity_on-append :
    (day : ℕ) (l m : List ScheduleAllocation)
    → quantity_on day (l ++ m) ≡ quantity_on day l + quantity_on day m
unfolding quantity_on
quantity_on-append day l m = sum_of-append (on_day day) l m

step_fits :
    (day today next used filled quantity capacity later : ℕ)
    → ((next ≡ today) × (filled ≡ used) × (used + quantity ≤ capacity))
      ⊎ ((next ≡ today + 1) × (filled ≡ 0))
    → (if next == day then filled + quantity else 0) + later ≤ capacity
    → (next ≡ today + 1 → day ≡ today → later ≡ 0)
    → quantity ≤ capacity
    → used ≤ capacity
    → (if today == day then used else 0) + ((if next == day then quantity else 0) + later)
      ≤ capacity
step_fits day today next used filled quantity capacity later (inl (same, still, room)) rest before
      fit small =
    ground (arith, same, still, room, rest, fit, small)
step_fits day today next used filled quantity capacity later (inr (moved, empty)) rest before fit
      small =
    elim (Bool-cases (today == day)) [
      | inl is_today ↦
          ground (
            arith,
            is_today,
            moved,
            empty,
            rest,
            fit,
            small,
            before moved (ground (arith, is_today)),
          )
      | inr other ↦ ground (arith, other, moved, empty, rest, fit, small)
    ]

-- The place of an order: the same day, with room for it, or the next day, which is empty.
next_place-cases :
    (capacity : ℕ) (date : Time) (used quantity : ℕ)
    → let place = next_place capacity date used quantity in
      ((date_key place.0 ≡ date_key date) × (place.1 ≡ used) × (used + quantity ≤ capacity))
      ⊎ ((date_key place.0 ≡ date_key date + 1) × (place.1 ≡ 0))
unfolding next_place
next_place-cases capacity date used quantity = elim (Bool-cases (ltb capacity (used + quantity))) [
  | inl full ↦ rw (full, next_place) (inr (date_key-add_days date 1, refl))
  | inr room ↦ rw (room, next_place) (inl (refl, refl, ground (arith, room)))
]

planned_before :
    (job : ScheduleJob) (capacity day : ℕ) (orders : List WorkerOrderRow) (date : Time) (used : ℕ)
    → day < date_key date
    → quantity_on day (planned job capacity date used orders) ≡ 0
unfolding planned line_allocation
planned_before job capacity day [] date used early = quantity_on-nil day
planned_before job capacity day (order ∷ orders) date used early =
    let place = next_place capacity date used order.quantity in
    let later : day < date_key place.0 =
      ground (arith, early, next_place-cases capacity date used order.quantity) in
    let rest = planned_before job capacity day orders place.0 (place.1 + order.quantity) later in
    rw (quantity_on-cons day _ (planned job capacity place.0 (place.1 + order.quantity) orders))
      (ground (arith, later, rest))

planned-Fits :
    (job : ScheduleJob) (capacity day : ℕ) (orders : List WorkerOrderRow) (date : Time) (used : ℕ)
    → used ≤ capacity
    → All (Fits capacity) orders
    → (if date_key date == day then used else 0)
        + quantity_on day (planned job capacity date used orders)
      ≤ capacity
unfolding planned line_allocation
planned-Fits job capacity day [] date used room each_fits =
    rw (quantity_on-nil day) (ground (arith, room))
planned-Fits job capacity day (order ∷ orders) date used room each_fits =
    let place = next_place capacity date used order.quantity in
    let cases = next_place-cases capacity date used order.quantity in
    let small : place.1 + order.quantity ≤ capacity = ground (arith, cases, room, each_fits.0) in
    let rest =
      planned-Fits job capacity day orders place.0 (place.1 + order.quantity) small each_fits.1 in
    let before : date_key place.0 ≡ date_key date + 1
        → day ≡ date_key date
        → quantity_on day (planned job capacity place.0 (place.1 + order.quantity) orders) ≡ 0 =
      λ next today. planned_before job capacity day orders place.0 _ (omega (arith, next, today)) in
    rw (quantity_on-cons day _ (planned job capacity place.0 (place.1 + order.quantity) orders)) (
      step_fits day (date_key date) (date_key place.0) used place.1 order.quantity capacity
        (quantity_on day (planned job capacity place.0 (place.1 + order.quantity) orders)) cases
        rest before each_fits.0 room)

-- Without a fault, the schedule of a line's pending orders, none of them larger than the line's
-- capacity, adds to no day more than that capacity, on every line together.
pub insert_line_schedule_allocations_tx-le :
    (now : Time) (job : ScheduleJob) (capacity : ℕ) (orders : List WorkerOrderRow) (day : ℕ)
    (tables : Tables)
    → All (Fits capacity) orders
    → quantity_on day
        (insert_line_schedule_allocations_tx now job capacity orders
          (record { tables = tables; aborted = false; faults = [] })).0.tables.schedule_allocations
      ≤ quantity_on day tables.schedule_allocations + capacity
unfolding insert_line_schedule_allocations_tx
insert_line_schedule_allocations_tx-le now job capacity orders day tables each_fits =
    let fit = planned-Fits job capacity day orders (truncate_date now) 0 (omega arith) each_fits in
    rw
      (
        place_orders-planned now job capacity orders (truncate_date now) 0 tables,
        quantity_on-append day tables.schedule_allocations
            (planned job capacity (truncate_date now) 0 orders),
      )
      (ground (arith, fit))
