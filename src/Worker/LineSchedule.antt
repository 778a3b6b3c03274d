-- ===== src/Worker/LineSchedule.antt =====
-- `persistLineSchedule` of cmd/scheduler-worker/main.go: the pending orders of a line are put on the
-- days from today on, each day up to the line's capacity.
use woms.Base.{
  ℕ, suc, ◌+◌, Bool, true, false, ◌&&◌, ◌||◌, not, List, [], ◌∷◌, ◌++◌, none, some, String, str_eq,
  str_lt, if◌then◌else◌, keep, map, ltb, ◌==◌, contains, is_empty,
}
use woms.Base.Maps.{lookup, values}
use woms.Clock.{Time, add_days, truncate_date, before}
use woms.Domain.{
  Priority, Order, OrderStatus, ScheduleJob, ScheduleAllocation, ProductionLine, is_high, status_eq,
}
use woms.Scheduler.Sorting.{stable_sort}
use woms.Worker.Database.{
  Tables, stale_schedule_data, done, failed, Action, Done, ◌>>=◌, ◌>>◌, pure, fail, query, exec,
  no_rows, update_row,
}

pub record WorkerOrderRow : Type 0 where
  pub id : String
  pub quantity : ℕ
  pub priority : Priority

-- `ORDER BY CASE WHEN priority = 'high' THEN 0 ELSE 1 END, due_date, created_at, id`
unfoldable pub pending_order_less : Order → Order → Bool
pending_order_less a b =
    if is_high a.priority && not (is_high b.priority)
    then true
    else if is_high b.priority && not (is_high a.priority)
    then false
    else if not (a.due_date == b.due_date)
    then before a.due_date b.due_date
    else if not (a.created_at == b.created_at)
    then before a.created_at b.created_at
    else str_lt a.id b.id

abbrev is_pending_on : String → Order → Bool
is_pending_on line_id order =
    str_eq order.line_id line_id && status_eq order.status OrderStatus.pending

abbrev to_row : Order → WorkerOrderRow
to_row order = record { id = order.id; quantity = order.quantity; priority = order.priority }

unfoldable pub load_pending_orders_for_line_tx : String → List String → Action (List WorkerOrderRow)
unfolding query stable_sort pending_order_less keep contains
load_pending_orders_for_line_tx line_id selected_ids = query (λ (t : Tables). done (
    keep (λ (row : WorkerOrderRow). is_empty selected_ids || contains selected_ids row.id)
      (map to_row
        (stable_sort pending_order_less (keep (is_pending_on line_id) (values t.orders))))))

unfoldable pub lock_production_line_for_schedule_tx : String → Action (ℕ × ℕ)
unfolding query lookup
lock_production_line_for_schedule_tx line_id = query (λ (t : Tables).
    elim (lookup line_id t.production_lines) [
      | none ↦ failed no_rows
      | some line ↦ done (line.capacity_per_day, line.schedule_revision)
    ])

unfoldable pub validate_job_line_revision : ScheduleJob → ℕ → Action Done
validate_job_line_revision job revision =
    if not (str_eq job.source "hpa-peak-demo")
      && not (job.line_revision == 0)
      && not (revision == job.line_revision)
    then fail stale_schedule_data
    else pure tt

unfoldable pub line_allocation : ScheduleJob → Time → WorkerOrderRow → ScheduleAllocation
line_allocation job date order = record {
  order_id = order.id;
  line_id = job.line_id;
  date = date;
  quantity = order.quantity;
  priority = order.priority;
  locked = false;
  status = OrderStatus.scheduled;
}

unfoldable pub insert_allocation : ScheduleAllocation → Action Done
unfolding exec
insert_allocation allocation =
    exec (λ (t : Tables). record t {
      schedule_allocations = t.schedule_allocations ++ allocation ∷ [];
    })

unfoldable pub mark_order_scheduled : Time → String → Action Done
unfolding exec update_row
mark_order_scheduled now order_id = exec (λ (t : Tables). record t {
  orders =
      update_row order_id
        (λ (order : Order). record order { status = OrderStatus.scheduled; updated_at = now })
        t.orders;
})

-- The day and the quantity used on it when the next order is put: a day that would be overfilled is
-- left.
unfoldable pub next_place : ℕ → Time → ℕ → ℕ → Time × ℕ
unfolding add_days
next_place capacity schedule_date used quantity =
    if ltb capacity (used + quantity) then (add_days schedule_date 1, 0) else (schedule_date, used)

module _ (now : Time) (job : ScheduleJob) (capacity : ℕ) where
  -- The loop, from a day and what is used of it.
  unfoldable pub place_orders : Time → ℕ → List WorkerOrderRow → Action Done
  unfolding next_place insert_allocation mark_order_scheduled line_allocation
  place_orders schedule_date used [] = pure tt
  place_orders schedule_date used (order ∷ orders) =
      let place = next_place capacity schedule_date used order.quantity in
      insert_allocation (line_allocation job place.0 order)
      >> (mark_order_scheduled now order.id
          >> place_orders place.0 (place.1 + order.quantity) orders)

  unfoldable pub insert_line_schedule_allocations_tx : List WorkerOrderRow → Action Done
  unfolding place_orders truncate_date
  insert_line_schedule_allocations_tx orders = place_orders (truncate_date now) 0 orders

unfoldable pub bump_schedule_revision : String → Action Done
unfolding exec update_row
bump_schedule_revision line_id = exec (λ (t : Tables). record t {
  production_lines =
      update_row line_id
        (λ (line : ProductionLine). record line { schedule_revision = suc line.schedule_revision })
        t.production_lines;
})

-- The part behind the check that there is an order.
unfoldable pub persist_orders : Time → ScheduleJob → List WorkerOrderRow → Action Done
unfolding lock_production_line_for_schedule_tx validate_job_line_revision bump_schedule_revision
    insert_line_schedule_allocations_tx
persist_orders now job [] = pure tt
persist_orders now job (order ∷ orders) = do
  line ← lock_production_line_for_schedule_tx job.line_id
  validate_job_line_revision job line.1
  insert_line_schedule_allocations_tx now job line.0 (order ∷ orders)
  bump_schedule_revision job.line_id

unfoldable pub persist_line_schedule : Time → ScheduleJob → Action Done
unfolding load_pending_orders_for_line_tx persist_orders
persist_line_schedule now job = do
  orders ← load_pending_orders_for_line_tx job.line_id job.order_ids
  persist_orders now job orders
