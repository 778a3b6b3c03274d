-- ===== src/Worker/PreviewSchedule.antt =====
-- `persistPreviewAllocations` of cmd/scheduler-worker/main.go: the allocations of a confirmed preview
-- replace those of its orders. A Go map of order IDs ranges here in the order of its list. The
-- decoder of a JSON column is a parameter.
use woms.Base.{
  ℕ, Bool, true, ◌&&◌, ◌||◌, not, List, [], ◌∷◌, Option, none, some, String, str_eq, if◌then◌else◌,
  keep, ltb, ◌==◌,
}
use woms.Base.Maps.{Map, lookup, insert, has}
use woms.Clock.{Time, truncate_date, zero_time}
use woms.Domain.{Order, OrderStatus, ScheduleJob, ScheduleAllocation, status_eq}
use woms.Scheduler.Types.{Allocation}
use woms.Worker.Database.{
  Tables, stale_schedule_data, Outcome, done, failed, Action, Done, ◌>>=◌, ◌>>◌, pure, fail, query,
  exec, each, no_rows, update_row,
}
use woms.Worker.LineSchedule.{insert_allocation, bump_schedule_revision}

module _ (unmarshal_allocations : String → Outcome (List Allocation)) where
  -- The row's revision and its allocations, decoded.
  unfoldable pub load_preview_allocations_tx : Time → ScheduleJob → Action (ℕ × List Allocation)
  unfolding query lookup
  load_preview_allocations_tx now job = query (λ (t : Tables).
      elim (lookup job.preview_id t.schedule_previews) [
        | none ↦ failed stale_schedule_data
        | some row ↦
            if str_eq row.line_id job.line_id && ltb now row.expires_at
            then elim (unmarshal_allocations row.allocations) [
              | failed e ↦ failed e
              | done allocations ↦ done (row.line_revision, allocations)
            ]
            else failed stale_schedule_data
      ])

-- The query of the line's revision.
unfoldable pub line_revision_tx : String → Action ℕ
unfolding query lookup
line_revision_tx line_id = query (λ (t : Tables). elim (lookup line_id t.production_lines) [
  | none ↦ failed no_rows
  | some line ↦ done line.schedule_revision
])

unfoldable pub check_preview_revision : ScheduleJob → ℕ → ℕ → Action Done
check_preview_revision job preview_revision current_revision =
    if not (current_revision == preview_revision)
      || not (job.line_revision == 0) && not (job.line_revision == preview_revision)
    then fail stale_schedule_data
    else pure tt

unfoldable pub validate_preview_revision_tx : ScheduleJob → ℕ → Action Done
unfolding line_revision_tx check_preview_revision
validate_preview_revision_tx job preview_revision = do
  current_revision ← line_revision_tx job.line_id
  check_preview_revision job preview_revision current_revision

-- `none` for an allocation of another line; else the IDs, without repetition.
unfoldable pub preview_order_ids : List Allocation → String → Map Bool → Option (Map Bool)
unfolding insert
preview_order_ids [] line_id order_ids = some order_ids
preview_order_ids (allocation ∷ allocations) line_id order_ids =
    let rest : Option (Map Bool) =
      preview_order_ids allocations line_id (insert allocation.order_id true order_ids) in
    if str_eq allocation.line_id line_id then rest else none

abbrev keys : Map Bool → List String
keys [] = []
keys ((key, value) ∷ rest) = key ∷ keys rest

abbrev pub ids_or_stale : Option (Map Bool) → Action (List String)
ids_or_stale none = fail stale_schedule_data
ids_or_stale (some order_ids) = pure (keys order_ids)

unfoldable pub validate_preview_allocation_line : List Allocation → String → Action (List String)
unfolding preview_order_ids
validate_preview_allocation_line allocations line_id =
    ids_or_stale (preview_order_ids allocations line_id [])

-- The first quantity of each order that the preview does not split off.
unfoldable pub source_first_quantities : List Allocation → Map ℕ → Map ℕ
unfolding insert has
source_first_quantities [] quantities = quantities
source_first_quantities (allocation ∷ allocations) quantities =
    source_first_quantities allocations (
      if str_eq allocation.source_order_id "" && not (has allocation.order_id quantities)
      then insert allocation.order_id allocation.quantity quantities
      else quantities)

abbrev pub is_split : Allocation → Bool
is_split allocation = not (str_eq allocation.source_order_id "")

unfoldable pub set_quantity : Time → String → ℕ → Action Done
unfolding exec update_row
set_quantity now order_id quantity = exec (λ (t : Tables). record t {
  orders =
      update_row order_id
        (λ (order : Order). record order { quantity = quantity; updated_at = now }) t.orders;
})

-- The source of a split that the preview plans too keeps its first quantity.
abbrev pub shrink_to : Time → String → Option ℕ → Action Done
shrink_to now order_id none = pure tt
shrink_to now order_id (some first_quantity) = set_quantity now order_id first_quantity

unfoldable pub shrink_source : Time → Map ℕ → Allocation → Action Done
unfolding set_quantity lookup
shrink_source now quantities allocation =
    shrink_to now allocation.source_order_id (lookup allocation.source_order_id quantities)

-- `INSERT … SELECT … FROM orders WHERE id = $3 ON CONFLICT (id) DO NOTHING`
unfoldable pub split_off_order : Time → Allocation → Map Order → Map Order
unfolding lookup insert has
split_off_order now allocation orders = elim (lookup allocation.source_order_id orders) [
  | none ↦ orders
  | some source ↦
      if has allocation.order_id orders
      then orders
      else insert allocation.order_id
          (record source {
            id = allocation.order_id;
            quantity = allocation.quantity;
            status = OrderStatus.pending;
            source_order = allocation.source_order_id;
            rejection_reason = "";
            rejected_by = "";
            rejected_at = zero_time;
            created_at = now;
            updated_at = now;
          })
          orders
]

unfoldable pub insert_split : Time → Allocation → Action Done
unfolding exec split_off_order
insert_split now allocation =
    exec (λ (t : Tables). record t { orders = split_off_order now allocation t.orders })

unfoldable pub prepare_split_preview_orders_tx : Time → List Allocation → Action Done
unfolding each keep source_first_quantities shrink_source insert_split
prepare_split_preview_orders_tx now allocations =
    each
      (λ (allocation : Allocation).
        shrink_source now (source_first_quantities allocations []) allocation
        >> insert_split now allocation)
      (keep is_split allocations)

-- `DELETE … WHERE order_id = $1 AND COALESCE(status, '已排程') <> '已完成'`
abbrev outlives : String → ScheduleAllocation → Bool
outlives order_id allocation =
    not (str_eq allocation.order_id order_id) || status_eq allocation.status OrderStatus.completed

unfoldable pub delete_open_allocations : String → Action Done
unfolding exec keep
delete_open_allocations order_id = exec (λ (t : Tables). record t {
  schedule_allocations = keep (outlives order_id) t.schedule_allocations;
})

unfoldable pub preview_allocation : Allocation → ScheduleAllocation
unfolding truncate_date
preview_allocation allocation = record {
  order_id = allocation.order_id;
  line_id = allocation.line_id;
  date = truncate_date allocation.date;
  quantity = allocation.quantity;
  priority = allocation.priority;
  locked = allocation.locked;
  status = OrderStatus.scheduled;
}

unfoldable pub replace_preview_allocations_tx : List String → List Allocation → Action Done
unfolding each delete_open_allocations insert_allocation preview_allocation
replace_preview_allocations_tx order_ids allocations = do
  each delete_open_allocations order_ids
  each (λ (allocation : Allocation). insert_allocation (preview_allocation allocation)) allocations

unfoldable pub mark_pending_scheduled : Time → String → Action Done
unfolding exec update_row
mark_pending_scheduled now order_id = exec (λ (t : Tables). record t {
  orders =
      update_row order_id
        (λ (order : Order).
          if status_eq order.status OrderStatus.pending
          then record order { status = OrderStatus.scheduled; updated_at = now }
          else order)
        t.orders;
})

unfoldable pub mark_preview_orders_scheduled_tx : Time → List String → Action Done
unfolding each mark_pending_scheduled
mark_preview_orders_scheduled_tx now order_ids = each (mark_pending_scheduled now) order_ids

-- The part behind the check that there is an allocation.
unfoldable pub persist_allocations : Time → ScheduleJob → List Allocation → Action Done
unfolding validate_preview_allocation_line prepare_split_preview_orders_tx
    replace_preview_allocations_tx mark_preview_orders_scheduled_tx bump_schedule_revision
persist_allocations now job [] = pure tt
persist_allocations now job (allocation ∷ allocations) = do
  order_ids ← validate_preview_allocation_line (allocation ∷ allocations) job.line_id
  prepare_split_preview_orders_tx now (allocation ∷ allocations)
  replace_preview_allocations_tx order_ids (allocation ∷ allocations)
  mark_preview_orders_scheduled_tx now order_ids
  bump_schedule_revision job.line_id

module _ (unmarshal_allocations : String → Outcome (List Allocation)) where
  unfoldable pub persist_preview_allocations : Time → ScheduleJob → Action Done
  unfolding load_preview_allocations_tx validate_preview_revision_tx persist_allocations
  persist_preview_allocations now job = do
    loaded ← load_preview_allocations_tx unmarshal_allocations now job
    validate_preview_revision_tx job loaded.0
    persist_allocations now job loaded.1
