-- ===== src/Worker/Persisting.antt =====
-- What the two ways of persisting a job may do to the tables.
use woms.Base.{
  ℕ, Bool, true, false, refl, List, [], ◌∷◌, Option, none, some, String, if◌then◌else◌, ◌||◌,
  str_eq, keep,
}
use woms.Base.Maps.{Map}
use woms.Clock.{Time}
use woms.Domain.{ScheduleJob}
use woms.Scheduler.Types.{Allocation}
use woms.Worker.Database.{stale_schedule_data, Outcome}
use woms.Worker.Effects.{
  Reads, Writes, Persists, pure-Reads, fail-Reads, query-Reads, exec-Writes, pure-Writes,
  bind-Reads, bind-Writes, bind-Persists, Writes-Persists, Reads-Persists, each-Writes, if-Reads,
}
use woms.Worker.LineSchedule.{
  WorkerOrderRow, load_pending_orders_for_line_tx, lock_production_line_for_schedule_tx,
  validate_job_line_revision, insert_allocation, mark_order_scheduled, place_orders,
  insert_line_schedule_allocations_tx, bump_schedule_revision, persist_orders,
  persist_line_schedule,
}
use woms.Worker.PreviewSchedule.{
  load_preview_allocations_tx, line_revision_tx, check_preview_revision,
  validate_preview_revision_tx, validate_preview_allocation_line, ids_or_stale, set_quantity,
  shrink_to, shrink_source, is_split, source_first_quantities, insert_split,
  prepare_split_preview_orders_tx, delete_open_allocations, replace_preview_allocations_tx,
  mark_pending_scheduled, mark_preview_orders_scheduled_tx, persist_allocations,
  persist_preview_allocations,
}
use woms.Worker.JobRun.{WorkerEnv, persist}

validate_job_line_revision-Reads :
    (job : ScheduleJob) (revision : ℕ) → Reads (validate_job_line_revision job revision)
unfolding validate_job_line_revision
validate_job_line_revision-Reads job revision =
    if-Reads _ (fail-Reads stale_schedule_data) (pure-Reads tt)

insert_allocation-Writes : (a : _) → Writes (insert_allocation a)
unfolding insert_allocation
insert_allocation-Writes a = exec-Writes _ (λ t. refl)

mark_order_scheduled-Writes :
    (now : Time) (order_id : String) → Writes (mark_order_scheduled now order_id)
unfolding mark_order_scheduled
mark_order_scheduled-Writes now order_id = exec-Writes _ (λ t. refl)

place_orders-Writes :
    (now : Time) (job : ScheduleJob) (capacity : ℕ) (orders : List WorkerOrderRow) (date : Time)
    (used : ℕ)
    → Writes (place_orders now job capacity date used orders)
unfolding place_orders
place_orders-Writes now job capacity [] date used = pure-Writes tt
place_orders-Writes now job capacity (order ∷ orders) date used =
    bind-Writes (insert_allocation-Writes _) (λ a.
      bind-Writes (mark_order_scheduled-Writes now order.id)
        (λ b. place_orders-Writes now job capacity orders _ _))

bump_schedule_revision-Writes : (line_id : String) → Writes (bump_schedule_revision line_id)
unfolding bump_schedule_revision
bump_schedule_revision-Writes line_id = exec-Writes _ (λ t. refl)

persist_orders-Persists :
    (now : Time) (job : ScheduleJob) (orders : List WorkerOrderRow)
    → Persists (persist_orders now job orders)
unfolding persist_orders lock_production_line_for_schedule_tx insert_line_schedule_allocations_tx
persist_orders-Persists now job [] = Reads-Persists (pure-Reads tt)
persist_orders-Persists now job (order ∷ orders) = bind-Persists (query-Reads _) (λ line.
    bind-Persists (validate_job_line_revision-Reads job line.1) (λ valid. Writes-Persists (
      bind-Writes (place_orders-Writes now job line.0 (order ∷ orders) _ 0)
        (λ placed. bump_schedule_revision-Writes job.line_id))))

persist_line_schedule-Persists :
    (now : Time) (job : ScheduleJob) → Persists (persist_line_schedule now job)
unfolding persist_line_schedule load_pending_orders_for_line_tx
persist_line_schedule-Persists now job =
    bind-Persists (query-Reads _) (λ orders. persist_orders-Persists now job orders)

check_preview_revision-Reads :
    (job : ScheduleJob) (preview_revision current_revision : ℕ)
    → Reads (check_preview_revision job preview_revision current_revision)
unfolding check_preview_revision
check_preview_revision-Reads job preview_revision current_revision =
    if-Reads _ (fail-Reads stale_schedule_data) (pure-Reads tt)

ids_or_stale-Reads : (order_ids : Option (Map Bool)) → Reads (ids_or_stale order_ids)
ids_or_stale-Reads none = fail-Reads stale_schedule_data
ids_or_stale-Reads (some order_ids) = pure-Reads _

validate_preview_allocation_line-Reads :
    (allocations : List Allocation) (line_id : String)
    → Reads (validate_preview_allocation_line allocations line_id)
unfolding validate_preview_allocation_line
validate_preview_allocation_line-Reads allocations line_id = ids_or_stale-Reads _

shrink_to-Writes :
    (now : Time) (order_id : String) (quantity : Option ℕ)
    → Writes (shrink_to now order_id quantity)
unfolding set_quantity
shrink_to-Writes now order_id none = pure-Writes tt
shrink_to-Writes now order_id (some quantity) = exec-Writes _ (λ t. refl)

shrink_source-Writes :
    (now : Time) (quantities : Map ℕ) (allocation : Allocation)
    → Writes (shrink_source now quantities allocation)
unfolding shrink_source
shrink_source-Writes now quantities allocation = shrink_to-Writes now _ _

insert_split-Writes : (now : Time) (allocation : Allocation) → Writes (insert_split now allocation)
unfolding insert_split
insert_split-Writes now allocation = exec-Writes _ (λ t. refl)

prepare-Writes :
    (now : Time) (allocations : List Allocation)
    → Writes (prepare_split_preview_orders_tx now allocations)
unfolding prepare_split_preview_orders_tx
prepare-Writes now allocations = each-Writes _ (keep is_split allocations) (λ (a : Allocation).
    bind-Writes (shrink_source-Writes now (source_first_quantities allocations []) a)
      (λ shrunk. insert_split-Writes now a))

delete_open_allocations-Writes : (order_id : String) → Writes (delete_open_allocations order_id)
unfolding delete_open_allocations
delete_open_allocations-Writes order_id = exec-Writes _ (λ t. refl)

replace-Writes :
    (order_ids : List String) (allocations : List Allocation)
    → Writes (replace_preview_allocations_tx order_ids allocations)
unfolding replace_preview_allocations_tx
replace-Writes order_ids allocations =
    bind-Writes (each-Writes _ order_ids delete_open_allocations-Writes)
      (λ gone. each-Writes _ allocations (λ a. insert_allocation-Writes _))

mark_pending_scheduled-Writes :
    (now : Time) (order_id : String) → Writes (mark_pending_scheduled now order_id)
unfolding mark_pending_scheduled
mark_pending_scheduled-Writes now order_id = exec-Writes _ (λ t. refl)

mark_preview-Writes :
    (now : Time) (order_ids : List String) → Writes (mark_preview_orders_scheduled_tx now order_ids)
unfolding mark_preview_orders_scheduled_tx
mark_preview-Writes now order_ids = each-Writes _ order_ids (mark_pending_scheduled-Writes now)

persist_allocations-Persists :
    (now : Time) (job : ScheduleJob) (allocations : List Allocation)
    → Persists (persist_allocations now job allocations)
unfolding persist_allocations
persist_allocations-Persists now job [] = Reads-Persists (pure-Reads tt)
persist_allocations-Persists now job (a ∷ allocations) =
    bind-Persists (validate_preview_allocation_line-Reads (a ∷ allocations) job.line_id)
      (λ order_ids. Writes-Persists (
        bind-Writes (prepare-Writes now (a ∷ allocations)) (λ prepared.
          bind-Writes (replace-Writes order_ids (a ∷ allocations)) (λ replaced.
            bind-Writes (mark_preview-Writes now order_ids)
              (λ marked. bump_schedule_revision-Writes job.line_id)))))

persist_preview_allocations-Persists :
    (unmarshal : String → Outcome (List Allocation)) (now : Time) (job : ScheduleJob)
    → Persists (persist_preview_allocations unmarshal now job)
unfolding persist_preview_allocations load_preview_allocations_tx validate_preview_revision_tx
    line_revision_tx
persist_preview_allocations-Persists unmarshal now job = bind-Persists (query-Reads _) (λ loaded.
    bind-Persists
      (bind-Reads (query-Reads _) (λ current. check_preview_revision-Reads job loaded.0 current))
      (λ valid. persist_allocations-Persists now job loaded.1))

pub persist-Persists : (env : WorkerEnv) (job : ScheduleJob) → Persists (persist env job)
unfolding persist
persist-Persists env job =
    elim (str_eq job.source "hpa-peak-demo" || str_eq job.preview_id "")
      as (λ test. Persists (
        if test
        then persist_line_schedule env.now job
        else persist_preview_allocations env.unmarshal_allocations env.now job)) [
          | true ↦ persist_line_schedule-Persists env.now job
          | false ↦ persist_preview_allocations-Persists env.unmarshal_allocations env.now job
        ]
