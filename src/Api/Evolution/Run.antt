-- ===== src/Api/Evolution/Run.antt =====
-- The operations as one type of internal/api/server.go, on the map of orders.
use woms.Base.{◌≡◌, refl, sym, subst, inl, inr, String, Option-cases, Bool-cases}
use woms.Base.Maps.{Map, lookup}
use woms.Base.Results.{or_fail, Result-cases}
use woms.Base.Text.{trim_space}
use woms.Domain.{User, Order, JobStatus, job_status_eq}
use woms.Api.Requests.{Claims, ScheduleRequest}
use woms.Api.State.{Env, MemoryStore, audit_locked}
use woms.Api.Users.{
  assign_user, create_user, reset_user_password, delete_user, assigned_user, created_user,
  reset_password_user, disable_user_locked, is_referenced, remove_user,
}
use woms.Api.Jobs.{
  preview_schedule, previewed, create_schedule_job, creatable_job, delete_queued_schedule_job,
  execute_schedule_job,
}
use woms.Api.Operations.{Operation, run, executed}
use woms.Api.Lifecycle.{IsKeyed, Evolves, Evolves-refl}
use woms.Api.Evolution.Frame.{committing-Evolves}
use woms.Api.Evolution.Orders.{
  update_order_due_date-Evolves, resubmit_order-Evolves, reject_orders-Evolves,
}
use woms.Api.Evolution.Cancel.{IsNextFree, create_order_locked-Evolves, cancel_orders-Evolves}
use woms.Api.Evolution.Production.{start_production-Evolves, confirm_production_order-Evolves}
use woms.Api.Evolution.Previews.{confirm_preview_order-Evolves}
use woms.Api.Evolution.Jobs.{execute_schedule_job-Evolves}

-- The operations that leave the orders alone.
preview_schedule-orders :
    (env : Env) (req : ScheduleRequest) (claims : Claims) (s : MemoryStore)
    → (preview_schedule env req claims s).0.orders ≡ s.orders
unfolding preview_schedule
preview_schedule-orders env req claims s = elim (Result-cases (previewed env req claims s)) [
  | inr (e, refused) ↦ rw (preview_schedule, refused) refl
  | inl ((dated, result), planned) ↦ rw (preview_schedule, planned) refl
]

create_schedule_job-orders :
    (env : Env) (req : ScheduleRequest) (claims : Claims) (s : MemoryStore)
    → (create_schedule_job env req claims s).0.orders ≡ s.orders
unfolding create_schedule_job audit_locked
create_schedule_job-orders env req claims s = elim (Result-cases (creatable_job env req claims s)) [
  | inr (e, refused) ↦ rw (create_schedule_job, refused) refl
  | inl ((dated, preview), valid) ↦ elim (Bool-cases dated.manual_force) [
    | inl forced ↦ rw (create_schedule_job, valid, forced) refl
    | inr free ↦ rw (create_schedule_job, valid, free) refl
  ]
]

delete_queued-orders :
    (id : String) (s : MemoryStore) → (delete_queued_schedule_job id s).orders ≡ s.orders
unfolding delete_queued_schedule_job
delete_queued-orders id s = elim (Option-cases (lookup id s.jobs)) [
  | inl missing ↦ rw (delete_queued_schedule_job, missing) refl
  | inr (job, found) ↦ elim (Bool-cases (job_status_eq job.status JobStatus.queued)) [
    | inl queued ↦ rw (delete_queued_schedule_job, found, queued) refl
    | inr other ↦ rw (delete_queued_schedule_job, found, other) refl
  ]
]

executed-Evolves :
    (env : Env) (id : String) (s : MemoryStore)
    → IsKeyed s.orders
    → Evolves s.orders (executed s (execute_schedule_job env id s)).orders
executed-Evolves env id s keyed = elim (Result-cases (execute_schedule_job env id s)) [
  | inr (e, stuck) ↦ rw stuck (Evolves-refl s.orders keyed)
  | inl ((t, job), ran) ↦ rw ran (execute_schedule_job-Evolves env id s t job keyed ran)
]

unchanged-Evolves : (m n : Map Order) → IsKeyed m → n ≡ m → Evolves m n
unchanged-Evolves m n keyed same = subst (λ k. Evolves m k) (sym same) (Evolves-refl m keyed)

remove_user-orders :
    (env : Env) (username actor : String) (user : User) (s : MemoryStore)
    → (remove_user env username actor user s).0.orders ≡ s.orders
unfolding remove_user disable_user_locked audit_locked
remove_user-orders env username actor user s = elim (Bool-cases (is_referenced actor user s)) [
  | inl referenced ↦ rw (remove_user, referenced) refl
  | inr free ↦ rw (remove_user, free) refl
]

delete_user-Evolves :
    (env : Env) (name actor : String) (s : MemoryStore)
    → IsKeyed s.orders
    → Evolves s.orders (delete_user env name actor s).0.orders
unfolding delete_user
delete_user-Evolves env name actor s keyed =
    committing-Evolves s (or_fail (lookup (trim_space name) s.users) "user not found")
      (λ user. remove_user env (trim_space name) actor user s) keyed
      λ user h.
        unchanged-Evolves s.orders _ keyed (remove_user-orders env (trim_space name) actor user s)

pub run-Evolves :
    (env : Env) (op : Operation) (s : MemoryStore)
    → IsKeyed s.orders
    → IsNextFree s
    → Evolves s.orders (run env op s).orders
unfolding run assign_user create_user reset_user_password audit_locked
run-Evolves env (Operation.create_order req actor) s keyed free =
    create_order_locked-Evolves env req actor s keyed free
run-Evolves env (Operation.update_order id req claims) s keyed free =
    update_order_due_date-Evolves env id req claims s keyed
run-Evolves env (Operation.reject req claims) s keyed free =
    reject_orders-Evolves env req claims s keyed
run-Evolves env (Operation.resubmit req claims) s keyed free =
    resubmit_order-Evolves env req claims s keyed
run-Evolves env (Operation.cancel req claims) s keyed free =
    cancel_orders-Evolves env req claims s keyed
run-Evolves env (Operation.start req claims) s keyed free =
    start_production-Evolves env req claims s keyed
run-Evolves env (Operation.confirm req claims) s keyed free =
    confirm_production_order-Evolves env req claims s keyed
run-Evolves env (Operation.preview req claims) s keyed free =
    unchanged-Evolves s.orders _ keyed (preview_schedule-orders env req claims s)
run-Evolves env (Operation.confirm_preview req claims) s keyed free =
    confirm_preview_order-Evolves env req claims s keyed free
run-Evolves env (Operation.create_job req claims) s keyed free =
    unchanged-Evolves s.orders _ keyed (create_schedule_job-orders env req claims s)
run-Evolves env (Operation.delete_queued_job id) s keyed free =
    unchanged-Evolves s.orders _ keyed (delete_queued-orders id s)
run-Evolves env (Operation.execute_job id) s keyed free = executed-Evolves env id s keyed
run-Evolves env (Operation.assign req actor) s keyed free =
    committing-Evolves s (assigned_user req s) _ keyed λ user h. Evolves-refl s.orders keyed
run-Evolves env (Operation.create_account req actor) s keyed free =
    committing-Evolves s (created_user env req s) _ keyed λ user h. Evolves-refl s.orders keyed
run-Evolves env (Operation.reset_password req actor) s keyed free =
    committing-Evolves s (reset_password_user env req s) _ keyed
      λ user h. Evolves-refl s.orders keyed
run-Evolves env (Operation.delete_account name actor) s keyed free =
    delete_user-Evolves env name actor s keyed
