-- ===== src/Api/Operations.antt =====
-- The operations of `MemoryStore` in internal/api/server.go that change the state, as one type: those on
-- orders, production, schedules and accounts, and with them those of the demonstrations.
use woms.Base.{String}
use woms.Base.Results.{Result, ok, err}
use woms.Api.Requests.{
  Claims, CreateOrderRequest, UpdateOrderRequest, RejectOrdersRequest, ResubmitOrderRequest,
  CancelOrdersRequest, AssignUserRequest, CreateUserRequest, ResetUserPasswordRequest,
  ConfirmPreviewRequest, ScheduleRequest, ProductionStartRequest, ProductionConfirmRequest,
}
use woms.Api.State.{Env, MemoryStore}
use woms.Api.Orders.{
  create_order_locked, update_order_due_date, reject_orders, resubmit_order, cancel_orders,
}
use woms.Api.Users.{assign_user, create_user, reset_user_password, delete_user}
use woms.Api.Production.{start_production, confirm_production_order}
use woms.Api.Demo.{DemoConflictRequest, create_demo_conflict_orders}
use woms.Api.HpaSummary.{create_hpa_peak_demo, clear_hpa_peak_demo}
use woms.Api.Jobs.{
  preview_schedule, create_schedule_job, delete_queued_schedule_job, execute_schedule_job,
}
use woms.Api.Previews.{confirm_preview_order}

pub data Operation : Type 0 where
  create_order : CreateOrderRequest → String → Operation
  update_order : String → UpdateOrderRequest → Claims → Operation
  reject : RejectOrdersRequest → Claims → Operation
  resubmit : ResubmitOrderRequest → Claims → Operation
  cancel : CancelOrdersRequest → Claims → Operation
  start : ProductionStartRequest → Claims → Operation
  confirm : ProductionConfirmRequest → Claims → Operation
  preview : ScheduleRequest → Claims → Operation
  confirm_preview : ConfirmPreviewRequest → Claims → Operation
  create_job : ScheduleRequest → Claims → Operation
  delete_queued_job : String → Operation
  execute_job : String → Operation
  assign : AssignUserRequest → String → Operation
  create_account : CreateUserRequest → String → Operation
  reset_password : ResetUserPasswordRequest → String → Operation
  delete_account : String → String → Operation

-- The state of a result of `execute_schedule_job`.
abbrev pub executed {ℓ} : {A : Type ℓ} → MemoryStore → Result (MemoryStore × A) → MemoryStore
executed s (ok out) = out.0
executed s (err e) = s

-- The state after an operation.
unfoldable pub run : Env → Operation → MemoryStore → MemoryStore
unfolding create_order_locked update_order_due_date reject_orders resubmit_order cancel_orders
    start_production confirm_production_order preview_schedule confirm_preview_order
    create_schedule_job delete_queued_schedule_job execute_schedule_job assign_user create_user
    reset_user_password delete_user
run env (Operation.create_order req actor) s = (create_order_locked env req actor s).0
run env (Operation.update_order id req claims) s = (update_order_due_date env id req claims s).0
run env (Operation.reject req claims) s = (reject_orders env req claims s).0
run env (Operation.resubmit req claims) s = (resubmit_order env req claims s).0
run env (Operation.cancel req claims) s = (cancel_orders env req claims s).0
run env (Operation.start req claims) s = (start_production env req claims s).0
run env (Operation.confirm req claims) s = (confirm_production_order env req claims s).0
run env (Operation.preview req claims) s = (preview_schedule env req claims s).0
run env (Operation.confirm_preview req claims) s = (confirm_preview_order env req claims s).0
run env (Operation.create_job req claims) s = (create_schedule_job env req claims s).0
run env (Operation.delete_queued_job id) s = delete_queued_schedule_job id s
run env (Operation.execute_job id) s = executed s (execute_schedule_job env id s)
run env (Operation.assign req actor) s = (assign_user env req actor s).0
run env (Operation.create_account req actor) s = (create_user env req actor s).0
run env (Operation.reset_password req actor) s = (reset_user_password env req actor s).0
run env (Operation.delete_account name actor) s = (delete_user env name actor s).0

-- Every operation that changes the state.
pub data AnyOperation : Type 0 where
  regular : Operation → AnyOperation
  create_demo_conflict : DemoConflictRequest → Claims → AnyOperation
  create_hpa_peak : Claims → AnyOperation
  clear_hpa_peak : Claims → AnyOperation

unfoldable pub run_any : Env → AnyOperation → MemoryStore → MemoryStore
unfolding run create_demo_conflict_orders create_hpa_peak_demo clear_hpa_peak_demo
run_any env (regular op) s = run env op s
run_any env (create_demo_conflict req claims) s = (create_demo_conflict_orders env req claims s).0
run_any env (create_hpa_peak claims) s = (create_hpa_peak_demo env claims s).0
run_any env (clear_hpa_peak claims) s = (clear_hpa_peak_demo env claims s).0
