-- ===== src/Http/Store.antt =====
-- The `Store` interface of internal/api/server.go, and its implementation `MemoryStore`.
use woms.Base.{List, Option, String}
use woms.Base.Results.{Result, ok, err}
use woms.Domain.{User, Order, ProductionLine, ScheduleJob, AuditEntry, zero_job}
use woms.Api.Requests.{
  Claims, CreateOrderRequest, UpdateOrderRequest, RejectOrdersRequest, ResubmitOrderRequest,
  CancelOrdersRequest, CancelOrdersResponse, AssignUserRequest, CreateUserRequest,
  ResetUserPasswordRequest, ConfirmPreviewRequest, ScheduleRequest, ProductionStartRequest,
  ProductionConfirmRequest, ProductionConfirmResponse,
}
use woms.Api.State.{Env, MemoryStore}
use woms.Api.Orders.{
  create_order_locked, update_order_due_date, reject_orders, resubmit_order, cancel_orders,
  list_orders,
}
use woms.Api.Users.{
  authenticate, list_users, list_lines, assign_user, create_user, reset_user_password, delete_user,
}
use woms.Api.Production.{start_production, confirm_production_order}
use woms.Api.Jobs.{
  SchedulePreviewResponse, preview_schedule, create_schedule_job, delete_queued_schedule_job,
  execute_schedule_job, get_schedule_job,
}
use woms.Api.Previews.{confirm_preview_order}
use woms.Api.Views.{CalendarResponse, schedule_calendar, schedule_history}
use woms.Api.Demo.{DemoConflictRequest, create_demo_conflict_orders}
use woms.Api.HpaSummary.{HpaPeakSummary, hpa_peak_summary, clear_hpa_peak_demo}

-- The operations that the handlers call, on a state of a store. Those that only read have no new state.
pub record Store {ℓ} (R : Type ℓ) : Type ℓ where
  pub authenticate : String → String → R → Option User
  pub list_orders : Claims → R → List Order
  pub list_lines : R → List ProductionLine
  pub create_order : CreateOrderRequest → String → R → R × Result Order
  pub cancel_orders : CancelOrdersRequest → Claims → R → R × Result CancelOrdersResponse
  pub update_order_due_date : String → UpdateOrderRequest → Claims → R → R × Result Order
  pub confirm_preview_order : ConfirmPreviewRequest → Claims → R → R × Result Order
  pub reject_orders : RejectOrdersRequest → Claims → R → R × Result (List Order)
  pub resubmit_order : ResubmitOrderRequest → Claims → R → R × Result Order
  pub list_users : R → List User
  pub create_user : CreateUserRequest → String → R → R × Result User
  pub assign_user : AssignUserRequest → String → R → R × Result User
  pub reset_user_password : ResetUserPasswordRequest → String → R → R × Result User
  pub delete_user : String → String → R → R × Result User
  pub create_demo_conflict_orders : DemoConflictRequest → Claims → R → R × Result (List Order)
  pub preview_schedule : ScheduleRequest → Claims → R → R × Result SchedulePreviewResponse
  pub create_schedule_job : ScheduleRequest → Claims → R → R × Result ScheduleJob
  pub delete_queued_schedule_job : String → R → R
  pub execute_schedule_job : String → R → R × ScheduleJob
  pub get_schedule_job : String → R → Option ScheduleJob
  pub schedule_calendar : String → String → Claims → R → Result CalendarResponse
  pub schedule_history : String → Claims → R → Result (List AuditEntry)
  pub start_production : ProductionStartRequest → Claims → R → R × Result Order
  pub confirm_production :
      ProductionConfirmRequest → Claims → R → R × Result ProductionConfirmResponse
  pub clear_hpa_peak_demo : Claims → R → R × Result HpaPeakSummary
  pub hpa_peak_summary : R → HpaPeakSummary

-- The execution of a job always ends with one (Api/JobOutcome).
abbrev pub executed_or :
    MemoryStore → Result (MemoryStore × ScheduleJob) → MemoryStore × ScheduleJob
executed_or s (ok out) = out
executed_or s (err e) = (s, zero_job)

abbrev succeeded : MemoryStore × HpaPeakSummary → MemoryStore × Result HpaPeakSummary
succeeded (s, summary) = (s, ok summary)

abbrev pub memory_store : Env → Store MemoryStore
memory_store env = record {
  authenticate = authenticate env;
  list_orders = list_orders;
  list_lines = list_lines;
  create_order = create_order_locked env;
  cancel_orders = cancel_orders env;
  update_order_due_date = update_order_due_date env;
  confirm_preview_order = confirm_preview_order env;
  reject_orders = reject_orders env;
  resubmit_order = resubmit_order env;
  list_users = list_users;
  create_user = create_user env;
  assign_user = assign_user env;
  reset_user_password = reset_user_password env;
  delete_user = delete_user env;
  create_demo_conflict_orders = create_demo_conflict_orders env;
  preview_schedule = preview_schedule env;
  create_schedule_job = create_schedule_job env;
  delete_queued_schedule_job = delete_queued_schedule_job;
  execute_schedule_job = λ id s. executed_or s (execute_schedule_job env id s);
  get_schedule_job = get_schedule_job;
  schedule_calendar = schedule_calendar env;
  schedule_history = schedule_history;
  start_production = start_production env;
  confirm_production = confirm_production_order env;
  clear_hpa_peak_demo = λ claims s. succeeded (clear_hpa_peak_demo env claims s);
  hpa_peak_summary = hpa_peak_summary;
}
