-- ===== src/Api/Planning.antt =====
-- `planLocked` of internal/api/server.go and its helpers, and the checks of a preview's request.
use woms.Base.{
  Bool, true, false, not, ◌&&◌, ◌||◌, List, [], ◌∷◌, none, some, String, str_eq, str_lt, keep,
  any_of, if◌then◌else◌,
}
use woms.Base.Results.{Result, ok, refuse_if, ◌>>=◌, ◌>>◌}
use woms.Base.Text.{trim_space}
use woms.Clock.{Time, zero_time, format_date}
use woms.Domain.{is_scheduler}
use woms.Scheduler.Types.{OrderInput, Allocation, Conflict, Request, PlanResult}
use woms.Scheduler.Sorting.{stable_sort}
use woms.Scheduler.Plan.{plan, manual_force_reason}
use woms.Api.Requests.{Claims, ScheduleRequest}
use woms.Api.State.{Env, MemoryStore, current_date_for_line_locked}
use woms.Api.Inputs.{
  resolve_schedule_line_locked, parse_schedule_dates, schedule_order_inputs_locked,
  resolution_order_id_set_locked, existing_allocation_inputs_locked, preview_draft_order_id,
  has_draft,
}
use Prim.Native.String

unfoldable pub without_draft_order_inputs : List OrderInput → List OrderInput
unfolding keep
without_draft_order_inputs inputs = keep (λ o. not (str_eq o.id preview_draft_order_id)) inputs

abbrev conflict_key : Conflict → String
conflict_key c = String.◌++◌ c.order_id (String.◌++◌ "|" c.reason)

-- The date of the last allocation of the draft.
draft_finish : List Allocation → Time → Time
draft_finish [] date = date
draft_finish (a ∷ rest) date =
    draft_finish rest (if str_eq a.order_id preview_draft_order_id then a.date else date)

unfoldable pub sales_draft_preview_result : PlanResult → PlanResult → PlanResult
unfolding keep any_of draft_finish
sales_draft_preview_result result baseline = record {
  allocations = result.allocations;
  conflicts =
      keep
        (λ c.
          str_eq c.order_id preview_draft_order_id
          || not (any_of (λ b. str_eq (conflict_key b) (conflict_key c)) baseline.conflicts))
        result.conflicts;
  finish_date = draft_finish result.allocations zero_time;
}

unfoldable pub run_schedule_plan : Request → Bool → Result PlanResult
unfolding without_draft_order_inputs sales_draft_preview_result
run_schedule_plan req false = plan req
run_schedule_plan req true = do
  baseline ← plan (record req { orders = without_draft_order_inputs req.orders })
  result ← plan req
  ok (sales_draft_preview_result result baseline)

unfoldable pub can_persist_conflicts : ScheduleRequest → List Conflict → Bool
unfolding trim_space any_of
can_persist_conflicts req conflicts =
    not (not req.manual_force || str_eq (trim_space req.reason) "")
    && not (any_of (λ c. not (str_eq c.reason manual_force_reason)) conflicts)

-- The planner's request.
unfoldable pub planner_request : Env → ScheduleRequest → Claims → MemoryStore → Result Request
unfolding resolve_schedule_line_locked parse_schedule_dates schedule_order_inputs_locked
    resolution_order_id_set_locked existing_allocation_inputs_locked trim_space
planner_request env req claims s = do
  (line_id, line) ← resolve_schedule_line_locked req claims s
  refuse_if (req.manual_force && str_eq (trim_space req.reason) "") "manual force requires a reason"
  (current_date, start_date) ← parse_schedule_dates env line req
  inputs ← schedule_order_inputs_locked env line_id current_date req claims s
  resolution ← resolution_order_id_set_locked line_id req s
  ok (record {
    line_id = line_id;
    capacity_per_day = line.capacity_per_day;
    start_date = start_date;
    current_date = current_date;
    orders = inputs;
    existing_allocations = existing_allocation_inputs_locked resolution s;
    manual_force = req.manual_force;
    force_reason = req.reason;
    allow_late_completion = req.allow_late_completion;
  })

unfoldable pub plan_locked : Env → ScheduleRequest → Claims → MemoryStore → Result PlanResult
unfolding planner_request run_schedule_plan
plan_locked env req claims s = do
  plan_request ← planner_request env req claims s
  run_schedule_plan plan_request (has_draft req)

unfoldable pub schedule_request_line_id : ScheduleRequest → Claims → String
schedule_request_line_id req claims =
    if not (str_eq req.line_id "")
    then req.line_id
    else if is_scheduler claims.role && not (str_eq claims.line_id "")
    then claims.line_id
    else elim (req.draft_order) [ none ↦ "" | some draft ↦ draft.line_id ]

unfoldable pub default_schedule_current_date_locked :
    Env → ScheduleRequest → Claims → MemoryStore → Result ScheduleRequest
unfolding schedule_request_line_id current_date_for_line_locked format_date
default_schedule_current_date_locked env req claims s =
    let line_id : String = schedule_request_line_id req claims in
    if not (str_eq req.current_date "")
    then ok req
    else if str_eq line_id ""
    then ok req
    else (current_date_for_line_locked env line_id s >>= λ current_date.
        ok (record req { current_date = format_date current_date }))

-- `sort.Strings`
abbrev sort_strings : List String → List String
sort_strings = stable_sort str_lt

unfoldable pub normalized_preview_request : ScheduleRequest → ScheduleRequest
unfolding stable_sort
normalized_preview_request req = record req {
  preview_id = "";
  draft_order = none;
  order_ids = sort_strings req.order_ids;
  resolution_order_ids = sort_strings req.resolution_order_ids;
}

-- Equal lengths and equal elements.
unfoldable pub same_strings : List String → List String → Bool
same_strings [] [] = true
same_strings (x ∷ xs) (y ∷ ys) = str_eq x y && same_strings xs ys
same_strings _ _ = false

abbrev same_bool : Bool → Bool → Bool
same_bool true b = b
same_bool false b = not b

unfoldable pub same_schedule_request : ScheduleRequest → ScheduleRequest → Bool
unfolding same_strings
same_schedule_request a b =
    str_eq a.line_id b.line_id
    && str_eq a.start_date b.start_date
    && str_eq a.current_date b.current_date
    && same_bool a.manual_force b.manual_force
    && same_bool a.allow_late_completion b.allow_late_completion
    && str_eq a.reason b.reason
    && same_strings a.order_ids b.order_ids
    && same_strings a.resolution_order_ids b.resolution_order_ids
