-- ===== src/Tests/Plans.antt =====
-- Two orders of line A, one of them urgent, on a line that is partly booked.
use mathlib.Core.List.{Permᴰ}
use woms.Base.{
  ℕ, ◌+◌, ◌*◌, ◌-◌, ◌≤◌, ◌≡◌, refl, ◌⊎◌, inl, inr, ◌≢◌, Bool, true, false, [], ◌∷◌, String, arith,
  All, eq_iff,
}
use woms.Base.Int.{pos}
use woms.Base.Results.{ok, err}
use woms.Clock.{Time, day_length, zero_time}
use woms.Domain.{low, high, OrderStatus, Order}
use woms.Scheduler.Types.{OrderInput, ExistingAllocation, Request, PlanResult, Allocation}
use woms.Scheduler.Plan.{plan}
use woms.Scheduler.Capacity
use woms.Scheduler.Capacity.{planned_on, booked_on}
use woms.Scheduler.Placement.{IsPlaced}
use woms.Scheduler.Placement
use woms.Scheduler.Conservation
use woms.Scheduler.Conservation.{planned_for, ordered_for, reported_late}
use woms.Scheduler.Outcome
use woms.Scheduler.Determinism
use woms.Scheduler.Confirmation

abbrev day : ℕ → Time
day n = (740136 + n) * day_length

abbrev bulk : OrderInput
bulk = record {
  id = "ORD-0000001";
  customer = "ASE";
  line_id = "A";
  quantity = 2500;
  priority = low;
  status = OrderStatus.pending;
  due_date = day 3;
  created_at_timestamp = 10;
}

abbrev urgent : OrderInput
urgent = record bulk { id = "ORD-0000002"; quantity = 1000; priority = high; due_date = day 5 }

abbrev booked : ExistingAllocation
booked = record {
  order_id = "ORD-0000009";
  line_id = "A";
  date = day 1;
  quantity = 1500;
  priority = low;
  locked = false;
}

abbrev request : Request
request = record {
  line_id = "A";
  capacity_per_day = 2000;
  start_date = day 0;
  current_date = day 0;
  orders = bulk ∷ urgent ∷ [];
  existing_allocations = booked ∷ [];
  manual_force = false;
  force_reason = "";
  allow_late_completion = false;
}

abbrev on : OrderInput → ℕ → ℕ → Bool → Allocation
on o n quantity locked = record {
  order_id = o.id;
  source_order_id = "";
  customer = o.customer;
  line_id = "A";
  date = day n;
  quantity = quantity;
  priority = o.priority;
  status = o.status;
  locked = locked;
  due_date = o.due_date;
  created_at_timestamp = o.created_at_timestamp;
}

-- The urgent order goes first, from the day after the current date.
abbrev planned : PlanResult
planned = record {
  allocations =
      on urgent 1 500 true
      ∷ on urgent 2 500 true
      ∷ on bulk 2 1500 false
      ∷ on bulk 3 1000 false
      ∷ [];
  conflicts = [];
  finish_date = day 3;
}

plan-request : plan request ≡ ok planned
unfolding plan
plan-request = refl

plan-planned_on-le_example : planned_on 740137 planned.allocations ≤ 2000 - booked_on request 740137
plan-planned_on-le_example = Capacity.plan-planned_on-le request planned 740137 plan-request

plan-IsPlaced_example : All (IsPlaced request) planned.allocations
plan-IsPlaced_example = Placement.plan-IsPlaced request planned plan-request

planned_for-le-ordered_for_example :
    planned_for "ORD-0000001" planned.allocations ≤ ordered_for "ORD-0000001" request.orders
planned_for-le-ordered_for_example =
    Conservation.planned_for-le-ordered_for request planned "ORD-0000001" plan-request

planned_for-eq-ordered_for_example :
    planned_for "ORD-0000001" planned.allocations ≡ ordered_for "ORD-0000001" request.orders
unfolding reported_late
planned_for-eq-ordered_for_example =
    Conservation.planned_for-eq-ordered_for request planned "ORD-0000001" plan-request (inr refl)

plan_outcome_example :
    ((r : PlanResult) × (plan request ≡ ok r) × Outcome.IsAccepted request)
    ⊎ (plan request ≡ err "invalid schedule request") × (¬ Outcome.IsAccepted request)
plan_outcome_example = Outcome.plan_outcome request

distinct : ◌≢◌ {A = String} "ORD-0000001" "ORD-0000002"
distinct = ground (arith, eq_iff "ORD-0000001" "ORD-0000002")

plan-Permᴰ_example : plan (record request { orders = urgent ∷ bulk ∷ [] }) ≡ plan request
plan-Permᴰ_example =
    Determinism.plan-Permᴰ request (urgent ∷ bulk ∷ []) (Permᴰ.swap refl refl)
      (inl refl, (inr refl, tt)) ((distinct, tt), (tt, tt))

abbrev stored : Order
stored = record {
  id = "ORD-0000001";
  customer = "ASE";
  line_id = "A";
  quantity = 2500;
  priority = low;
  status = OrderStatus.in_progress;
  due_date = day 3;
  note = "";
  created_by = "user-sales";
  source_order = "";
  rejection_reason = "";
  rejected_by = "";
  rejected_at = zero_time;
  created_at = day 0;
  updated_at = day 0;
}

confirm_production-Confirms_example : Confirmation.Confirms stored (pos 1000) (day 2)
confirm_production-Confirms_example =
    Confirmation.confirm_production-Confirms stored (pos 1000) (day 2)
