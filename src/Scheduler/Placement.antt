-- ===== src/Scheduler/Placement.antt =====
-- Where a plan puts its allocations.
use Prim.Native.Nat.{min}
use woms.Base.{
  ℕ, ◌≤◌, ◌<◌, ◌≡◌, refl, sym, subst, ◌∙◌, ap, ◌⊎◌, true, false, ◌&&◌, [], ◌∷◌, arith, not, All,
  All-append,
}
use woms.Base.Results.{ok}
use woms.Clock.{
  Time, is_zero, truncate_date, add_days, after, truncate_date_idem, truncate_date-add_days,
  le-add_days,
}
use woms.Domain.{is_high}
use woms.Scheduler.Types.{OrderInput, Allocation, Request, PlanResult}
use woms.Scheduler.Plan.{
  LoopState, allocate, book, place, new_allocation, plan, schedule_start_date,
}
use woms.Scheduler.Totals.{record_manual_force_conflict-IsReport}
use woms.Scheduler.Rule.{Rule}
use woms.Scheduler.Answers.{plan_order_rule, plan_rule}

pub record IsPlaced (req : Request) (a : Allocation) : Type 0 where
  pub midnight : truncate_date a.date ≡ a.date
  pub from_start : truncate_date req.start_date ≤ a.date
  pub from_tomorrow :
      (is_zero req.current_date ≡ true) ⊎ (add_days (truncate_date req.current_date) 1 ≤ a.date)
  pub on_time : (req.allow_late_completion ≡ true) ⊎ (a.date ≤ truncate_date a.due_date)
  pub positive : 0 < a.quantity
  pub lock : a.locked ≡ is_high a.priority
  pub line : a.line_id ≡ req.line_id

-- A day that the loop of an order may reach.
record IsOpen (req : Request) (day : Time) : Type 0 where
  midnight : truncate_date day ≡ day
  from_start : truncate_date req.start_date ≤ day
  from_tomorrow :
      (is_zero req.current_date ≡ true) ⊎ (add_days (truncate_date req.current_date) 1 ≤ day)

start-IsOpen : (req : Request) → IsOpen req (schedule_start_date req.start_date req.current_date)
unfolding schedule_start_date
start-IsOpen req = ground (
  arith,
  truncate_date_idem req.start_date,
  truncate_date_idem req.current_date,
  truncate_date-add_days (truncate_date req.current_date) 1,
)

next-IsOpen : (req : Request) (day : Time) → IsOpen req day → IsOpen req (add_days day 1)
next-IsOpen req day o =
    let later = le-add_days day 1 in
    record {
      midnight = truncate_date-add_days day 1 ∙ ap (λ t. add_days t 1) o.midnight;
      from_start = omega arith;
      from_tomorrow = ground arith;
    }

record InLoop (req : Request) (s : LoopState) : Type 0 where
  day : IsOpen req s.day
  placed : All (IsPlaced req) s.result.allocations

allocate-InLoop :
    (req : Request) (order : OrderInput) (available : ℕ) (s : LoopState)
    → InLoop req s
    → 0 < s.remaining
    → 0 < available
    → (after s.day (truncate_date order.due_date) && not req.allow_late_completion) ≡ false
    → InLoop req (allocate req order available s)
unfolding allocate
allocate-InLoop req order available s f more room on_time =
    let qty : ℕ = min s.remaining available in
    let report =
      record_manual_force_conflict-IsReport req (book s.day qty s.ledger) order
        (place req order s.day qty s.result) s.day in
    record {
      day = f.day;
      placed = subst (All (IsPlaced req)) (sym report.allocations) (
          All-append (IsPlaced req) s.result.allocations (new_allocation req order s.day qty ∷ [])
            f.placed (new, tt));
    }
  where
    new : IsPlaced req (new_allocation req order s.day (min s.remaining available))
    new = record {
      midnight = f.day.midnight;
      from_start = f.day.from_start;
      from_tomorrow = f.day.from_tomorrow;
      on_time = ground arith;
      positive = omega arith;
      lock = refl;
      line = refl;
    }

InLoop-Rule :
    (req : Request) (order : OrderInput)
    → Rule req order
        (truncate_date order.due_date)
        (InLoop req)
        (λ s. All (IsPlaced req) s.result.allocations)
InLoop-Rule req order = record {
  stop = λ s f _. f.placed;
  late = λ s finish ids f _ _ _. f.placed;
  skip = λ s f _. record { day = next-IsOpen req s.day f.day; placed = f.placed };
  fill = λ s available f e more room on_time.
      allocate-InLoop req order available s f more room on_time;
}

-- Every allocation of a plan stands at midnight of a day from the requested start on and after the
-- current date (where one is given), not after the due date of its order unless late completion is
-- allowed; it has a positive quantity, the plan's line, and is locked exactly if its priority is high.
pub plan-IsPlaced :
    (req : Request) (r : PlanResult) → plan req ≡ ok r → All (IsPlaced req) r.allocations
plan-IsPlaced req r e =
    (plan_rule req (λ l r rest. All (IsPlaced req) r.allocations) r
      (λ room ledger result order rest all valid.
        plan_order_rule req ledger result order room (InLoop-Rule req order) valid
          (record { day = start-IsOpen req; placed = all }))
      (λ valid. tt) e).1
