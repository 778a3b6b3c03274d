-- ===== src/Scheduler/Capacity.antt =====
-- The capacity of the days of a plan.
use Prim.Native.Nat.{min}
use woms.Base.{
  ℕ, ◌+◌, ◌-◌, ◌≤◌, ◌<◌, ◌≡◌, refl, ◌∙◌, List, [], ◌∷◌, ◌++◌, arith, ◌==◌, str_eq, not, sum_of,
  sum_of-append, if◌then◌else◌,
}
use woms.Base.Results.{ok}
use woms.Clock.{truncate_date, date_key}
use woms.Scheduler.Types.{OrderInput, ExistingAllocation, Allocation, Request, PlanResult}
use woms.Scheduler.Ledger.{
  CapacityLedger, total_on, empty_ledger, enter_allocation, enter_allocations,
  build_capacity_ledger, used_on, available_capacity,
}
use woms.Scheduler.Plan.{LoopState, allocate, book, place, new_allocation, plan, empty_result}
use woms.Scheduler.Totals.{total_on-add_on, record_manual_force_conflict-IsReport}
use woms.Scheduler.Rule.{Rule}
use woms.Scheduler.Answers.{plan_order_rule, plan_rule}

-- What the allocations of a plan put on a day.
abbrev on_day : ℕ → Allocation → ℕ
on_day key a = if date_key a.date == key then a.quantity else 0

unfoldable pub planned_on : ℕ → List Allocation → ℕ
planned_on key = sum_of (on_day key)

-- What is booked on a day before the plan: the line's allocations, or nothing under manual force.
abbrev booked_by : Request → ℕ → ExistingAllocation → ℕ
booked_by req key a =
    if not (str_eq a.line_id req.line_id)
    then 0
    else if req.manual_force
    then 0
    else if date_key a.date == key
    then a.quantity
    else 0

unfoldable pub booked_on : Request → ℕ → ℕ
booked_on req key = sum_of (booked_by req key) req.existing_allocations

-- The ledger's total without the new allocations.
abbrev reserved_on : Request → CapacityLedger → ℕ → ℕ
reserved_on req l key =
    total_on key l.high_used + (if req.manual_force then 0 else total_on key l.low_used)

enter_allocation-reserved_on :
    (req : Request) (l : CapacityLedger) (a : ExistingAllocation) (key : ℕ)
    → (reserved_on req (enter_allocation req l a) key ≡ reserved_on req l key + booked_by req key a)
      × ((enter_allocation req l a).new_used ≡ l.new_used)
unfolding enter_allocation
enter_allocation-reserved_on req l a key = ground (
  arith,
  total_on-add_on key (date_key a.date) a.quantity l.high_used,
  total_on-add_on key (date_key a.date) a.quantity l.low_used,
)

enter_allocations-reserved_on :
    (req : Request) (l : CapacityLedger) (list : List ExistingAllocation) (key : ℕ)
    → (reserved_on req (enter_allocations req l list) key
        ≡ reserved_on req l key + sum_of (booked_by req key) list)
      × ((enter_allocations req l list).new_used ≡ l.new_used)
unfolding enter_allocations sum_of
enter_allocations-reserved_on req l [] key = (omega arith, refl)
enter_allocations-reserved_on req l (a ∷ list) key =
    let one = enter_allocation-reserved_on req l a key in
    let rest = enter_allocations-reserved_on req (enter_allocation req l a) list key in
    (omega (arith, one.0, rest.0), rest.1 ∙ one.1)

record Fits (req : Request) (l : CapacityLedger) (r : PlanResult) : Type 0 where
  reserved : (key : ℕ) → reserved_on req l key ≡ booked_on req key
  tally : (key : ℕ) → total_on key l.new_used ≡ planned_on key r.allocations
  within : (key : ℕ) → planned_on key r.allocations ≤ req.capacity_per_day - booked_on req key

start-Fits : (req : Request) → Fits req (build_capacity_ledger req) empty_result
unfolding build_capacity_ledger booked_on planned_on sum_of total_on
start-Fits req = record {
  reserved = λ key.
      let both = enter_allocations-reserved_on req empty_ledger req.existing_allocations key in
      ground (arith, both);
  tally = λ key.
      let both = enter_allocations-reserved_on req empty_ledger req.existing_allocations key in
      rw (both.1) refl;
  within = λ key. omega arith;
}

planned_on-snoc :
    (key : ℕ) (allocations : List Allocation) (a : Allocation)
    → planned_on key (allocations ++ a ∷ []) ≡ planned_on key allocations + on_day key a
unfolding planned_on sum_of
planned_on-snoc key allocations a = omega (arith, sum_of-append (on_day key) allocations (a ∷ []))

allocate-Fits :
    (req : Request) (order : OrderInput) (available : ℕ) (s : LoopState)
    → Fits req s.ledger s.result
    → available ≡ available_capacity req s.ledger s.day
    → 0 < available
    → Fits req (allocate req order available s).ledger (allocate req order available s).result
unfolding allocate available_capacity used_on
allocate-Fits req order available s f e room =
    let qty : ℕ = min s.remaining available in
    let report =
      record_manual_force_conflict-IsReport req (book s.day qty s.ledger) order
        (place req order s.day qty s.result) s.day in
    record {
      reserved = λ key. ground (arith, report, f.reserved key);
      tally = λ key. ground (
        arith,
        report,
        f.tally key,
        total_on-add_on key (date_key s.day) qty s.ledger.new_used,
        planned_on-snoc key s.result.allocations (new_allocation req order s.day qty),
      );
      within = λ key. ground (
        arith,
        report,
        f.tally (date_key s.day),
        f.reserved (date_key s.day),
        f.within key,
        planned_on-snoc key s.result.allocations (new_allocation req order s.day qty),
      );
    }

Fits-Rule :
    (req : Request) (order : OrderInput)
    → Rule req order
        (truncate_date order.due_date)
        (λ s. Fits req s.ledger s.result)
        (λ s. Fits req s.ledger s.result)
Fits-Rule req order = record {
  stop = λ s f _. f;
  late =
      λ s finish ids f _ _ _. record { reserved = f.reserved; tally = f.tally; within = f.within };
  skip = λ s f _. f;
  fill = λ s available f e _ room _. allocate-Fits req order available s f e room;
}

-- On every day the quantity that a plan allocates fits into what the line's existing allocations
-- leave of its daily capacity (all of it, if the plan is forced).
pub plan-planned_on-le :
    (req : Request) (r : PlanResult) (key : ℕ)
    → plan req ≡ ok r
    → planned_on key r.allocations ≤ req.capacity_per_day - booked_on req key
plan-planned_on-le req r key e =
    (plan_rule req (λ l r rest. Fits req l r) r
        (λ room ledger result order rest f valid.
          plan_order_rule req ledger result order room (Fits-Rule req order) valid f)
        (λ valid. start-Fits req) e).1.within
      key
