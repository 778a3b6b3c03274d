-- ===== src/Scheduler/Conservation.antt =====
-- The quantities of a plan and of its orders.
use Prim.Native.Nat.{min}
use woms.Base.{
  ℕ, ◌+◌, ◌≤◌, ◌≡◌, refl, ◌∙◌, ap, ◌⊎◌, inl, inr, Bool, true, false, ◌&&◌, ◌||◌, List, [], ◌∷◌,
  ◌++◌, String, arith, str_eq, sum_of, sum_of-append, any_of, if◌then◌else◌,
}
use woms.Base.Results.{ok}
use woms.Clock.{Time, truncate_date, date_key}
use woms.Scheduler.Types.{OrderInput, Allocation, Conflict, Request, PlanResult}
use woms.Scheduler.Ledger.{CapacityLedger, append_unique_many, orders_on}
use woms.Scheduler.Sorting.{insert_sorted, stable_sort, order_less, sorted_orders}
use woms.Scheduler.Plan.{
  LoopState, allocate, book, place, new_allocation, late_result, late_reason, plan,
  record_manual_force_conflict, manual_conflict,
}
use woms.Scheduler.Totals.{record_manual_force_conflict-IsReport}
use woms.Scheduler.Rule.{Rule}
use woms.Scheduler.Answers.{plan_order_rule, plan_rule}

abbrev for_order : String → Allocation → ℕ
for_order id a = if str_eq a.order_id id then a.quantity else 0

-- What a plan allocates to an order.
unfoldable pub planned_for : String → List Allocation → ℕ
unfolding sum_of
planned_for id = sum_of (for_order id)

abbrev of_order : String → OrderInput → ℕ
of_order id o = if str_eq o.id id then o.quantity else 0

-- What the requested orders with an ID ask for.
unfoldable pub ordered_for : String → List OrderInput → ℕ
ordered_for id = sum_of (of_order id)

abbrev is_late : String → Conflict → Bool
is_late id c = str_eq c.order_id id && str_eq c.reason late_reason

-- The plan reports that the order cannot be finished by its due date.
unfoldable pub reported_late : String → List Conflict → Bool
unfolding any_of
reported_late id = any_of (is_late id)

module _ {ℓ} {A : Type ℓ} (less : A → A → Bool) (f : A → ℕ) where
  sum_of-insert_sorted :
      (x : A) (xs : List A) → sum_of f (insert_sorted less x xs) ≡ f x + sum_of f xs
  unfolding insert_sorted sum_of
  sum_of-insert_sorted x [] = refl
  sum_of-insert_sorted x (y ∷ ys) = ground (arith, sum_of-insert_sorted x ys)

  sum_of-stable_sort : (xs : List A) → sum_of f (stable_sort less xs) ≡ sum_of f xs
  unfolding stable_sort sum_of
  sum_of-stable_sort [] = refl
  sum_of-stable_sort (x ∷ xs) =
      sum_of-insert_sorted x (stable_sort less xs) ∙ ap (λ n. f x + n) (sum_of-stable_sort xs)

any_of-append {ℓ} :
    {A : Type ℓ} (p : A → Bool) (xs ys : List A)
    → any_of p (xs ++ ys) ≡ (any_of p xs || any_of p ys)
unfolding any_of
any_of-append p [] ys = refl
any_of-append p (x ∷ xs) ys = ground (arith, any_of-append p xs ys)

planned_for-snoc :
    (id : String) (allocations : List Allocation) (a : Allocation)
    → planned_for id (allocations ++ a ∷ []) ≡ planned_for id allocations + for_order id a
unfolding planned_for sum_of
planned_for-snoc id allocations a = omega (arith, sum_of-append (for_order id) allocations (a ∷ []))

reported_late-snoc :
    (id : String) (conflicts : List Conflict) (c : Conflict)
    → reported_late id (conflicts ++ c ∷ []) ≡ (reported_late id conflicts || is_late id c)
unfolding reported_late any_of
reported_late-snoc id conflicts c = any_of-append (is_late id) conflicts (c ∷ []) ∙ ground arith

-- A conflict of manual force is no late conflict.
manual_force-reported_late :
    (req : Request) (l : CapacityLedger) (order : OrderInput) (r : PlanResult) (day : Time)
    (id : String)
    → reported_late id (record_manual_force_conflict req l order r day).1.conflicts
      ≡ reported_late id r.conflicts
unfolding record_manual_force_conflict
manual_force-reported_late req l order r day id =
    let affected : List String =
      append_unique_many (orders_on (date_key day) l.low_by_date)
        (orders_on (date_key day) l.locked_by_date) in
    ground (arith, reported_late-snoc id r.conflicts (manual_conflict order day affected))

-- What is allocated to the order `id` and what is still to be: `n`, of `total`.
record Settled (req : Request) (total n : ℕ) (late : Bool) : Type 0 where
  bound : n ≤ total
  exact : late ≡ false → n ≡ total
  allowed : req.allow_late_completion ≡ true → late ≡ false

start-Settled :
    (req : Request) (id : String)
    → Settled req
        (ordered_for id req.orders)
        (planned_for id [] + ordered_for id (sorted_orders req.orders))
        (reported_late id [])
unfolding sorted_orders ordered_for planned_for sum_of reported_late any_of
start-Settled req id =
    let same = sum_of-stable_sort order_less (of_order id) req.orders in
    record { bound = omega arith; exact = λ _. omega arith; allowed = λ _. refl }

module _ (req : Request) (order : OrderInput) (id : String) (total later : ℕ) where
  -- `later` is what the orders after this one ask for.
  abbrev InLoop : LoopState → Type 0
  InLoop s =
      Settled req total
        (planned_for id s.result.allocations
          + (if str_eq order.id id then s.remaining else 0)
          + later)
        (reported_late id s.result.conflicts)

  abbrev AfterLoop : LoopState → Type 0
  AfterLoop s =
      Settled req total (planned_for id s.result.allocations + later)
        (reported_late id s.result.conflicts)

  allocate-InLoop :
      (available : ℕ) (s : LoopState) → InLoop s → InLoop (allocate req order available s)
  unfolding allocate
  allocate-InLoop available s p =
      let qty : ℕ = min s.remaining available in
      let report =
        record_manual_force_conflict-IsReport req (book s.day qty s.ledger) order
          (place req order s.day qty s.result) s.day in
      let same =
        manual_force-reported_late req (book s.day qty s.ledger) order
          (place req order s.day qty s.result) s.day id in
      let snoc = planned_for-snoc id s.result.allocations (new_allocation req order s.day qty) in
      ground (arith, report, same, snoc)

  late-AfterLoop :
      (s : LoopState) (finish : Time) (ids : List String)
      → InLoop s
      → req.allow_late_completion ≡ false
      → AfterLoop (record s { result = late_result order s.result finish ids })
  late-AfterLoop s finish ids p late = ground (
    arith,
    reported_late-snoc id s.result.conflicts (record {
      order_id = order.id;
      reason = late_reason;
      earliest_finish_date = finish;
      affected_order_ids = ids;
    }),
  )

  InLoop-Rule : Rule req order (truncate_date order.due_date) InLoop AfterLoop
  InLoop-Rule = record {
    stop = λ s p none_left. ground arith;
    late = λ s finish ids p more past late. late-AfterLoop s finish ids p late;
    skip = λ s p full. p;
    fill = λ s available p e more room on_time. allocate-InLoop available s p;
  }

plan-Settled :
    (req : Request) (r : PlanResult) (id : String)
    → plan req ≡ ok r
    → Settled req
        (ordered_for id req.orders)
        (planned_for id r.allocations)
        (reported_late id r.conflicts)
unfolding sum_of ordered_for
plan-Settled req r id e =
    let total : ℕ = ordered_for id req.orders in
    let settled =
      (plan_rule req
        (λ l r rest.
          Settled req total (planned_for id r.allocations + ordered_for id rest)
            (reported_late id r.conflicts))
        r
        (λ room ledger result order rest j valid.
          plan_order_rule req ledger result order room
            (InLoop-Rule req order id total (ordered_for id rest)) valid (ground (arith, j)))
        (λ valid. start-Settled req id) e).1 in
    record {
      bound = omega (arith, settled.bound);
      exact = λ h. omega (arith, settled.exact h);
      allowed = settled.allowed;
    }

-- A plan never allocates more under an order ID than the requested orders with that ID ask for.
pub planned_for-le-ordered_for :
    (req : Request) (r : PlanResult) (id : String)
    → plan req ≡ ok r
    → planned_for id r.allocations ≤ ordered_for id req.orders
planned_for-le-ordered_for req r id e = (plan-Settled req r id e).bound

-- A plan allocates under an order ID exactly what the requested orders with that ID ask for, if late
-- completion is allowed or the plan reports no late conflict for the ID.
pub planned_for-eq-ordered_for :
    (req : Request) (r : PlanResult) (id : String)
    → plan req ≡ ok r
    → (req.allow_late_completion ≡ true) ⊎ (reported_late id r.conflicts ≡ false)
    → planned_for id r.allocations ≡ ordered_for id req.orders
planned_for-eq-ordered_for req r id e (inl allowed) =
    (plan-Settled req r id e).exact ((plan-Settled req r id e).allowed allowed)
planned_for-eq-ordered_for req r id e (inr none_late) = (plan-Settled req r id e).exact none_late
