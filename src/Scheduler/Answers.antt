-- ===== src/Scheduler/Answers.antt =====
-- Proof rules for `planOrder` and for the loop of `Plan`: a property that every order's planning
-- keeps holds of the result, and the only error is that of a request that is not accepted.
use woms.Base.{
  ◌<◌, ◌≡◌, refl, sym, subst, ◌∙◌, ◌⊎◌, inl, inr, Bool, true, false, List, [], ◌∷◌, String, arith,
  All,
}
use woms.Base.Results.{Result, ok, err, refuse_if, ok≢err, ok-injective}
use woms.Clock.{Time, truncate_date}
use woms.Scheduler.Types.{
  OrderInput, Request, PlanResult, validate_request, validate_order, invalid_request,
}
use woms.Scheduler.Sorting.{sorted_orders}
use woms.Scheduler.Ledger.{CapacityLedger, build_capacity_ledger}
use woms.Scheduler.Plan.{
  LoopState, begin, search_bound, schedule_start_date, plan_order, plan_orders, plan, empty_result,
}
use woms.Scheduler.Rule.{Rule, plan_loop_rule}

-- The requests and orders that the planner accepts.
abbrev pub IsValidOrder : String → OrderInput → Type 0
IsValidOrder line_id order = validate_order line_id order ≡ ok tt

refuse_if-cases : (b : Bool) (e : String) → (refuse_if b e ≡ ok tt) ⊎ (refuse_if b e ≡ err e)
refuse_if-cases true e = inr refl
refuse_if-cases false e = inl refl

pub validate_order-cases :
    (line_id : String) (order : OrderInput)
    → IsValidOrder line_id order ⊎ (validate_order line_id order ≡ err invalid_request)
unfolding validate_order
validate_order-cases line_id order = refuse_if-cases _ invalid_request

pub validate_request-cases :
    (req : Request) → (validate_request req ≡ ok tt) ⊎ (validate_request req ≡ err invalid_request)
unfolding validate_request
validate_request-cases req = refuse_if-cases _ invalid_request

pub capacity-pos : (req : Request) → validate_request req ≡ ok tt → 0 < req.capacity_per_day
unfolding validate_request
capacity-pos req h = ground arith

pub plan_order_rule :
    (req : Request) (ledger : CapacityLedger) (result : PlanResult) (order : OrderInput)
    {P Q : LoopState → Type 0}
    → 0 < req.capacity_per_day
    → Rule req order (truncate_date order.due_date) P Q
    → IsValidOrder req.line_id order
    → P (begin order ledger result (schedule_start_date req.start_date req.current_date))
    → (t : LoopState) × (plan_order req ledger result order ≡ ok (t.ledger, t.result)) × Q t
unfolding plan_order search_bound
plan_order_rule req ledger result order room rule valid p =
    let start : Time = schedule_start_date req.start_date req.current_date in
    let s : LoopState = begin order ledger result start in
    let (t, ends, q) =
      plan_loop_rule req order start (truncate_date order.due_date) room rule
        (search_bound ledger start order.quantity) s (omega arith) p in
    (t, rw (valid, ends), q)

plan_order_refused :
    (req : Request) (ledger : CapacityLedger) (result : PlanResult) (order : OrderInput)
    → validate_order req.line_id order ≡ err invalid_request
    → plan_order req ledger result order ≡ err invalid_request
unfolding plan_order
plan_order_refused req ledger result order h = rw h

module _ (req : Request) (J : CapacityLedger → PlanResult → List OrderInput → Type 0) where
  -- `J ledger result rest` holds while the orders `rest` are still to be planned.
  abbrev pub Keeps : Type 0
  Keeps =
      0 < req.capacity_per_day
      → (ledger : CapacityLedger) (result : PlanResult) (order : OrderInput)
        (rest : List OrderInput)
      → J ledger result (order ∷ rest)
      → IsValidOrder req.line_id order
      → (t : LoopState) × (plan_order req ledger result order ≡ ok (t.ledger, t.result))
        × J t.ledger t.result rest

  abbrev Answer : List OrderInput → Result PlanResult → Type 0
  Answer orders a =
      ((r : PlanResult) × (l : CapacityLedger) × (a ≡ ok r)
        × J l r []
        × All (IsValidOrder req.line_id) orders)
      ⊎ (a ≡ err invalid_request) × (¬ All (IsValidOrder req.line_id) orders)

  Answer-cons :
      (order : OrderInput) (rest : List OrderInput) (a : Result PlanResult)
      → IsValidOrder req.line_id order
      → Answer rest a
      → Answer (order ∷ rest) a
  Answer-cons order rest a valid (inl (r, l, e, j, all)) = inl (r, l, e, j, (valid, all))
  Answer-cons order rest a valid (inr (e, not_all)) = inr (e, λ all. not_all all.1)

  pub plan_orders-Answer :
      Keeps
      → 0 < req.capacity_per_day
      → (ledger : CapacityLedger) (result : PlanResult) (orders : List OrderInput)
      → J ledger result orders
      → Answer orders (plan_orders req ledger result orders)
  unfolding plan_orders
  plan_orders-Answer keeps room ledger result [] j = inl (result, ledger, refl, j, tt)
  plan_orders-Answer keeps room ledger result (order ∷ rest) j =
      elim (validate_order-cases req.line_id order) [
        | inl valid ↦
            let (t, e, j') = keeps room ledger result order rest j valid in
            rw e (
              Answer-cons order rest (plan_orders req t.ledger t.result rest) valid
                (plan_orders-Answer keeps room t.ledger t.result rest j'))
        | inr refused ↦ inr (
          rw (plan_order_refused req ledger result order refused),
          λ all. ok≢err (sym all.0 ∙ refused),
        )
      ]

  pub plan-Answer :
      Keeps
      → (validate_request req ≡ ok tt
          → J (build_capacity_ledger req) empty_result (sorted_orders req.orders))
      → (validate_request req ≡ ok tt) × Answer (sorted_orders req.orders) (plan req)
        ⊎ (validate_request req ≡ err invalid_request) × (plan req ≡ err invalid_request)
  unfolding plan
  plan-Answer keeps start = elim (validate_request-cases req) [
    | inl valid ↦ inl (
      valid,
      rw valid (
          plan_orders-Answer keeps (capacity-pos req valid) (build_capacity_ledger req) empty_result
            (sorted_orders req.orders) (start valid)),
    )
    | inr refused ↦ inr (refused, rw refused)
  ]

  -- The property of the final result.
  pub plan_rule :
      (r : PlanResult)
      → Keeps
      → (validate_request req ≡ ok tt
          → J (build_capacity_ledger req) empty_result (sorted_orders req.orders))
      → plan req ≡ ok r
      → (l : CapacityLedger) × J l r []
  plan_rule r keeps start e = elim (plan-Answer keeps start) [
    | inl (_, inl (r', l, e', j, _)) ↦ (l, subst (λ x. J l x []) (ok-injective (sym e' ∙ e)) j)
    | inl (_, inr (e', _)) ↦ absurd (ok≢err (sym e ∙ e'))
    | inr (_, e') ↦ absurd (ok≢err (sym e ∙ e'))
  ]
