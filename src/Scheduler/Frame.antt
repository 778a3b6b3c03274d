-- ===== src/Scheduler/Frame.antt =====
-- Beyond the list that it is given, the planner does not look at the request's orders.
use woms.Base.{
  ℕ, zero, suc, inl, inr, Option-cases, ◌≡◌, refl, subst, List, [], ◌∷◌, some, none, Option,
}
use woms.Base.Results.{Result, ok, err, ◌>>=◌}
use woms.Clock.{Time, truncate_date}
use woms.Scheduler.Types.{OrderInput, ExistingAllocation, Request, PlanResult}
use woms.Scheduler.Ledger.{
  CapacityLedger, enter_allocation, enter_allocations, build_capacity_ledger,
}
use woms.Scheduler.Plan.{
  LoopState, Turn, finished, again, stuck, finish_loop, estimate_finish_date,
  record_late_capacity_conflict, plan_turn, plan_loop, plan_order, plan_orders, search_bound,
  schedule_start_date, begin,
}

abbrev follow : (LoopState → Option LoopState) → Turn → Option LoopState
follow f turn = elim turn [ finished t ↦ some t | again t ↦ f t | stuck ↦ none ]

follow_cong :
    {f g : LoopState → Option LoopState}
    → ((t : LoopState) → f t ≡ g t)
    → (turn : Turn) → follow f turn ≡ follow g turn
follow_cong h (finished t) = refl
follow_cong h (again t) = h t
follow_cong h stuck = refl

bind_cong :
    {A B : Type 0} (m : Result A) {f g : A → Result B}
    → ((a : A) → f a ≡ g a)
    → (m >>= f) ≡ (m >>= g)
bind_cong (ok a) h = h a
bind_cong (err e) h = refl

module _ (req : Request) (orders : List OrderInput) where
  abbrev pub reordered : Request
  reordered = record req { orders = orders }

  finish_loop-reordered :
      (l : CapacityLedger) (fuel : ℕ) (day : Time) (remaining : ℕ)
      → finish_loop reordered l fuel day remaining ≡ finish_loop req l fuel day remaining
  unfolding finish_loop
  finish_loop-reordered l zero day remaining = refl
  finish_loop-reordered l (suc fuel) day remaining = rw (finish_loop-reordered l fuel)

  estimate_finish_date-reordered :
      (l : CapacityLedger) (day : Time) (remaining : ℕ)
      → estimate_finish_date reordered day remaining l ≡ estimate_finish_date req day remaining l
  unfolding estimate_finish_date
  estimate_finish_date-reordered l day remaining =
      finish_loop-reordered l (search_bound l (truncate_date day) remaining) (truncate_date day)
        remaining

  late-reordered :
      (order : OrderInput) (start due : Time) (s : LoopState)
      → record_late_capacity_conflict reordered order start due s
        ≡ record_late_capacity_conflict req order start due s
  unfolding record_late_capacity_conflict
  late-reordered order start due s =
      let same = estimate_finish_date-reordered s.ledger s.day s.remaining in
      elim (Option-cases (estimate_finish_date req s.day s.remaining s.ledger)) [
        | inl e ↦ rw (same, record_late_capacity_conflict) refl
        | inr (finish, e) ↦ rw (same, record_late_capacity_conflict) refl
      ]

  plan_turn-reordered :
      (order : OrderInput) (start due : Time) (s : LoopState)
      → plan_turn reordered order start due s ≡ plan_turn req order start due s
  unfolding plan_turn
  plan_turn-reordered order start due s = cc (late-reordered order start due s)

  plan_loop-reordered :
      (order : OrderInput) (start due : Time) (fuel : ℕ) (s : LoopState)
      → plan_loop reordered order start due fuel s ≡ plan_loop req order start due fuel s
  unfolding plan_loop
  plan_loop-reordered order start due zero s = refl
  plan_loop-reordered order start due (suc fuel) s =
      subst
        (λ turn.
          follow (plan_loop reordered order start due fuel) (plan_turn reordered order start due s)
          ≡ follow (plan_loop req order start due fuel) turn)
        (plan_turn-reordered order start due s)
        (follow_cong (plan_loop-reordered order start due fuel)
          (plan_turn reordered order start due s))

  plan_order-reordered :
      (l : CapacityLedger) (r : PlanResult) (order : OrderInput)
      → plan_order reordered l r order ≡ plan_order req l r order
  unfolding plan_order
  plan_order-reordered l r order =
      let start : Time = schedule_start_date req.start_date req.current_date in
      rw
        (plan_loop-reordered order start (truncate_date order.due_date)
          (search_bound l start order.quantity) (begin order l r start))
        refl

  enter_allocations-reordered :
      (l : CapacityLedger) (list : List ExistingAllocation)
      → enter_allocations reordered l list ≡ enter_allocations req l list
  unfolding enter_allocations
  enter_allocations-reordered l [] = refl
  enter_allocations-reordered l (a ∷ list) =
      enter_allocations-reordered (enter_allocation req l a) list

  pub plan_orders-reordered :
      (l : CapacityLedger) (r : PlanResult) (list : List OrderInput)
      → plan_orders reordered l r list ≡ plan_orders req l r list
  unfolding plan_orders
  plan_orders-reordered l r [] = refl
  plan_orders-reordered l r (order ∷ list) =
      rw (plan_order-reordered l r order)
        (bind_cong (plan_order req l r order) (λ (l', r'). plan_orders-reordered l' r' list))

  pub build_capacity_ledger-reordered : build_capacity_ledger reordered ≡ build_capacity_ledger req
  unfolding build_capacity_ledger
  build_capacity_ledger-reordered = enter_allocations-reordered _ req.existing_allocations
