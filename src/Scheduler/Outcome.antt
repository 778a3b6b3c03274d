-- ===== src/Scheduler/Outcome.antt =====
-- When `Plan` returns a plan, and when an error.
use woms.Base.{◌≡◌, ◌⊎◌, inl, inr, Bool, List, [], ◌∷◌, All, Bool-cases}
use woms.Base.Results.{ok, err, ok≢err}
use woms.Base.{sym, ◌∙◌}
use woms.Clock.{truncate_date}
use woms.Scheduler.Types.{OrderInput, Request, PlanResult, validate_request, invalid_request}
use woms.Scheduler.Sorting.{insert_sorted, stable_sort, order_less, sorted_orders}
use woms.Scheduler.Plan.{plan}
use woms.Scheduler.Rule.{Rule}
use woms.Scheduler.Answers.{IsValidOrder, plan_order_rule, plan-Answer}

module _ {ℓ κ} {A : Type ℓ} (less : A → A → Bool) (P : A → Type κ) where
  insert_sorted-All : (x : A) (xs : List A) → P x → All P xs → All P (insert_sorted less x xs)
  unfolding insert_sorted
  insert_sorted-All x [] h all = (h, tt)
  insert_sorted-All x (y ∷ ys) h all = elim (Bool-cases (less y x)) [
    | inl e ↦ rw e (all.0, insert_sorted-All x ys h all.1)
    | inr e ↦ rw e (h, all)
  ]

  All-of_insert_sorted : (x : A) (xs : List A) → All P (insert_sorted less x xs) → P x × All P xs
  unfolding insert_sorted
  All-of_insert_sorted x [] all = all
  All-of_insert_sorted x (y ∷ ys) all = elim (Bool-cases (less y x)) [
    | inl e ↦
        let both = (rw e at all) in
        let rest = All-of_insert_sorted x ys both.1 in (rest.0, (both.0, rest.1))
    | inr e ↦ rw e at all
  ]

  pub stable_sort-All : (xs : List A) → All P xs → All P (stable_sort less xs)
  unfolding stable_sort
  stable_sort-All [] all = tt
  stable_sort-All (x ∷ xs) all =
      insert_sorted-All x (stable_sort less xs) all.0 (stable_sort-All xs all.1)

  pub All-of_stable_sort : (xs : List A) → All P (stable_sort less xs) → All P xs
  unfolding stable_sort
  All-of_stable_sort [] all = tt
  All-of_stable_sort (x ∷ xs) all =
      let rest = All-of_insert_sorted x (stable_sort less xs) all in
      (rest.0, All-of_stable_sort xs rest.1)

-- The request and every order in it pass the planner's validation.
pub record IsAccepted (req : Request) : Type 0 where
  pub request : validate_request req ≡ ok tt
  pub orders : All (IsValidOrder req.line_id) req.orders

any-Rule :
    (req : Request) (order : OrderInput)
    → Rule req order (truncate_date order.due_date) (λ s. Unit {0}) (λ s. Unit {0})
any-Rule req order = record {
  stop = λ s _ _. tt;
  late = λ s finish ids _ _ _ _. tt;
  skip = λ s _ _. tt;
  fill = λ s available _ _ _ _ _. tt;
}

-- The planner's loops end on every request: `Plan` returns a plan exactly if the request and all its
-- orders are valid, and the error for an invalid request otherwise, never one of a loop.
pub plan_outcome :
    (req : Request)
    → ((r : PlanResult) × (plan req ≡ ok r) × IsAccepted req)
      ⊎ (plan req ≡ err invalid_request) × (¬ IsAccepted req)
unfolding sorted_orders
plan_outcome req =
    elim (plan-Answer req (λ l r rest. Unit {0})
      (λ room ledger result order rest _ valid.
        plan_order_rule req ledger result order room (any-Rule req order) valid tt)
      (λ valid. tt)) [
        | inl (valid, inl (r, l, e, _, all)) ↦ inl (
          r,
          e,
          record { request = valid; orders = All-of_stable_sort order_less _ req.orders all },
        )
        | inl (valid, inr (e, not_all)) ↦
            inr (e, λ a. not_all (stable_sort-All order_less _ req.orders a.orders))
        | inr (refused, e) ↦ inr (e, λ a. ok≢err (sym a.request ∙ refused))
      ]
