-- ===== src/Api/Evolution/Production.antt =====
-- The production operations of internal/api/server.go, on the map of orders.
use woms.Base.{
  ℕ, ◌≡◌, refl, sym, ap, subst, inl, inr, true, false, some, String, eq_iff, arith, Option-cases,
}
use woms.Base.Maps.{lookup, insert, has, lookup-insert}
use woms.Base.Results.{ok, Result-cases}
use woms.Clock.{Time}
use woms.Domain.{Order, OrderStatus, status_eq, status_eq_iff}
use woms.Scheduler.Confirm.{ConfirmationResult, confirm_production}
use woms.Api.Requests.{Claims, ProductionStartRequest, ProductionConfirmRequest}
use woms.Api.State.{Env, MemoryStore, audit_locked}
use woms.Api.Allocations.{
  lock_allocations_locked, complete_production_allocation_locked,
  replace_order_allocations_with_completed_locked,
}
use woms.Api.Production.{
  validate_production_start_locked, start_production, validate_production_confirm_locked,
  complete_production_order_locked, partial_production_order_locked, apply_confirmation,
  confirm_production_order, produced_number,
}
use woms.Api.Freshness.{remainder_id-IsFresh}
use woms.Api.Lifecycle.{
  Step, Moves, one_move, IsKeyed, Evolves, Evolves-refl, Evolves-trans, insert-Evolves,
  replace-Evolves,
}
use woms.Api.Evolution.Frame.{bump-orders, committing-Evolves}

from_status :
    {b : OrderStatus} (o : Order) (a : OrderStatus)
    → status_eq o.status a ≡ true
    → Step a b
    → Moves o.status b
from_status {b} o a h step =
    subst (λ x. Moves x b) (sym ((status_eq_iff o.status a).0 h)) (one_move step)

pub start_production-Evolves :
    (env : Env) (req : ProductionStartRequest) (claims : Claims) (s : MemoryStore)
    → IsKeyed s.orders
    → Evolves s.orders (start_production env req claims s).0.orders
unfolding start_production audit_locked lock_allocations_locked validate_production_start_locked
start_production-Evolves env req claims s keyed =
    committing-Evolves s (validate_production_start_locked req claims s) _ keyed λ o h.
      subst (λ m. Evolves s.orders m) (sym (bump-orders o.line_id _))
        (replace-Evolves s.orders req.order_id o
          (record o { status = OrderStatus.in_progress; updated_at = env.now }) keyed (ground arith)
          (record {
            moves = from_status o OrderStatus.scheduled (ground arith) Step.start;
            same = refl;
          }))

-- The order of a confirmation is in the store and in progress.
pub confirmed_order :
    (req : ProductionConfirmRequest) (claims : Claims) (s : MemoryStore) (o : Order) (date : Time)
    → validate_production_confirm_locked req claims s ≡ ok (o, date)
    → (lookup req.order_id s.orders ≡ some o) × (status_eq o.status OrderStatus.in_progress ≡ true)
unfolding validate_production_confirm_locked
confirmed_order req claims s o date h = (ground arith, ground arith)

complete-Evolves :
    (env : Env) (id : String) (o : Order) (date : Time) (actor : String) (s : MemoryStore)
    → IsKeyed s.orders
    → lookup id s.orders ≡ some o
    → status_eq o.status OrderStatus.in_progress ≡ true
    → Evolves s.orders (complete_production_order_locked env o date actor s).0.orders
unfolding complete_production_order_locked audit_locked complete_production_allocation_locked
complete-Evolves env id o date actor s keyed found running =
    subst (λ m. Evolves s.orders m) (sym (bump-orders o.line_id _))
      (replace-Evolves s.orders id o
        (record o { status = OrderStatus.completed; updated_at = env.now }) keyed found
        (record { moves = from_status o OrderStatus.in_progress running Step.finish; same = refl }))

-- The remainder is a new order: the two writes of a partial confirmation.
partial-Evolves :
    (env : Env) (id new : String) (o rest : Order) (produced : ℕ) (date : Time) (actor : String)
    (s : MemoryStore)
    → IsKeyed s.orders
    → lookup id s.orders ≡ some o
    → status_eq o.status OrderStatus.in_progress ≡ true
    → has new s.orders ≡ false
    → Evolves s.orders
        (partial_production_order_locked env o rest new produced date actor s).0.orders
unfolding partial_production_order_locked audit_locked
    replace_order_allocations_with_completed_locked has IsKeyed
partial-Evolves env id new o rest produced date actor s keyed found running free =
    let p : Order = record o {
      quantity = produced;
      status = OrderStatus.completed;
      updated_at = env.now;
    } in
    let q : Order = record rest { id = new; created_at = env.now; updated_at = env.now } in
    let own : o.id ≡ id = keyed id o found in
    let first : Evolves s.orders (insert p.id p s.orders) =
      replace-Evolves s.orders id o p keyed found (record {
        moves = from_status o OrderStatus.in_progress running Step.finish;
        same = refl;
      }) in
    subst (λ m. Evolves s.orders m) (sym (bump-orders o.line_id _))
      (Evolves-trans first (
        insert-Evolves (insert p.id p s.orders) new q first.keyed refl λ x h. ground (
          arith,
          lookup-insert o.id new p s.orders,
          eq_iff o.id new,
          own,
          found,
          free,
          h,
          ap (λ k. lookup k s.orders) own,
        )))

apply_confirmation-Evolves :
    (env : Env) (req : ProductionConfirmRequest) (claims : Claims) (o : Order) (date : Time)
    (result : ConfirmationResult) (s : MemoryStore)
    → IsKeyed s.orders
    → lookup req.order_id s.orders ≡ some o
    → status_eq o.status OrderStatus.in_progress ≡ true
    → Evolves s.orders (apply_confirmation env req claims o date result s).0.orders
unfolding apply_confirmation
apply_confirmation-Evolves env req claims o date result s keyed found running =
    elim (Option-cases result.remainder) [
      | inl whole ↦
          rw (apply_confirmation, whole)
            (complete-Evolves env req.order_id o date claims.subject s keyed found running)
      | inr (rest, part) ↦
          let (id, searched, free) = remainder_id-IsFresh o s in
          rw (apply_confirmation, part, searched)
            (partial-Evolves env req.order_id id o rest (produced_number req.produced_quantity) date
              claims.subject s keyed found running free)
    ]

pub confirm_production_order-Evolves :
    (env : Env) (req : ProductionConfirmRequest) (claims : Claims) (s : MemoryStore)
    → IsKeyed s.orders
    → Evolves s.orders (confirm_production_order env req claims s).0.orders
unfolding confirm_production_order
confirm_production_order-Evolves env req claims s keyed =
    elim (Result-cases (validate_production_confirm_locked req claims s)) [
      | inr (e, refused) ↦ rw (confirm_production_order, refused) (Evolves-refl s.orders keyed)
      | inl ((o, date), valid) ↦
          elim (Result-cases (confirm_production o req.produced_quantity env.now)) [
            | inr (e, refused) ↦
                rw (confirm_production_order, valid, refused) (Evolves-refl s.orders keyed)
            | inl (result, confirmed) ↦
                let (found, running) = confirmed_order req claims s o date valid in
                rw (confirm_production_order, valid, confirmed)
                  (apply_confirmation-Evolves env req claims o date result s keyed found running)
          ]
    ]
