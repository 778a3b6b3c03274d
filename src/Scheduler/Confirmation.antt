-- ===== src/Scheduler/Confirmation.antt =====
-- What `ConfirmProduction` decides.
use woms.Base.{
  ℕ, ◌+◌, ◌<◌, ◌≡◌, refl, ◌⊎◌, inl, inr, true, false, none, some, arith, Bool-cases, ltb, ◌==◌, ◌-◌,
}
use woms.Base.Int.{ℤ, pos, negsuc}
use woms.Base.Results.{ok, err}
use woms.Clock.{Time}
use woms.Domain.{Order, OrderStatus}
use woms.Scheduler.Types.{invalid_request}
use woms.Scheduler.Confirm.{confirm_production}

-- The remainder of an order of which `produced` is done.
pub record IsRemainder (order : Order) (produced : ℕ) (now : Time) (rest : Order) : Type 0 where
  pub quantities : produced + rest.quantity ≡ order.quantity
  pub positive : 0 < rest.quantity
  pub status : rest.status ≡ OrderStatus.pending
  pub source : rest.source_order ≡ order.id
  pub line : rest.line_id ≡ order.line_id
  pub priority : rest.priority ≡ order.priority
  pub due : rest.due_date ≡ order.due_date
  pub author : rest.created_by ≡ order.created_by
  pub created : rest.created_at ≡ now

abbrev pub Confirms : Order → ℤ → Time → Type 0
Confirms order (negsuc n) now = confirm_production order (negsuc n) now ≡ err invalid_request
Confirms order (pos produced) now =
    (order.quantity < produced)
      × (confirm_production order (pos produced) now ≡ err invalid_request)
    ⊎ (produced ≡ order.quantity)
      × (confirm_production order (pos produced) now
          ≡ ok (record { is_completed = true; remainder = none }))
    ⊎ (produced < order.quantity)
      × ((rest : Order) × (confirm_production order (pos produced) now
            ≡ ok (record { is_completed = false; remainder = some rest }))
          × IsRemainder order produced now rest)

-- A confirmation refuses a negative quantity and one above the order's; for the order's own quantity
-- it completes the order with no remainder; below it, it returns a pending remainder that has a
-- positive quantity, names the order as its source, keeps its line, priority, due date and author,
-- and makes up the order's quantity together with the produced one.
pub confirm_production-Confirms :
    (order : Order) (produced : ℤ) (now : Time) → Confirms order produced now
unfolding confirm_production
confirm_production-Confirms order (negsuc n) now = refl
confirm_production-Confirms order (pos produced) now =
    elim (Bool-cases (ltb order.quantity produced)) [
      | inl above ↦ inl (ground arith, rw above)
      | inr within ↦ elim (Bool-cases (produced == order.quantity)) [
        | inl equal ↦ inr (inl (ground arith, rw (within, equal)))
        | inr below ↦
            inr (inr (ground arith, (remainder, rw (within, below), parts (ground arith))))
      ]
    ]
  where
    remainder : Order
    remainder = record order {
      id = "";
      quantity = order.quantity - produced;
      status = OrderStatus.pending;
      source_order = order.id;
      created_at = now;
      updated_at = now;
    }

    parts : produced < order.quantity → IsRemainder order produced now remainder
    parts h = record {
      quantities = omega arith;
      positive = omega arith;
      status = refl;
      source = refl;
      line = refl;
      priority = refl;
      due = refl;
      author = refl;
      created = refl;
    }
