-- ===== src/Scheduler/Confirm.antt =====
-- `ConfirmProduction` of internal/scheduler/scheduler.go. The produced quantity is a Go `int` from
-- a request, so it may be negative.
use woms.Base.{ℕ, ◌-◌, Bool, true, false, Option, none, some, ◌==◌, ltb, if◌then◌else◌}
use woms.Base.Int.{ℤ, pos, negsuc}
use woms.Base.Results.{Result, ok, err}
use woms.Clock.{Time}
use woms.Domain.{Order, OrderStatus}
use woms.Scheduler.Types.{invalid_request}

pub record ConfirmationResult : Type 0 where
  pub is_completed : Bool
  pub remainder : Option Order

-- The branch of a quantity that is not negative.
unfoldable pub confirm_quantity : Order → ℕ → Time → Result ConfirmationResult
confirm_quantity order produced now =
    if ltb order.quantity produced
    then err invalid_request
    else if produced == order.quantity
    then ok (record { is_completed = true; remainder = none })
    else ok (record {
      is_completed = false;
      remainder = some (record order {
        id = "";
        quantity = order.quantity - produced;
        status = OrderStatus.pending;
        source_order = order.id;
        created_at = now;
        updated_at = now;
      });
    })

unfoldable pub confirm_production : Order → ℤ → Time → Result ConfirmationResult
unfolding confirm_quantity
confirm_production order (negsuc n) now = err invalid_request
confirm_production order (pos produced) now = confirm_quantity order produced now
