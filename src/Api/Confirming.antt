-- ===== src/Api/Confirming.antt =====
-- What `ConfirmProduction` of internal/api/server.go stores: the quantities of an order and of its
-- remainder.
use woms.Base.{◌+◌, ◌≡◌, ◌⊎◌, false, none, some}
use woms.Base.Maps.{lookup, has}
use woms.Domain.{Order, OrderStatus}
use woms.Api.Requests.{ProductionConfirmResponse}
use woms.Api.State.{MemoryStore}

-- The whole order was produced.
pub record IsWhole (o : Order) (t : MemoryStore) (r : ProductionConfirmResponse) : Type 0 where
  pub remainder : r.remainder ≡ none
  pub quantity : r.order.quantity ≡ o.quantity
  pub stored : lookup o.id t.orders ≡ some r.order
  pub status : r.order.status ≡ OrderStatus.completed

-- A part of it was produced, and the rest is a new pending order.
pub record IsPart (o : Order) (s t : MemoryStore) (r : ProductionConfirmResponse) : Type 0 where
  pub rest : Order
  pub remainder : r.remainder ≡ some rest
  pub quantities : r.order.quantity + rest.quantity ≡ o.quantity
  pub stored : lookup o.id t.orders ≡ some r.order
  pub status : r.order.status ≡ OrderStatus.completed
  pub fresh : has rest.id s.orders ≡ false
  pub rest_stored : lookup rest.id t.orders ≡ some rest
  pub rest_status : rest.status ≡ OrderStatus.pending
  pub source : rest.source_order ≡ o.id

abbrev Kept : Order → MemoryStore → MemoryStore → ProductionConfirmResponse → Type 0
Kept o s t r = IsWhole o t r ⊎ IsPart o s t r
