-- ===== src/Api/Evolution/Cancel.antt =====
-- The creation and cancellation of orders of internal/api/server.go, on the map of orders.
use woms.Base.{
  suc, ◌≡◌, refl, sym, subst, inl, inr, none, some, String, List, [], ◌∷◌, arith, Option-cases,
  Bool-cases, is_empty,
}
use woms.Base.Maps.{lookup, insert}
use woms.Base.Results.{ok, err, Result-cases}
use woms.Clock.{Time}
use woms.Domain.{Order, OrderStatus, status_eq}
use woms.Api.Requests.{Claims, CreateOrderRequest, CancelOrdersRequest, CancelOrdersResponse}
use woms.Api.State.{
  Env, MemoryStore, bump_line_revision_locked, audit_locked, put_order, order_id_from_sequence,
}
use woms.Api.Validation.{can_cancel_order}
use woms.Api.Allocations.{remove_allocations_locked}
use woms.Api.Orders.{create_order_locked, created_due_date, new_order, cancel_loop, cancel_orders}
use woms.Api.Lifecycle.{
  Step, one_move, IsKeyed, Evolves, Evolves-refl, Evolves-trans, insert-Evolves, replace-Evolves,
}
use woms.Api.Evolution.Frame.{bump-orders, committing-Evolves}

-- The ID that the next order will get is not used yet.
unfoldable pub IsNextFree : MemoryStore → Type 0
IsNextFree s = lookup (order_id_from_sequence s.next_order_id) s.orders ≡ none

pub create_order_locked-Evolves :
    (env : Env) (req : CreateOrderRequest) (actor : String) (s : MemoryStore)
    → IsKeyed s.orders
    → IsNextFree s
    → Evolves s.orders (create_order_locked env req actor s).0.orders
unfolding create_order_locked audit_locked IsNextFree
create_order_locked-Evolves env req actor s keyed free =
    committing-Evolves s (created_due_date env req s) _ keyed λ due h.
      let id : String = order_id_from_sequence s.next_order_id in
      let order : Order = new_order env req actor id due in
      subst (λ m. Evolves s.orders m)
        (sym (
          bump-orders order.line_id
            (put_order order (record s { next_order_id = suc s.next_order_id }))))
        (insert-Evolves s.orders id order keyed refl λ o found. ground (arith, free, found))

-- The order and the store of a creation that passes its checks.
abbrev pub created_order : Env → CreateOrderRequest → String → Time → MemoryStore → Order
created_order env req actor due s =
    new_order env req actor (order_id_from_sequence s.next_order_id) due

abbrev pub created_store : Env → CreateOrderRequest → String → Time → MemoryStore → MemoryStore
created_store env req actor due s =
    let order : Order = created_order env req actor due s in
    audit_locked env actor "order.create" order.id "" (
      bump_line_revision_locked order.line_id
        (put_order order (record s { next_order_id = suc s.next_order_id })))

pub create_order_locked-err :
    (env : Env) (req : CreateOrderRequest) (actor : String) (s : MemoryStore) (e : String)
    → created_due_date env req s ≡ err e
    → create_order_locked env req actor s ≡ (s, err e)
unfolding create_order_locked
create_order_locked-err env req actor s e h = rw (create_order_locked, h) refl

pub create_order_locked-ok :
    (env : Env) (req : CreateOrderRequest) (actor : String) (s : MemoryStore) (due : Time)
    → created_due_date env req s ≡ ok due
    → create_order_locked env req actor s
      ≡ (created_store env req actor due s, ok (created_order env req actor due s))
unfolding create_order_locked
create_order_locked-ok env req actor s due h = rw (create_order_locked, h) refl

pub created_store-orders :
    (env : Env) (req : CreateOrderRequest) (actor : String) (due : Time) (s : MemoryStore)
    → (created_store env req actor due s).orders
      ≡ insert (order_id_from_sequence s.next_order_id) (created_order env req actor due s) s.orders
unfolding audit_locked
created_store-orders env req actor due s = bump-orders req.line_id (
    put_order (created_order env req actor due s)
      (record s { next_order_id = suc s.next_order_id }))

abbrev cancelled_order : Env → Order → Order
cancelled_order env order = record order { status = OrderStatus.cancelled; updated_at = env.now }

abbrev cancelled_store : Env → Claims → String → Order → MemoryStore → MemoryStore
cancelled_store env claims id order s = audit_locked env claims.subject "order.cancel" id "" (
    bump_line_revision_locked order.line_id
      (remove_allocations_locked id (put_order (cancelled_order env order) s)))

cancellable :
    (claims : Claims) (order : Order) (t : Unit {0})
    → can_cancel_order order claims ≡ ok t
    → Step order.status OrderStatus.cancelled
unfolding can_cancel_order
cancellable claims order t h = Step.cancel (ground arith) (ground arith)

cancelled_store-Evolves :
    (env : Env) (claims : Claims) (id : String) (order : Order) (t : Unit {0}) (s : MemoryStore)
    → IsKeyed s.orders
    → lookup id s.orders ≡ some order
    → can_cancel_order order claims ≡ ok t
    → Evolves s.orders (cancelled_store env claims id order s).orders
unfolding audit_locked remove_allocations_locked
cancelled_store-Evolves env claims id order t s keyed found h =
    subst (λ m. Evolves s.orders m) (sym (bump-orders order.line_id _))
      (replace-Evolves s.orders id order (cancelled_order env order) keyed found
        (record { moves = one_move (cancellable claims order t h); same = refl }))

pub cancel_loop-Evolves :
    (env : Env) (claims : Claims) (ids : List String) (done : CancelOrdersResponse)
    (s : MemoryStore)
    → IsKeyed s.orders
    → Evolves s.orders (cancel_loop env claims ids done s).0.orders
unfolding cancel_loop
cancel_loop-Evolves env claims [] done s keyed = Evolves-refl s.orders keyed
cancel_loop-Evolves env claims (id ∷ ids) done s keyed = elim (Option-cases (lookup id s.orders)) [
  | inl missing ↦ rw (cancel_loop, missing) (cancel_loop-Evolves env claims ids _ s keyed)
  | inr (order, found) ↦ elim (Bool-cases (status_eq order.status OrderStatus.cancelled)) [
    | inl already ↦ rw (cancel_loop, found, already) (cancel_loop-Evolves env claims ids _ s keyed)
    | inr not_yet ↦ elim (Result-cases (can_cancel_order order claims)) [
      | inr (e, refused) ↦ rw (cancel_loop, found, not_yet, refused) (Evolves-refl s.orders keyed)
      | inl (t, allowed) ↦
          let first = cancelled_store-Evolves env claims id order t s keyed found allowed in
          rw (cancel_loop, found, not_yet, allowed)
            (Evolves-trans first (cancel_loop-Evolves env claims ids _ _ first.keyed))
    ]
  ]
]

pub cancel_orders-Evolves :
    (env : Env) (req : CancelOrdersRequest) (claims : Claims) (s : MemoryStore)
    → IsKeyed s.orders
    → Evolves s.orders (cancel_orders env req claims s).0.orders
unfolding cancel_orders
cancel_orders-Evolves env req claims s keyed = elim (Bool-cases (is_empty req.order_ids)) [
  | inl empty ↦ rw (cancel_orders, empty) (Evolves-refl s.orders keyed)
  | inr some_ids ↦
      rw (cancel_orders, some_ids) (cancel_loop-Evolves env claims req.order_ids _ s keyed)
]
