-- ===== src/Api/Evolution/Orders.antt =====
-- The update, resubmission and rejection of orders of internal/api/server.go, on the map of orders.
use woms.Base.{
  ◌≡◌, refl, sym, subst, ◌∙◌, inl, inr, true, some, String, List, [], ◌∷◌, ◌++◌, arith,
  Option-cases,
}
use woms.Base.Int.{ℤ}
use woms.Base.Maps.{lookup}
use woms.Base.Results.{ok, Result-cases}
use woms.Domain.{Order, OrderStatus, status_eq_iff}
use woms.Api.Requests.{Claims, UpdateOrderRequest, RejectOrdersRequest, ResubmitOrderRequest}
use woms.Api.State.{Env, MemoryStore}
use woms.Api.Validation.{
  apply_optional_quantity, apply_optional_due_date, can_reject_order, can_sales_resubmit_status,
  reset_rejected_state,
}
use woms.Api.Orders.{
  with_due_date, updated_order, update_order_due_date, commit_order, rejectable_order,
  rejected_order, reject_loop, reject_orders, rejection_reason, resubmitted_order, resubmit_order,
}
use woms.Api.Lifecycle.{
  Step, Moves, one_move, identity, Evolution, IsKeyed, Evolves, Evolves-refl, Evolves-trans,
}
use woms.Api.Evolution.Frame.{commit_order-Evolves, committing-Evolves}

-- The details that an update may change leave the status and the identity.
record IsDetail (o p : Order) : Type 0 where
  status : p.status ≡ o.status
  same : identity p ≡ identity o

IsDetail-Evolution : {o p : Order} → IsDetail o p → Evolution o p
IsDetail-Evolution {o} {p} d = record {
  moves = subst (λ x. Moves o.status x) (sym d.status) Moves.rest;
  same = d.same;
}

IsDetail-trans : {o p q : Order} → IsDetail o p → IsDetail p q → IsDetail o q
IsDetail-trans d e = record { status = e.status ∙ d.status; same = e.same ∙ d.same }

apply_optional_quantity-IsDetail :
    (o p : Order) (quantity : ℤ) → apply_optional_quantity o quantity ≡ ok p → IsDetail o p
unfolding apply_optional_quantity
apply_optional_quantity-IsDetail o p quantity h = ground arith

with_due_date-IsDetail :
    (env : Env) (s : MemoryStore) (o p : Order) (due : String)
    → with_due_date env s o due ≡ ok p
    → IsDetail o p
unfolding with_due_date apply_optional_due_date
with_due_date-IsDetail env s o p due h = ground (arith)

pub updated_order-Evolution :
    (env : Env) (id : String) (req : UpdateOrderRequest) (claims : Claims) (s : MemoryStore)
    (p : Order)
    → updated_order env id req claims s ≡ ok p
    → (o : Order) × (lookup id s.orders ≡ some o) × Evolution o p
unfolding updated_order
updated_order-Evolution env id req claims s p h = elim (Option-cases (lookup id s.orders)) [
  | inl missing ↦ ground arith
  | inr (o, found) ↦ elim (Result-cases (with_due_date env s o req.due_date)) [
    | inr (e, refused) ↦ ground arith
    | inl (d, dated) ↦ elim (Result-cases (apply_optional_quantity d req.quantity)) [
      | inr (e, refused) ↦ ground arith
      | inl (c, counted) ↦
          let first = with_due_date-IsDetail env s o d req.due_date dated in
          let second = apply_optional_quantity-IsDetail d c req.quantity counted in
          (
            o,
            found,
            IsDetail-Evolution (IsDetail-trans (IsDetail-trans first second) (ground arith)),
          )
    ]
  ]
]

pub update_order_due_date-Evolves :
    (env : Env) (id : String) (req : UpdateOrderRequest) (claims : Claims) (s : MemoryStore)
    → IsKeyed s.orders
    → Evolves s.orders (update_order_due_date env id req claims s).0.orders
unfolding update_order_due_date
update_order_due_date-Evolves env id req claims s keyed =
    committing-Evolves s (updated_order env id req claims s) _ keyed λ p h.
      let (o, found, step) = updated_order-Evolution env id req claims s p h in
      commit_order-Evolves env s id o p claims.subject "order.update_due_date" req.due_date keyed
        found step

-- The successor keeps the status at first: the source changes it in `resubmitted_order` alone.
resubmittable : (a : OrderStatus) → can_sales_resubmit_status a ≡ true → Moves a OrderStatus.pending
unfolding can_sales_resubmit_status
resubmittable OrderStatus.pending h = Moves.rest
resubmittable OrderStatus.rejected h = one_move Step.resubmit
resubmittable OrderStatus.scheduled h = cc
resubmittable OrderStatus.in_progress h = cc
resubmittable OrderStatus.completed h = cc
resubmittable OrderStatus.cancelled h = cc
resubmittable OrderStatus.unset h = cc

pub resubmitted_order-Evolution :
    (env : Env) (req : ResubmitOrderRequest) (claims : Claims) (s : MemoryStore) (p : Order)
    → resubmitted_order env req claims s ≡ ok p
    → (o : Order) × (lookup req.order_id s.orders ≡ some o) × Evolution o p
unfolding resubmitted_order reset_rejected_state
resubmitted_order-Evolution env req claims s p h =
    elim (Option-cases (lookup req.order_id s.orders)) [
      | inl missing ↦ ground arith
      | inr (o, found) ↦ elim (Result-cases (apply_optional_quantity o req.quantity)) [
        | inr (e, refused) ↦ ground arith
        | inl (c, counted) ↦ elim (Result-cases (with_due_date env s c req.due_date)) [
          | inr (e, refused) ↦ ground arith
          | inl (d, dated) ↦
              let first = apply_optional_quantity-IsDetail o c req.quantity counted in
              let second = with_due_date-IsDetail env s c d req.due_date dated in
              let both = IsDetail-trans first second in
              (
                o,
                found,
                record {
                  moves =
                      subst (λ x. Moves o.status x) (ground arith)
                        (resubmittable o.status (ground arith));
                  same = ground (arith, both.same);
                },
              )
        ]
      ]
    ]

pub resubmit_order-Evolves :
    (env : Env) (req : ResubmitOrderRequest) (claims : Claims) (s : MemoryStore)
    → IsKeyed s.orders
    → Evolves s.orders (resubmit_order env req claims s).0.orders
unfolding resubmit_order
resubmit_order-Evolves env req claims s keyed =
    committing-Evolves s (resubmitted_order env req claims s) _ keyed λ p h.
      let (o, found, step) = resubmitted_order-Evolution env req claims s p h in
      commit_order-Evolves env s req.order_id o p claims.subject "order.resubmit" "" keyed found
        step

rejectable_order-Evolution :
    (env : Env) (reason id : String) (claims : Claims) (s : MemoryStore) (o : Order)
    → rejectable_order id claims s ≡ ok o
    → (lookup id s.orders ≡ some o) × Evolution o (rejected_order env reason claims o)
unfolding rejectable_order can_reject_order
rejectable_order-Evolution env reason id claims s o h = (
  ground arith,
  record {
    moves =
        subst (λ x. Moves x OrderStatus.rejected)
          (sym ((status_eq_iff o.status _).0 (ground arith))) (one_move Step.reject);
    same = refl;
  },
)

pub reject_loop-Evolves :
    (env : Env) (reason : String) (claims : Claims) (ids : List String) (done : List Order)
    (s : MemoryStore)
    → IsKeyed s.orders
    → Evolves s.orders (reject_loop env reason claims ids done s).0.orders
unfolding reject_loop
reject_loop-Evolves env reason claims [] done s keyed = Evolves-refl s.orders keyed
reject_loop-Evolves env reason claims (id ∷ ids) done s keyed =
    elim (Result-cases (rejectable_order id claims s)) [
      | inr (e, refused) ↦ rw (reject_loop, refused) (Evolves-refl s.orders keyed)
      | inl (o, ready) ↦
          let (found, step) = rejectable_order-Evolution env reason id claims s o ready in
          let p : Order = rejected_order env reason claims o in
          let first =
            commit_order-Evolves env s id o p claims.subject "order.reject" reason keyed found
              step in
          rw (reject_loop, ready)
            (Evolves-trans first (
              reject_loop-Evolves env reason claims ids (done ++ p ∷ [])
                (commit_order env p claims.subject "order.reject" reason s) first.keyed))
    ]

pub reject_orders-Evolves :
    (env : Env) (req : RejectOrdersRequest) (claims : Claims) (s : MemoryStore)
    → IsKeyed s.orders
    → Evolves s.orders (reject_orders env req claims s).0.orders
unfolding reject_orders
reject_orders-Evolves env req claims s keyed = elim (Result-cases (rejection_reason req)) [
  | inr (e, refused) ↦ rw (reject_orders, refused) (Evolves-refl s.orders keyed)
  | inl (reason, ready) ↦
      rw (reject_orders, ready) (reject_loop-Evolves env reason claims req.order_ids [] s keyed)
]
