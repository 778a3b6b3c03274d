-- ===== src/Api/Evolution/Previews.antt =====
-- The confirmation of a preview of internal/api/server.go, on the map of orders.
use woms.Base.{
  ◌≡◌, refl, sym, ap, subst, ◌∙◌, inl, inr, true, some, String, str_eq, eq_iff, List, [], ◌∷◌,
  arith, Option-cases, Bool-cases,
}
use woms.Base.Maps.{Map, lookup, insert, lookup-insert, lookup_or}
use woms.Base.Results.{ok, Result-cases}
use woms.Clock.{Time}
use woms.Domain.{Order, OrderStatus}
use woms.Api.Requests.{Claims, ConfirmPreviewRequest, PreviewRecord, CreateOrderRequest}
use woms.Api.State.{
  Env, MemoryStore, bump_line_revision_locked, audit_locked, order_id_from_sequence,
}
use woms.Api.Validation.{can_sales_resubmit_status}
use woms.Api.Orders.{created_due_date}
use woms.Api.Previews.{
  apply_deferred_draft_locked, defer_preview_conflict_orders_locked, deferred_order,
  sales_conflict_deferred_reason, check_deferred, check_all_deferred,
  validate_sales_deferred_orders_locked, unique_order_ids, confirmable, settle_preview,
  confirm_preview_order, load_preview_for_confirmation_locked,
}
use woms.Api.Lifecycle.{
  Step, Moves, one_move, IsKeyed, Evolves, Evolves-refl, Evolves-trans, insert-Evolves,
  replace-Evolves,
}
use woms.Api.Evolution.Frame.{bump-orders}
use woms.Api.Evolution.Cancel.{
  IsNextFree, created_order, created_store, created_store-orders, create_order_locked-err,
  create_order_locked-ok,
}

-- The order is stored, and it is pending or rejected.
record IsDeferrable (m : Map Order) (id : String) : Type 0 where
  order : Order
  stored : lookup id m ≡ some order
  status : can_sales_resubmit_status order.status ≡ true

AllDeferrable : Map Order → List String → Type 0
AllDeferrable m [] = Unit
AllDeferrable m (id ∷ ids) = IsDeferrable m id × AllDeferrable m ids

-- Writes of pending and rejected orders keep that.
insert-IsDeferrable :
    (m : Map Order) (k id : String) (p : Order)
    → can_sales_resubmit_status p.status ≡ true
    → IsDeferrable m id
    → IsDeferrable (insert k p m) id
insert-IsDeferrable m k id p h d = elim (Bool-cases (str_eq k id)) [
  | inl same ↦ record {
    order = p;
    stored = ground (arith, lookup-insert k id p m, same);
    status = h;
  }
  | inr other ↦ record {
    order = d.order;
    stored = ground (arith, lookup-insert k id p m, other, d.stored);
    status = d.status;
  }
]

insert-AllDeferrable :
    (m : Map Order) (k : String) (p : Order) (ids : List String)
    → can_sales_resubmit_status p.status ≡ true
    → AllDeferrable m ids
    → AllDeferrable (insert k p m) ids
unfolding AllDeferrable
insert-AllDeferrable m k p [] h all = tt
insert-AllDeferrable m k p (id ∷ ids) h all =
    (insert-IsDeferrable m k id p h all.0, insert-AllDeferrable m k p ids h all.1)

rejectable : (a : OrderStatus) → can_sales_resubmit_status a ≡ true → Moves a OrderStatus.rejected
unfolding can_sales_resubmit_status
rejectable OrderStatus.pending h = one_move Step.reject
rejectable OrderStatus.rejected h = Moves.rest
rejectable OrderStatus.scheduled h = cc
rejectable OrderStatus.in_progress h = cc
rejectable OrderStatus.completed h = cc
rejectable OrderStatus.cancelled h = cc
rejectable OrderStatus.unset h = cc

defer-Evolves :
    (env : Env) (ids : List String) (claims : Claims) (s : MemoryStore)
    → IsKeyed s.orders
    → AllDeferrable s.orders ids
    → Evolves s.orders (defer_preview_conflict_orders_locked env ids claims s).orders
unfolding defer_preview_conflict_orders_locked AllDeferrable audit_locked lookup_or IsKeyed
    can_sales_resubmit_status
defer-Evolves env [] claims s keyed all = Evolves-refl s.orders keyed
defer-Evolves env (id ∷ ids) claims s keyed (d, all) =
    let o : Order = d.order in
    let p : Order = deferred_order env claims o in
    let written : MemoryStore = record s { orders = insert id p s.orders } in
    let next : MemoryStore =
      audit_locked env claims.subject "order.sales_conflict_defer" id sales_conflict_deferred_reason
        (bump_line_revision_locked o.line_id written) in
    let same : next.orders ≡ insert id p s.orders = bump-orders o.line_id written in
    let first : Evolves s.orders next.orders =
      subst (λ m. Evolves s.orders m) (sym same)
        (subst (λ k. Evolves s.orders (insert k p s.orders)) (keyed id o d.stored)
          (replace-Evolves s.orders id o p keyed d.stored
            (record { moves = rejectable o.status d.status; same = refl }))) in
    rw (defer_preview_conflict_orders_locked, lookup_or, d.stored)
      (Evolves-trans first (
        defer-Evolves env ids claims next first.keyed (
          subst (λ m. AllDeferrable m ids) (sym same)
            (insert-AllDeferrable s.orders id p ids refl all))))

checked-AllDeferrable :
    (preview : PreviewRecord) (claims : Claims) (s : MemoryStore) (ids : List String)
    → check_all_deferred preview claims s ids ≡ ok tt
    → AllDeferrable s.orders ids
unfolding check_all_deferred check_deferred AllDeferrable can_sales_resubmit_status
checked-AllDeferrable preview claims s [] h = tt
checked-AllDeferrable preview claims s (id ∷ ids) h = elim (Option-cases (lookup id s.orders)) [
  | inl missing ↦ ground (arith, missing, h)
  | inr (o, found) ↦ (
    record { order = o; stored = found; status = ground (arith, found, h) },
    checked-AllDeferrable preview claims s ids (ground (arith, h)),
  )
]

-- What `settle_preview` does to the orders, when the order of the draft is stored and pending.
settle-Evolves :
    (env : Env) (req : ConfirmPreviewRequest) (claims : Claims) (ids : List String) (order : Order)
    (s : MemoryStore)
    → IsKeyed s.orders
    → lookup order.id s.orders ≡ some order
    → order.status ≡ OrderStatus.pending
    → AllDeferrable s.orders ids
    → Evolves s.orders (settle_preview env req claims ids order s).0.orders
unfolding settle_preview apply_deferred_draft_locked audit_locked can_sales_resubmit_status
settle-Evolves env req claims ids order s keyed found pending all =
    elim (Bool-cases req.defer_draft) [
      | inr plain ↦ rw (settle_preview, plain) (defer-Evolves env ids claims s keyed all)
      | inl draft ↦
          let p : Order = (apply_deferred_draft_locked env order claims s).1 in
          let first : Evolves s.orders (insert p.id p s.orders) =
            replace-Evolves s.orders order.id order p keyed found (record {
              moves =
                  subst (λ x. Moves x OrderStatus.rejected) (sym pending) (one_move Step.reject);
              same = refl;
            }) in
          rw (settle_preview, draft)
            (Evolves-trans first (
              defer-Evolves env ids claims (apply_deferred_draft_locked env order claims s).0
                first.keyed (insert-AllDeferrable s.orders p.id p ids refl all)))
    ]

confirmable-AllDeferrable :
    (req : ConfirmPreviewRequest) (claims : Claims) (s : MemoryStore) (draft : CreateOrderRequest)
    (ids : List String)
    → confirmable req claims s ≡ ok (draft, ids)
    → AllDeferrable s.orders ids
unfolding confirmable validate_sales_deferred_orders_locked
confirmable-AllDeferrable req claims s draft ids h =
    elim (Result-cases (load_preview_for_confirmation_locked req claims s)) [
      | inr (e, refused) ↦ ground (arith, refused, h)
      | inl ((preview, d), loaded) ↦
          elim (Result-cases
            (check_all_deferred preview claims s (unique_order_ids req.deferred_order_ids))) [
              | inr (e, refused) ↦ ground (arith, loaded, refused, h)
              | inl (t, checked) ↦
                  subst (λ k. AllDeferrable s.orders k) (ground (arith, loaded, checked, h))
                    (checked-AllDeferrable preview claims s
                      (unique_order_ids req.deferred_order_ids) checked)
            ]
    ]

confirmed-Evolves :
    (env : Env) (req : ConfirmPreviewRequest) (claims : Claims) (s : MemoryStore)
    (draft : CreateOrderRequest) (ids : List String) (due : Time)
    → IsKeyed s.orders
    → IsNextFree s
    → AllDeferrable s.orders ids
    → Evolves s.orders
        (settle_preview env req claims ids
          (created_order env draft claims.subject due s)
          (created_store env draft claims.subject due s)).0.orders
unfolding IsNextFree can_sales_resubmit_status
confirmed-Evolves env req claims s draft ids due keyed free all =
    let id : String = order_id_from_sequence s.next_order_id in
    let order : Order = created_order env draft claims.subject due s in
    let store : MemoryStore = created_store env draft claims.subject due s in
    let same : store.orders ≡ insert id order s.orders =
      created_store-orders env draft claims.subject due s in
    let first : Evolves s.orders store.orders =
      subst (λ m. Evolves s.orders m) (sym same)
        (insert-Evolves s.orders id order keyed refl λ o found. ground (arith, free, found)) in
    Evolves-trans first (
      settle-Evolves env req claims ids order store first.keyed
        (ap (λ m. lookup id m) same
          ∙ ground (arith, lookup-insert id id order s.orders, eq_iff id id))
        refl
        (subst (λ m. AllDeferrable m ids) (sym same)
          (insert-AllDeferrable s.orders id order ids refl all)))

pub confirm_preview_order-Evolves :
    (env : Env) (req : ConfirmPreviewRequest) (claims : Claims) (s : MemoryStore)
    → IsKeyed s.orders
    → IsNextFree s
    → Evolves s.orders (confirm_preview_order env req claims s).0.orders
unfolding confirm_preview_order
confirm_preview_order-Evolves env req claims s keyed free =
    elim (Result-cases (confirmable req claims s)) [
      | inr (e, refused) ↦ rw (confirm_preview_order, refused) (Evolves-refl s.orders keyed)
      | inl ((draft, ids), ready) ↦ elim (Result-cases (created_due_date env draft s)) [
        | inr (e, refused) ↦
            let made = create_order_locked-err env draft claims.subject s e refused in
            rw (confirm_preview_order, ready, ap (λ r. r.1) made, ap (λ r. r.0) made)
              (Evolves-refl s.orders keyed)
        | inl (due, dated) ↦
            let made = create_order_locked-ok env draft claims.subject s due dated in
            rw (confirm_preview_order, ready, ap (λ r. r.1) made, ap (λ r. r.0) made)
              (confirmed-Evolves env req claims s draft ids due keyed free
                (confirmable-AllDeferrable req claims s draft ids ready))
      ]
    ]
