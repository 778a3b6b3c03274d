-- ===== src/Api/Evolution/Demo.antt =====
-- The orders of the conflict demonstration of internal/api/server.go.
use woms.Base.{
  List, ◌∷◌, ℕ, zero, suc, ◌≤◌, ◌≡◌, refl, sym, ap, subst, ◌∙◌, inl, inr, none, String, str_eq,
  eq_iff, arith, Bool-cases, Option-cases,
}
use woms.Base.Decimal.{itoa_padded-injective}
use woms.Base.Maps.{lookup, lookup-insert}
use woms.Base.Results.{Result, ok, err, ◌>>=◌, Result-cases}
use woms.Clock.{Time}
use woms.Domain.{Order}
use woms.Api.Requests.{Claims, CreateOrderRequest}
use woms.Api.State.{
  Env, MemoryStore, order_id_from_sequence, bump_line_revision_locked, audit_locked, put_order,
}
use woms.Api.Orders.{created_due_date}
use woms.Api.Demo.{
  DemoConflictRequest, conflict_order, create_conflict_orders, create_demo_conflict_orders,
  demo_request, demo_line_id, relabel_last,
}
use woms.Api.Lifecycle.{IsKeyed, Evolves, Evolves-refl, Evolves-trans}
use woms.Api.Evolution.Cancel.{
  IsNextFree, create_order_locked-Evolves, create_order_locked-err, create_order_locked-ok,
  created_order, created_store, created_store-orders,
}
use text.Mathlib.TextLemmas.{append_cancel_left}

-- The IDs that the orders to come will get are not used yet.
abbrev pub AreNextFree : MemoryStore → Type 0
AreNextFree s = (n : ℕ) → s.next_order_id ≤ n → lookup (order_id_from_sequence n) s.orders ≡ none

next_free : (s : MemoryStore) → AreNextFree s → IsNextFree s
unfolding IsNextFree
next_free s free = free s.next_order_id (omega arith)

order_id-injective : (a b : ℕ) → order_id_from_sequence a ≡ order_id_from_sequence b → a ≡ b
unfolding order_id_from_sequence
order_id-injective a b h = itoa_padded-injective 7 a b (append_cancel_left "ORD-" _ _ h)

bump-next_order_id :
    (line_id : String) (s : MemoryStore)
    → (bump_line_revision_locked line_id s).next_order_id ≡ s.next_order_id
unfolding bump_line_revision_locked
bump-next_order_id line_id s = elim (Option-cases (lookup line_id s.lines)) [
  | inl missing ↦ rw (missing, bump_line_revision_locked) refl
  | inr (line, found) ↦ rw (found, bump_line_revision_locked) refl
]

created_store-next_order_id :
    (env : Env) (req : CreateOrderRequest) (actor : String) (due : Time) (s : MemoryStore)
    → (created_store env req actor due s).next_order_id ≡ suc s.next_order_id
unfolding audit_locked
created_store-next_order_id env req actor due s = bump-next_order_id req.line_id (
    put_order (created_order env req actor due s)
      (record s { next_order_id = suc s.next_order_id }))

created_store-free :
    (env : Env) (req : CreateOrderRequest) (actor : String) (due : Time) (s : MemoryStore)
    → AreNextFree s
    → AreNextFree (created_store env req actor due s)
created_store-free env req actor due s free n above =
    let later : suc s.next_order_id ≤ n =
      subst (λ k. k ≤ n) (created_store-next_order_id env req actor due s) above in
    let written : String = order_id_from_sequence s.next_order_id in
    let read : String = order_id_from_sequence n in
    ap (lookup read) (created_store-orders env req actor due s)
    ∙ elim (Bool-cases (str_eq written read)) [
      | inl same ↦ absurd (
          omega (arith, later, order_id-injective s.next_order_id n ((eq_iff written read).0 same)))
      | inr other ↦
          lookup-insert written read (created_order env req actor due s) s.orders
          ∙ rw (other) (free n (omega (arith, later)))
    ]

-- The rest of the loop after a creation.
abbrev after_order :
    Env
    → String
    → String
    → String
    → ℕ
    → ℕ
    → MemoryStore × Result Order
    → MemoryStore × Result (List Order)
after_order env line_id due actor index left out = elim (out.1) [
  | err e ↦ (out.0, err e)
  | ok order ↦
      let (last, orders) =
        create_conflict_orders env line_id due actor (suc index) left
          (record out.0 { audits = relabel_last "order.create_demo_conflict" due out.0.audits }) in
      (last, orders >>= λ rest. ok (order ∷ rest))
]

create_conflict_orders-Evolves :
    (env : Env) (line_id due actor : String) (index left : ℕ) (s : MemoryStore)
    → IsKeyed s.orders
    → AreNextFree s
    → Evolves s.orders (create_conflict_orders env line_id due actor index left s).0.orders
unfolding create_conflict_orders
create_conflict_orders-Evolves env line_id due actor index zero s keyed free =
    Evolves-refl s.orders keyed
create_conflict_orders-Evolves env line_id due actor index (suc left) s keyed free =
    let req : CreateOrderRequest = conflict_order line_id due index in
    elim (Result-cases (created_due_date env req s)) [
      | inr (e, refused) ↦
          subst (λ p. Evolves s.orders (after_order env line_id due actor index left p).0.orders)
            (sym (create_order_locked-err env req actor s e refused)) (Evolves-refl s.orders keyed)
      | inl (date, valid) ↦
          let made : MemoryStore = created_store env req actor date s in
          let first : Evolves s.orders made.orders =
            subst (λ (p : MemoryStore × Result Order). Evolves s.orders p.0.orders)
              (create_order_locked-ok env req actor s date valid)
              (create_order_locked-Evolves env req actor s keyed (next_free s free)) in
          subst (λ p. Evolves s.orders (after_order env line_id due actor index left p).0.orders)
            (sym (create_order_locked-ok env req actor s date valid))
            (Evolves-trans first (
              create_conflict_orders-Evolves env line_id due actor (suc index) left
                (record made { audits = relabel_last "order.create_demo_conflict" due made.audits })
                first.keyed (created_store-free env req actor date s free)))
    ]

pub create_demo_conflict_orders-Evolves :
    (env : Env) (req : DemoConflictRequest) (claims : Claims) (s : MemoryStore)
    → IsKeyed s.orders
    → AreNextFree s
    → Evolves s.orders (create_demo_conflict_orders env req claims s).0.orders
unfolding create_demo_conflict_orders
create_demo_conflict_orders-Evolves env req claims s keyed free =
    elim (Result-cases (demo_request env req claims s)) [
      | inr (e, refused) ↦ rw (create_demo_conflict_orders, refused) (Evolves-refl s.orders keyed)
      | inl ((count, due), valid) ↦
          rw (create_demo_conflict_orders, valid)
            (create_conflict_orders-Evolves env (demo_line_id req claims) due claims.subject 1 count
              s keyed free)
    ]
