-- ===== src/Api/Evolution/Splits.antt =====
-- The writes of a plan of internal/api/server.go, on the map of orders.
use woms.Base.{
  ℕ, ◌≡◌, refl, sym, subst, inl, inr, ◌||◌, String, str_eq, List, [], ◌∷◌, ◌==◌, arith,
  Option-cases, Bool-cases, is_empty,
}
use woms.Base.Maps.{Map, lookup, insert, has, lookup_or}
use woms.Base.Results.{ok, Result-cases}
use woms.Domain.{Order, OrderStatus, status_eq, status_eq_iff, zero_order}
use woms.Scheduler.Types.{Allocation}
use woms.Api.State.{Env, MemoryStore}
use woms.Api.Allocations.{
  remove_open_allocations_for_orders_locked, append_allocation_and_mark_order_scheduled_locked,
}
use woms.Api.Splits.{
  split_allocation_order_ids_locked, update_source_order_first_quantities_locked,
  create_split_orders_locked, split_order, replaced_allocation_order_ids, append_allocations,
  persist_allocations_locked,
}
use woms.Api.Lifecycle.{
  Step, Moves, one_move, IsKeyed, Evolves, Evolves-refl, Evolves-trans, insert-Evolves,
  replace-Evolves,
}

quantities-Evolves :
    (env : Env) (m : Map ℕ) (s : MemoryStore)
    → IsKeyed s.orders
    → Evolves s.orders (update_source_order_first_quantities_locked env m s).orders
unfolding update_source_order_first_quantities_locked IsKeyed
quantities-Evolves env [] s keyed = Evolves-refl s.orders keyed
quantities-Evolves env ((id, n) ∷ rest) s keyed = elim (Option-cases (lookup id s.orders)) [
  | inl missing ↦
      rw (update_source_order_first_quantities_locked, missing)
        (quantities-Evolves env rest s keyed)
  | inr (o, found) ↦ elim (Bool-cases (o.quantity == n)) [
    | inl same ↦
        rw (update_source_order_first_quantities_locked, found, same)
          (quantities-Evolves env rest s keyed)
    | inr changed ↦
        let p : Order = record o { quantity = n; updated_at = env.now } in
        let first : Evolves s.orders (insert id p s.orders) =
          subst (λ k. Evolves s.orders (insert k p s.orders)) (keyed id o found)
            (replace-Evolves s.orders id o p keyed found
              (record { moves = Moves.rest; same = refl })) in
        rw (update_source_order_first_quantities_locked, found, changed)
          (Evolves-trans first (quantities-Evolves env rest _ first.keyed))
  ]
]

splits-Evolves :
    (env : Env) (allocations : List Allocation) (s : MemoryStore)
    → IsKeyed s.orders
    → Evolves s.orders (create_split_orders_locked env allocations s).orders
unfolding create_split_orders_locked has
splits-Evolves env [] s keyed = Evolves-refl s.orders keyed
splits-Evolves env (a ∷ rest) s keyed =
    elim (Bool-cases (str_eq a.source_order_id "" || has a.order_id s.orders)) [
      | inl skipped ↦ rw (create_split_orders_locked, skipped) (splits-Evolves env rest s keyed)
      | inr new ↦
          let p : Order = split_order env a (lookup_or zero_order a.source_order_id s.orders) in
          let first : Evolves s.orders (insert a.order_id p s.orders) =
            insert-Evolves s.orders a.order_id p keyed refl λ q h. ground (arith, h, new) in
          rw (create_split_orders_locked, new)
            (Evolves-trans first (splits-Evolves env rest _ first.keyed))
    ]

append_allocation-Evolves :
    (env : Env) (a : Allocation) (s : MemoryStore)
    → IsKeyed s.orders
    → Evolves s.orders (append_allocation_and_mark_order_scheduled_locked env a s).orders
unfolding append_allocation_and_mark_order_scheduled_locked
append_allocation-Evolves env a s keyed = elim (Option-cases (lookup a.order_id s.orders)) [
  | inl missing ↦
      rw (append_allocation_and_mark_order_scheduled_locked, missing) (Evolves-refl s.orders keyed)
  | inr (o, found) ↦ elim (Bool-cases (status_eq o.status OrderStatus.pending)) [
    | inr other ↦
        rw (append_allocation_and_mark_order_scheduled_locked, found, other)
          (Evolves-refl s.orders keyed)
    | inl pending ↦
        rw (append_allocation_and_mark_order_scheduled_locked, found, pending)
          (replace-Evolves s.orders a.order_id o
            (record o { status = OrderStatus.scheduled; updated_at = env.now }) keyed found
            (record {
              moves =
                  subst (λ x. Moves x OrderStatus.scheduled)
                    (sym ((status_eq_iff o.status OrderStatus.pending).0 pending))
                    (one_move Step.schedule);
              same = refl;
            }))
  ]
]

append_allocations-Evolves :
    (env : Env) (allocations : List Allocation) (s : MemoryStore)
    → IsKeyed s.orders
    → Evolves s.orders (append_allocations env allocations s).orders
unfolding append_allocations
append_allocations-Evolves env [] s keyed = Evolves-refl s.orders keyed
append_allocations-Evolves env (a ∷ rest) s keyed =
    let first = append_allocation-Evolves env a s keyed in
    Evolves-trans first (append_allocations-Evolves env rest _ first.keyed)

remove_open-orders :
    (ids : List String) (s : MemoryStore)
    → (remove_open_allocations_for_orders_locked ids s).orders ≡ s.orders
unfolding remove_open_allocations_for_orders_locked
remove_open-orders ids s = elim (Bool-cases (is_empty ids)) [
  | inl empty ↦ rw (remove_open_allocations_for_orders_locked, empty) refl
  | inr full ↦ rw (remove_open_allocations_for_orders_locked, full) refl
]

pub persist_allocations_locked-Evolves :
    (env : Env) (planned : List Allocation) (s t : MemoryStore)
    → IsKeyed s.orders
    → persist_allocations_locked env planned s ≡ ok t
    → Evolves s.orders t.orders
unfolding persist_allocations_locked
persist_allocations_locked-Evolves env planned s t keyed h =
    elim (Result-cases (split_allocation_order_ids_locked planned s)) [
      | inr (e, stuck) ↦ ground (arith, stuck, h)
      | inl ((allocations, firsts), split) ↦
          let counted : MemoryStore = update_source_order_first_quantities_locked env firsts s in
          let created : MemoryStore = create_split_orders_locked env allocations counted in
          let first = quantities-Evolves env firsts s keyed in
          let second = splits-Evolves env allocations counted first.keyed in
          let removed : MemoryStore =
            remove_open_allocations_for_orders_locked (replaced_allocation_order_ids allocations)
              created in
          let same = remove_open-orders (replaced_allocation_order_ids allocations) created in
          let third : Evolves created.orders (append_allocations env allocations removed).orders =
            subst (λ m. Evolves m (append_allocations env allocations removed).orders) same
              (append_allocations-Evolves env allocations removed
                (subst (λ m. IsKeyed m) (sym same) second.keyed)) in
          let same_store : append_allocations env allocations removed ≡ t =
            ground (arith, split, h) in
          subst (λ (u : MemoryStore). Evolves s.orders u.orders) same_store
            (Evolves-trans first (Evolves-trans second third))
    ]
