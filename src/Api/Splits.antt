-- ===== src/Api/Splits.antt =====
-- `persistAllocationsLocked` of internal/api/server.go and what it calls: an order whose plan has
-- several allocations is split, so that each allocation has an order of its own.
use woms.Base.{
  suc, ◌+◌, Bool, not, ◌||◌, List, [], ◌∷◌, ◌++◌, Option, none, some, String, str_eq, ◌==◌, ℕ,
  length, contains, if◌then◌else◌,
}
use woms.Base.Maps.{Map, lookup, insert, has, lookup_or}
use woms.Domain.{Order, OrderStatus, zero_order}
use woms.Scheduler.Types.{Allocation}
use woms.Api.State.{Env, MemoryStore, put_order}
use woms.Api.Allocations.{
  remove_open_allocations_for_orders_locked, append_allocation_and_mark_order_scheduled_locked,
}
use woms.Api.OrderIds.{next_remainder_order_id}
use woms.Base.Results.{Result, ok, or_fail, ◌>>=◌}
use woms.Scheduler.Plan.{out_of_fuel}

-- The locals of the loop: `seen` are the IDs that were counted.
pub record SplitState : Type 0 where
  pub seen : List String
  pub reserved : List String
  pub first_quantities : Map ℕ
  pub normalized : List Allocation

abbrev pub taken : MemoryStore → SplitState → String → Bool
taken s st id = has id s.orders || contains st.reserved id

-- The order ID of a later allocation of a known order.
unfoldable pub split_id : MemoryStore → SplitState → Order → String → Option String
unfolding next_remainder_order_id has contains
split_id s st source source_id =
    next_remainder_order_id (suc (length s.orders + length st.reserved)) source_id
      (not (str_eq source.source_order "")) (taken s st)

abbrev pub emit : Allocation → SplitState → SplitState
emit a st = record st { normalized = st.normalized ++ a ∷ [] }

abbrev pub first_seen : Allocation → SplitState → SplitState
first_seen a st = emit a (record st {
  seen = a.order_id ∷ st.seen;
  first_quantities = insert a.order_id a.quantity st.first_quantities;
})

abbrev pub renamed : Allocation → String → SplitState → SplitState
renamed a id st =
    emit (record a { source_order_id = a.order_id; order_id = id })
      (record st { reserved = id ∷ st.reserved })

unfoldable pub split_step : MemoryStore → Allocation → SplitState → Result SplitState
unfolding contains split_id
split_step s a st =
    if not (contains st.seen a.order_id)
    then ok (first_seen a st)
    else elim (lookup a.order_id s.orders) [
      | none ↦ ok (emit a st)
      | some source ↦
          or_fail (split_id s st source a.order_id) out_of_fuel >>= λ id. ok (renamed a id st)
    ]

unfoldable pub split_loop : MemoryStore → List Allocation → SplitState → Result SplitState
unfolding split_step
split_loop s [] st = ok st
split_loop s (a ∷ rest) st = split_step s a st >>= λ next. split_loop s rest next

abbrev pub split_start : SplitState
split_start = record { seen = []; reserved = []; first_quantities = []; normalized = [] }

unfoldable pub split_allocation_order_ids_locked :
    List Allocation → MemoryStore → Result (List Allocation × Map ℕ)
unfolding split_loop
split_allocation_order_ids_locked allocations s =
    split_loop s allocations split_start >>= λ st. ok (st.normalized, st.first_quantities)

unfoldable pub update_source_order_first_quantities_locked : Env → Map ℕ → MemoryStore → MemoryStore
update_source_order_first_quantities_locked env [] s = s
update_source_order_first_quantities_locked env ((source_id, first_quantity) ∷ rest) s =
    update_source_order_first_quantities_locked env rest (elim (lookup source_id s.orders) [
      | none ↦ s
      | some order ↦ if order.quantity == first_quantity then s else record s {
        orders =
            insert source_id (record order { quantity = first_quantity; updated_at = env.now })
              s.orders;
      }
    ])

-- The order of a later allocation.
abbrev pub split_order : Env → Allocation → Order → Order
split_order env a source = record source {
  id = a.order_id;
  quantity = a.quantity;
  status = OrderStatus.pending;
  source_order = a.source_order_id;
  created_at = env.now;
  updated_at = env.now;
}

unfoldable pub create_split_orders_locked : Env → List Allocation → MemoryStore → MemoryStore
unfolding has lookup_or
create_split_orders_locked env [] s = s
create_split_orders_locked env (a ∷ rest) s = create_split_orders_locked env rest (
    if str_eq a.source_order_id "" || has a.order_id s.orders
    then s
    else put_order (split_order env a (lookup_or zero_order a.source_order_id s.orders)) s)

-- The set as a list.
unfoldable pub replaced_allocation_order_ids : List Allocation → List String
replaced_allocation_order_ids [] = []
replaced_allocation_order_ids (a ∷ rest) =
    let later : List String = replaced_allocation_order_ids rest in
    a.order_id ∷ (if str_eq a.source_order_id "" then later else a.source_order_id ∷ later)

unfoldable pub append_allocations : Env → List Allocation → MemoryStore → MemoryStore
unfolding append_allocation_and_mark_order_scheduled_locked
append_allocations env [] s = s
append_allocations env (a ∷ rest) s =
    append_allocations env rest (append_allocation_and_mark_order_scheduled_locked env a s)

unfoldable pub persist_allocations_locked : Env → List Allocation → MemoryStore → Result MemoryStore
unfolding split_allocation_order_ids_locked update_source_order_first_quantities_locked
    create_split_orders_locked replaced_allocation_order_ids append_allocations
    remove_open_allocations_for_orders_locked
persist_allocations_locked env planned s =
    split_allocation_order_ids_locked planned s >>= λ (allocations, first_quantities). ok (
      append_allocations env allocations (
        remove_open_allocations_for_orders_locked (replaced_allocation_order_ids allocations) (
          create_split_orders_locked env allocations
            (update_source_order_first_quantities_locked env first_quantities s))))
