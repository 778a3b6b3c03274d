-- ===== src/Api/Persisting.antt =====
-- Lemmas on `persistAllocationsLocked` of internal/api/server.go: its result, and the fields that its
-- writes are not about.
use woms.Base.{
  ℕ, ◌≡◌, refl, sym, ap, ◌∙◌, inl, inr, ◌||◌, String, str_eq, List, [], ◌∷◌, ◌==◌, arith,
  Option-cases, Bool-cases, is_empty, contains,
}
use woms.Base.Maps.{Map, lookup, has}
use woms.Base.Results.{ok}
use woms.Domain.{OrderStatus, status_eq}
use woms.Scheduler.Types.{Allocation}
use woms.Api.State.{Env, MemoryStore, bump_line_revision_locked}
use woms.Api.Allocations.{
  remove_open_allocations_for_orders_locked, append_allocation_and_mark_order_scheduled_locked,
}
use woms.Api.Splits.{
  SplitState, split_start, emit, first_seen, renamed, split_step, split_loop,
  split_allocation_order_ids_locked, update_source_order_first_quantities_locked,
  create_split_orders_locked, replaced_allocation_order_ids, append_allocations,
  persist_allocations_locked,
}
use woms.Api.Freshness.{split_id-IsFresh}

split_step-total :
    (s : MemoryStore) (a : Allocation) (st : SplitState)
    → (next : SplitState) × (split_step s a st ≡ ok next)
unfolding split_step
split_step-total s a st = elim (Bool-cases (contains st.seen a.order_id)) [
  | inr first ↦ (first_seen a st, rw (split_step, first) refl)
  | inl again ↦ elim (Option-cases (lookup a.order_id s.orders)) [
    | inl unknown ↦ (emit a st, rw (split_step, again, unknown) refl)
    | inr (source, found) ↦
        let (id, searched, free) = split_id-IsFresh s st source a.order_id in
        (renamed a id st, rw (split_step, again, found, searched) refl)
  ]
]

split_loop-total :
    (s : MemoryStore) (allocations : List Allocation) (st : SplitState)
    → (last : SplitState) × (split_loop s allocations st ≡ ok last)
unfolding split_loop
split_loop-total s [] st = (st, refl)
split_loop-total s (a ∷ rest) st =
    let (next, stepped) = split_step-total s a st in
    let (last, looped) = split_loop-total s rest next in (last, rw (split_loop, stepped) looped)

pub split-total :
    (allocations : List Allocation) (s : MemoryStore)
    → (out : List Allocation × Map ℕ) × (split_allocation_order_ids_locked allocations s ≡ ok out)
unfolding split_allocation_order_ids_locked
split-total allocations s =
    let (last, looped) = split_loop-total s allocations split_start in
    ((last.normalized, last.first_quantities), rw (split_allocation_order_ids_locked, looped) refl)

pub persist-total :
    (env : Env) (planned : List Allocation) (s : MemoryStore)
    → (t : MemoryStore) × (persist_allocations_locked env planned s ≡ ok t)
unfolding persist_allocations_locked
persist-total env planned s =
    let ((allocations, firsts), split) = split-total planned s in
    (
      append_allocations env allocations (
          remove_open_allocations_for_orders_locked (replaced_allocation_order_ids allocations) (
            create_split_orders_locked env allocations
              (update_source_order_first_quantities_locked env firsts s))),
      rw (persist_allocations_locked, split) refl,
    )

-- The fields that the writes of a plan do not touch.
abbrev pub untouched : MemoryStore → List String × ℕ
untouched s = (s.line_locks, s.next_order_id)

quantities-untouched :
    (env : Env) (m : Map ℕ) (s : MemoryStore)
    → untouched (update_source_order_first_quantities_locked env m s) ≡ untouched s
unfolding update_source_order_first_quantities_locked
quantities-untouched env [] s = refl
quantities-untouched env ((id, n) ∷ rest) s = elim (Option-cases (lookup id s.orders)) [
  | inl missing ↦
      rw (update_source_order_first_quantities_locked, missing) (quantities-untouched env rest s)
  | inr (o, found) ↦ elim (Bool-cases (o.quantity == n)) [
    | inl same ↦
        rw (update_source_order_first_quantities_locked, found, same)
          (quantities-untouched env rest s)
    | inr changed ↦
        rw (update_source_order_first_quantities_locked, found, changed)
          (quantities-untouched env rest _)
  ]
]

splits-untouched :
    (env : Env) (allocations : List Allocation) (s : MemoryStore)
    → untouched (create_split_orders_locked env allocations s) ≡ untouched s
unfolding create_split_orders_locked
splits-untouched env [] s = refl
splits-untouched env (a ∷ rest) s =
    elim (Bool-cases (str_eq a.source_order_id "" || has a.order_id s.orders)) [
      | inl skipped ↦ rw (create_split_orders_locked, skipped) (splits-untouched env rest s)
      | inr new ↦ rw (create_split_orders_locked, new) (splits-untouched env rest _)
    ]

remove_open-untouched :
    (ids : List String) (s : MemoryStore)
    → untouched (remove_open_allocations_for_orders_locked ids s) ≡ untouched s
unfolding remove_open_allocations_for_orders_locked
remove_open-untouched ids s = elim (Bool-cases (is_empty ids)) [
  | inl empty ↦ rw (remove_open_allocations_for_orders_locked, empty) refl
  | inr full ↦ rw (remove_open_allocations_for_orders_locked, full) refl
]

append-untouched :
    (env : Env) (a : Allocation) (s : MemoryStore)
    → untouched (append_allocation_and_mark_order_scheduled_locked env a s) ≡ untouched s
unfolding append_allocation_and_mark_order_scheduled_locked
append-untouched env a s = elim (Option-cases (lookup a.order_id s.orders)) [
  | inl missing ↦ rw (append_allocation_and_mark_order_scheduled_locked, missing) refl
  | inr (o, found) ↦ elim (Bool-cases (status_eq o.status OrderStatus.pending)) [
    | inr other ↦ rw (append_allocation_and_mark_order_scheduled_locked, found, other) refl
    | inl pending ↦ rw (append_allocation_and_mark_order_scheduled_locked, found, pending) refl
  ]
]

appends-untouched :
    (env : Env) (allocations : List Allocation) (s : MemoryStore)
    → untouched (append_allocations env allocations s) ≡ untouched s
unfolding append_allocations
appends-untouched env [] s = refl
appends-untouched env (a ∷ rest) s = appends-untouched env rest _ ∙ append-untouched env a s

pub bump-untouched :
    (line_id : String) (s : MemoryStore)
    → untouched (bump_line_revision_locked line_id s) ≡ untouched s
unfolding bump_line_revision_locked
bump-untouched line_id s = elim (Option-cases (lookup line_id s.lines)) [
  | inl missing ↦ rw (missing, bump_line_revision_locked) refl
  | inr (line, found) ↦ rw (found, bump_line_revision_locked) refl
]

pub persist-untouched :
    (env : Env) (planned : List Allocation) (s t : MemoryStore)
    → persist_allocations_locked env planned s ≡ ok t
    → untouched t ≡ untouched s
unfolding persist_allocations_locked
persist-untouched env planned s t h =
    let ((allocations, firsts), split) = split-total planned s in
    let counted : MemoryStore = update_source_order_first_quantities_locked env firsts s in
    let created : MemoryStore = create_split_orders_locked env allocations counted in
    let removed : MemoryStore =
      remove_open_allocations_for_orders_locked (replaced_allocation_order_ids allocations)
        created in
    let same : append_allocations env allocations removed ≡ t = ground (arith, split, h) in
    ap untouched (sym same)
    ∙ appends-untouched env allocations removed
    ∙ remove_open-untouched (replaced_allocation_order_ids allocations) created
    ∙ splits-untouched env allocations counted
    ∙ quantities-untouched env firsts s
