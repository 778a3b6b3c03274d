-- ===== src/Scheduler/Sorting.antt =====
-- `sortedOrders` of internal/scheduler/scheduler.go. `sort.SliceStable` is Go's library: a stable
-- sort by a test, here by insertion.
use woms.Base.{Bool, List, [], ◌∷◌, ltb, ◌==◌, not, str_lt, if◌then◌else◌}
use woms.Clock.{before}
use woms.Domain.{is_high, priority_eq}
use woms.Scheduler.Types.{OrderInput}

module _ {ℓ} {A : Type ℓ} (less : A → A → Bool) where
  -- `x` stood before the list's elements: it stays before those that are not less than it.
  unfoldable pub insert_sorted : A → List A → List A
  insert_sorted x [] = x ∷ []
  insert_sorted x (y ∷ ys) =
      let rest = insert_sorted x ys in if less y x then y ∷ rest else x ∷ y ∷ ys

  unfoldable pub stable_sort : List A → List A
  unfolding insert_sorted
  stable_sort [] = []
  stable_sort (x ∷ xs) = insert_sorted x (stable_sort xs)

unfoldable pub order_less : OrderInput → OrderInput → Bool
order_less a b =
    if not (priority_eq a.priority b.priority)
    then is_high a.priority
    else if not (a.due_date == b.due_date)
    then before a.due_date b.due_date
    else if not (a.created_at_timestamp == b.created_at_timestamp)
    then ltb a.created_at_timestamp b.created_at_timestamp
    else str_lt a.id b.id

unfoldable pub sorted_orders : List OrderInput → List OrderInput
unfolding stable_sort order_less
sorted_orders input = stable_sort order_less input
