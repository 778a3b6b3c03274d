-- ===== src/Api/Evolution/Frame.antt =====
-- What the shared writes of internal/api/server.go do to the map of orders.
use woms.Base.{◌≡◌, refl, sym, subst, inl, inr, some, String, Option-cases}
use woms.Base.Maps.{lookup, insert}
use woms.Base.Results.{Result, ok, err}
use woms.Domain.{Order}
use woms.Api.State.{
  Env, MemoryStore, committing, bump_line_revision_locked, audit_locked, put_order,
}
use woms.Api.Allocations.{remove_allocations_locked}
use woms.Api.Orders.{commit_order}
use woms.Api.Lifecycle.{Evolution, replace-Evolves, IsKeyed, Evolves, Evolves-refl}

pub bump-orders :
    (line_id : String) (s : MemoryStore) → (bump_line_revision_locked line_id s).orders ≡ s.orders
unfolding bump_line_revision_locked
bump-orders line_id s = elim (Option-cases (lookup line_id s.lines)) [
  | inl missing ↦ rw (missing, bump_line_revision_locked) refl
  | inr (line, found) ↦ rw (found, bump_line_revision_locked) refl
]

pub commit_order-orders :
    (env : Env) (order : Order) (actor action reason : String) (s : MemoryStore)
    → (commit_order env order actor action reason s).orders ≡ insert order.id order s.orders
unfolding commit_order audit_locked remove_allocations_locked
commit_order-orders env order actor action reason s =
    bump-orders order.line_id (remove_allocations_locked order.id (put_order order s))

-- An operation that writes only when its checks succeed.
pub committing-Evolves {ℓ κ} :
    {A : Type ℓ} {B : Type κ} (s : MemoryStore) (r : Result A) (write : A → MemoryStore × B)
    → IsKeyed s.orders
    → ((a : A) → r ≡ ok a → Evolves s.orders (write a).0.orders)
    → Evolves s.orders (committing s r write).0.orders
committing-Evolves s (err e) write keyed step = Evolves-refl s.orders keyed
committing-Evolves s (ok a) write keyed step = step a refl

-- `commit_order` of the successor of a stored order.
pub commit_order-Evolves :
    (env : Env) (s : MemoryStore) (id : String) (o p : Order) (actor action reason : String)
    → IsKeyed s.orders
    → lookup id s.orders ≡ some o
    → Evolution o p
    → Evolves s.orders (commit_order env p actor action reason s).orders
commit_order-Evolves env s id o p actor action reason keyed found step =
    subst (λ m. Evolves s.orders m) (sym (commit_order-orders env p actor action reason s))
      (replace-Evolves s.orders id o p keyed found step)
