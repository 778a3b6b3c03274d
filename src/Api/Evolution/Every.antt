-- ===== src/Api/Evolution/Every.antt =====
-- Every operation of internal/api/server.go that changes the state, those of the demonstrations included.
use woms.Base.{
  ◌≡◌, refl, sym, ap, ◌∙◌, inl, inr, true, false, Option, none, some, String, Bool-cases,
}
use woms.Base.Maps.{lookup}
use woms.Base.Text.{strip_prefix}
use woms.Domain.{Order}
use woms.Api.State.{Env, MemoryStore}
use woms.Api.Requests.{Claims}
use woms.Api.HpaDemo.{is_hpa_demo_line, clear_hpa_peak_demo_locked}
use woms.Api.HpaSummary.{clear_hpa_peak_demo, create_hpa_peak_demo}
use woms.Api.HpaClear.{on_demo_line, spared, lookup-clear}
use woms.Api.HpaRestore.{create-Extends}
use woms.Api.Operations.{
  AnyOperation, regular, create_demo_conflict, create_hpa_peak, clear_hpa_peak, run_any,
}
use woms.Api.Lifecycle.{Moves-final, is_final, Evolution, Evolution-refl, IsKeyed}
use woms.Api.Evolution.Cancel.{IsNextFree}
use woms.Api.Evolution.Demo.{AreNextFree, create_demo_conflict_orders-Evolves}
use woms.Api.Evolution.Run.{run-Evolves}

-- The IDs that an operation gives to the orders it creates with the next numbers are not taken: one,
-- or for the conflict demonstration all the following.
abbrev pub IsFreeFor : AnyOperation → MemoryStore → Type 0
IsFreeFor (regular op) s = IsNextFree s
IsFreeFor (create_demo_conflict req claims) s = AreNextFree s
IsFreeFor (create_hpa_peak claims) s = Unit
IsFreeFor (clear_hpa_peak claims) s = Unit

-- The autoscaling demonstration clears its lines and writes orders under its IDs: it spares the others.
abbrev pub Spares : AnyOperation → Order → Type 0
Spares (regular op) o = Unit
Spares (create_demo_conflict req claims) o = Unit
Spares (create_hpa_peak claims) o =
    (is_hpa_demo_line o.line_id ≡ false) × (strip_prefix "HPA-" o.id ≡ none)
Spares (clear_hpa_peak claims) o = is_hpa_demo_line o.line_id ≡ false

pub none≢some : {A : Type 0} {a : A} → none ≡ some a → ⊥
none≢some h = cc

spared-some :
    (id : String) (found : Option Order) (o : Order)
    → spared (on_demo_line id) found ≡ some o
    → found ≡ some o
spared-some id none o h = absurd (none≢some h)
spared-some id (some p) o h = elim (Bool-cases (is_hpa_demo_line p.line_id)) [
  | inl demo ↦ absurd (none≢some (rw demo at h))
  | inr other ↦ rw other at h
]

clear-kept :
    (env : Env) (actor id : String) (o : Order) (s : MemoryStore)
    → lookup id s.orders ≡ some o
    → is_hpa_demo_line o.line_id ≡ false
    → lookup id (clear_hpa_peak_demo_locked env actor s).orders ≡ some o
clear-kept env actor id o s found other = lookup-clear env actor id s ∙ rw (found, other) refl

clear-IsKeyed :
    (env : Env) (actor : String) (s : MemoryStore)
    → IsKeyed s.orders
    → IsKeyed (clear_hpa_peak_demo_locked env actor s).orders
unfolding IsKeyed
clear-IsKeyed env actor s keyed id o found =
    keyed id o (spared-some id (lookup id s.orders) o (sym (lookup-clear env actor id s) ∙ found))

create-kept :
    (env : Env) (claims : Claims) (id : String) (o : Order) (s : MemoryStore)
    → IsKeyed s.orders
    → lookup id s.orders ≡ some o
    → is_hpa_demo_line o.line_id ≡ false
    → strip_prefix "HPA-" o.id ≡ none
    → lookup id (create_hpa_peak_demo env claims s).0.orders ≡ some o
unfolding IsKeyed
create-kept env claims id o s keyed found other plain = elim ((create-Extends env claims s).at id) [
  | inl same ↦ same ∙ clear-kept env claims.subject id o s found other
  | inr added ↦
      absurd (none≢some (sym plain ∙ ap (strip_prefix "HPA-") (keyed id o found) ∙ added.prefixed))
]

pub some-injective : {A : Type 0} {a b : A} → some a ≡ some b → a ≡ b
some-injective h = cc

create-IsKeyed :
    (env : Env) (claims : Claims) (s : MemoryStore)
    → IsKeyed s.orders
    → IsKeyed (create_hpa_peak_demo env claims s).0.orders
unfolding IsKeyed
create-IsKeyed env claims s keyed id o found = elim ((create-Extends env claims s).at id) [
  | inl same ↦ clear-IsKeyed env claims.subject s keyed id o (sym same ∙ found)
  | inr added ↦ ap (λ (p : Order). p.id) (some-injective (sym found ∙ added.found)) ∙ added.named
]

-- Every operation keeps the orders under their IDs, if the IDs that it gives out by number are not
-- taken.
pub run_any-IsKeyed :
    (env : Env) (op : AnyOperation) (s : MemoryStore)
    → IsKeyed s.orders
    → IsFreeFor op s
    → IsKeyed (run_any env op s).orders
unfolding run_any clear_hpa_peak_demo
run_any-IsKeyed env (regular op) s keyed free = (run-Evolves env op s keyed free).keyed
run_any-IsKeyed env (create_demo_conflict req claims) s keyed free =
    (create_demo_conflict_orders-Evolves env req claims s keyed free).keyed
run_any-IsKeyed env (create_hpa_peak claims) s keyed free = create-IsKeyed env claims s keyed
run_any-IsKeyed env (clear_hpa_peak claims) s keyed free = clear-IsKeyed env claims.subject s keyed

pub run_any-Evolution :
    (env : Env) (op : AnyOperation) (s : MemoryStore) (id : String) (o : Order)
    → IsKeyed s.orders
    → IsFreeFor op s
    → lookup id s.orders ≡ some o
    → Spares op o
    → (p : Order) × (lookup id (run_any env op s).orders ≡ some p) × Evolution o p
unfolding run_any clear_hpa_peak_demo
run_any-Evolution env (regular op) s id o keyed free found spares =
    (run-Evolves env op s keyed free).kept id o found
run_any-Evolution env (create_demo_conflict req claims) s id o keyed free found spares =
    (create_demo_conflict_orders-Evolves env req claims s keyed free).kept id o found
run_any-Evolution env (create_hpa_peak claims) s id o keyed free found spares =
    (o, create-kept env claims id o s keyed found spares.0 spares.1, Evolution-refl o)
run_any-Evolution env (clear_hpa_peak claims) s id o keyed free found spares =
    (o, clear-kept env claims.subject id o s found spares, Evolution-refl o)

-- No operation changes the status of a completed or a cancelled order that it spares; only the
-- autoscaling demonstration does not spare all, as it clears its lines and writes under its IDs. The
-- orders stand under their IDs, and the IDs that the operation gives out by number are not taken.
pub run_any-final :
    (env : Env) (op : AnyOperation) (s : MemoryStore) (id : String) (o : Order)
    → IsKeyed s.orders
    → IsFreeFor op s
    → lookup id s.orders ≡ some o
    → Spares op o
    → is_final o.status ≡ true
    → (p : Order) × (lookup id (run_any env op s).orders ≡ some p) × (p.status ≡ o.status)
run_any-final env op s id o keyed free found spares final =
    let (p, at, step) = run_any-Evolution env op s id o keyed free found spares in
    (p, at, Moves-final step.moves final)
