-- ===== src/Api/Lifecycle.antt =====
-- The life of an order, as internal/api/server.go lets it go: which status follows which, and what a
-- change of the map of orders keeps of every order.
use woms.Base.{
  ◌≡◌, refl, sym, ap, subst, ◌∙◌, inl, inr, Bool, true, false, some, String, str_eq, eq_iff, arith,
  Bool-cases,
}
use woms.Base.Maps.{Map, lookup, insert, lookup-insert}
use woms.Clock.{Time}
use woms.Domain.{Order, OrderStatus, Priority, status_eq}

-- One step of a status.
pub data Step : OrderStatus → OrderStatus → Type 0 where
  schedule : Step OrderStatus.pending OrderStatus.scheduled
  reject : Step OrderStatus.pending OrderStatus.rejected
  resubmit : Step OrderStatus.rejected OrderStatus.pending
  start : Step OrderStatus.scheduled OrderStatus.in_progress
  finish : Step OrderStatus.in_progress OrderStatus.completed
  cancel :
      {a : OrderStatus}
      → status_eq a OrderStatus.in_progress ≡ false
      → status_eq a OrderStatus.completed ≡ false
      → Step a OrderStatus.cancelled

-- Any number of steps.
pub data Moves : OrderStatus → OrderStatus → Type 0 where
  rest : {a : OrderStatus} → Moves a a
  move : {a b c : OrderStatus} → Step a b → Moves b c → Moves a c

pub Moves-trans : {a b c : OrderStatus} → Moves a b → Moves b c → Moves a c
Moves-trans Moves.rest n = n
Moves-trans (Moves.move s m) n = Moves.move s (Moves-trans m n)

pub one_move : {a b : OrderStatus} → Step a b → Moves a b
one_move s = Moves.move s Moves.rest

-- A completed or a cancelled order stays what it is.
abbrev pub is_final : OrderStatus → Bool
is_final OrderStatus.completed = true
is_final OrderStatus.cancelled = true
is_final _ = false

Step-final : {a b : OrderStatus} → Step a b → is_final a ≡ true → b ≡ a
Step-final Step.schedule h = cc
Step-final Step.reject h = cc
Step-final Step.resubmit h = cc
Step-final Step.start h = cc
Step-final Step.finish h = cc
Step-final (Step.cancel {a = a} p q) h = ground arith

pub Moves-final : {a b : OrderStatus} → Moves a b → is_final a ≡ true → b ≡ a
Moves-final Moves.rest h = refl
Moves-final (Moves.move s m) h =
    let same = Step-final s h in Moves-final m (ap is_final same ∙ h) ∙ same

-- What no operation changes of an order.
abbrev pub identity : Order → String × String × String × Priority × String × String × String × Time
identity o =
    (o.id, o.customer, o.line_id, o.priority, o.note, o.created_by, o.source_order, o.created_at)

pub record Evolution (before after : Order) : Type 0 where
  pub moves : Moves before.status after.status
  pub same : identity after ≡ identity before

pub Evolution-refl : (o : Order) → Evolution o o
Evolution-refl o = record { moves = Moves.rest; same = refl }

pub Evolution-trans : {a b c : Order} → Evolution a b → Evolution b c → Evolution a c
Evolution-trans e f = record { moves = Moves-trans e.moves f.moves; same = f.same ∙ e.same }

-- Every order stands under its ID.
unfoldable pub IsKeyed : Map Order → Type 0
IsKeyed m = (id : String) (o : Order) → lookup id m ≡ some o → o.id ≡ id

-- Every order is still there, evolved, and under its ID.
pub record Evolves (m n : Map Order) : Type 0 where
  pub keyed : IsKeyed n
  pub kept :
      (id : String) (o : Order)
      → lookup id m ≡ some o
      → (p : Order) × (lookup id n ≡ some p) × Evolution o p

pub Evolves-refl : (m : Map Order) → IsKeyed m → Evolves m m
Evolves-refl m keyed = record { keyed = keyed; kept = λ id o e. (o, e, Evolution-refl o) }

pub Evolves-trans : {a b c : Map Order} → Evolves a b → Evolves b c → Evolves a c
Evolves-trans e f = record {
  keyed = f.keyed;
  kept = λ id o h.
      let (p, at, step) = e.kept id o h in
      let (q, then_at, then_step) = f.kept id p at in (q, then_at, Evolution-trans step then_step);
}

-- An entry is written: a new order, or the successor of the one that stood there.
pub insert-Evolves :
    (m : Map Order) (id : String) (p : Order)
    → IsKeyed m
    → p.id ≡ id
    → ((o : Order) → lookup id m ≡ some o → Evolution o p)
    → Evolves m (insert id p m)
unfolding IsKeyed
insert-Evolves m id p keyed own successor = record {
  keyed = λ j o h. elim (Bool-cases (str_eq id j)) [
    | inl same ↦ ground (arith, lookup-insert id j p m, eq_iff id j)
    | inr other ↦ keyed j o (ground (arith, lookup-insert id j p m))
  ];
  kept = λ j o h. elim (Bool-cases (str_eq id j)) [
    | inl same ↦
        let equal : id ≡ j = (eq_iff id j).0 same in
        (
          p,
          ground (arith, lookup-insert id j p m),
          successor o (subst (λ k. lookup k m ≡ some o) (sym equal) h),
        )
    | inr other ↦ (o, ground (arith, lookup-insert id j p m), Evolution-refl o)
  ];
}

-- The successor of a stored order is written under its own ID.
pub replace-Evolves :
    (m : Map Order) (id : String) (o p : Order)
    → IsKeyed m
    → lookup id m ≡ some o
    → Evolution o p
    → Evolves m (insert p.id p m)
unfolding IsKeyed
replace-Evolves m id o p keyed found step =
    insert-Evolves m p.id p keyed refl λ q h. subst (λ x. Evolution x p) (agree q h) step
  where
    under : p.id ≡ id
    under = ap (λ i. i.0) step.same ∙ keyed id o found

    agree : (q : Order) → lookup p.id m ≡ some q → o ≡ q
    agree q h = cc (found, h, under)
