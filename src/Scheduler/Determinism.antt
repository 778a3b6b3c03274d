-- ===== src/Scheduler/Determinism.antt =====
-- The plan of a permutation of the orders.
use mathlib.Core.List.{Permᴰ}
use woms.Base.{
  ◌≡◌, refl, sym, subst, All-mono, ◌∙◌, ap, ◌≢◌, ◌⊎◌, inl, inr, Bool, true, false, List, [], ◌∷◌,
  arith, All, Bool-cases,
}
use woms.Base.TextOrder.{str_lt_trans, str_lt_asym, str_lt_total}
use woms.Domain.{low, high}
use woms.Scheduler.Types.{OrderInput, Request}
use woms.Scheduler.Sorting.{insert_sorted, stable_sort, order_less, sorted_orders}
use woms.Scheduler.Plan.{plan}
use woms.Scheduler.Frame.{build_capacity_ledger-reordered, plan_orders-reordered}
use woms.Scheduler.Outcome.{stable_sort-All}

module _ {ℓ} {A : Type ℓ} (less : A → A → Bool) where
  -- `z` passes both, or the greater one is not passed by the less one.
  insert_sorted-swap :
      (x y : A) (l : List A)
      → less x y ≡ true
      → less y x ≡ false
      → All (λ z. (less z x ≡ false) ⊎ (less z y ≡ true)) l
      → insert_sorted less x (insert_sorted less y l)
        ≡ insert_sorted less y (insert_sorted less x l)
  unfolding insert_sorted
  insert_sorted-swap x y [] h k all = ground arith
  insert_sorted-swap x y (z ∷ l) h k all = ground (arith, insert_sorted-swap x y l h k all.1)

order_less_trans :
    (a b c : OrderInput)
    → (a.priority ≡ low) ⊎ (a.priority ≡ high)
    → (b.priority ≡ low) ⊎ (b.priority ≡ high)
    → (c.priority ≡ low) ⊎ (c.priority ≡ high)
    → order_less a b ≡ true
    → order_less b c ≡ true
    → order_less a c ≡ true
unfolding order_less
order_less_trans a b c p q r h k = ground (arith, str_lt_trans a.id b.id c.id)

-- The priorities that the sort is made for.
abbrev pub HasPriority : OrderInput → Type 0
HasPriority a = (a.priority ≡ low) ⊎ (a.priority ≡ high)

-- No two orders of the list have one ID.
abbrev pub HasDistinctIds : List OrderInput → Type 0
HasDistinctIds [] = Unit
HasDistinctIds (x ∷ xs) = All (λ y. x.id ≢ y.id) xs × HasDistinctIds xs

All-Permᴰ {ℓ κ} : {A : Type ℓ} (P : A → Type κ) {xs ys : List A} → Permᴰ xs ys → All P xs → All P ys
All-Permᴰ P Permᴰ.nil all = tt
All-Permᴰ P (Permᴰ.cons e p) all = (subst P e all.0, All-Permᴰ P p all.1)
All-Permᴰ P (Permᴰ.swap e f) all = (subst P f all.1.0, (subst P e all.0, all.1.1))
All-Permᴰ P (Permᴰ.trans p q) all = All-Permᴰ P q (All-Permᴰ P p all)

HasDistinctIds-Permᴰ :
    {xs ys : List OrderInput} → Permᴰ xs ys → HasDistinctIds xs → HasDistinctIds ys
HasDistinctIds-Permᴰ Permᴰ.nil d = tt
HasDistinctIds-Permᴰ (Permᴰ.cons {l₂ = l} e p) d = (
  subst (λ (a : OrderInput). All (λ y. a.id ≢ y.id) l) e (All-Permᴰ _ p d.0),
  HasDistinctIds-Permᴰ p d.1,
)
HasDistinctIds-Permᴰ (Permᴰ.swap {l = l} e f) d = (
  (
    λ same.
        d.0.0 (ap (λ (a : OrderInput). a.id) e ∙ sym same ∙ sym (ap (λ (a : OrderInput). a.id) f)),
    subst (λ (a : OrderInput). All (λ y. a.id ≢ y.id) l) f d.1.0,
  ),
  (subst (λ (a : OrderInput). All (λ y. a.id ≢ y.id) l) e d.0.1, d.1.1),
)
HasDistinctIds-Permᴰ (Permᴰ.trans p q) d = HasDistinctIds-Permᴰ q (HasDistinctIds-Permᴰ p d)

order_less-cases :
    (a b : OrderInput)
    → HasPriority a
    → HasPriority b
    → a.id ≢ b.id
    → (order_less a b ≡ true) × (order_less b a ≡ false)
      ⊎ (order_less b a ≡ true) × (order_less a b ≡ false)
unfolding order_less
order_less-cases a b p q ne =
    ground (arith, str_lt_total a.id b.id, str_lt_asym a.id b.id, str_lt_asym b.id a.id)

insert_sorted_comm :
    (x y : OrderInput) (l : List OrderInput)
    → HasPriority x
    → HasPriority y
    → x.id ≢ y.id
    → All HasPriority l
    → insert_sorted order_less x (insert_sorted order_less y l)
      ≡ insert_sorted order_less y (insert_sorted order_less x l)
insert_sorted_comm x y l p q ne all = elim (order_less-cases x y p q ne) [
  | inl (less, more) ↦ insert_sorted-swap order_less x y l less more (passed x y p q less)
  | inr (less, more) ↦ sym (insert_sorted-swap order_less y x l less more (passed y x q p less))
]
  where
    passed :
        (a b : OrderInput)
        → HasPriority a
        → HasPriority b
        → order_less a b ≡ true
        → All (λ z. (order_less z a ≡ false) ⊎ (order_less z b ≡ true)) l
    passed a b h k less =
        All-mono HasPriority _ l
          (λ z r. elim (Bool-cases (order_less z a)) [
            | inl e ↦ inr (order_less_trans z a b r h k e less)
            | inr e ↦ inl e
          ])
          all

stable_sort-Permᴰ :
    {xs ys : List OrderInput}
    → Permᴰ xs ys
    → All HasPriority xs
    → HasDistinctIds xs
    → stable_sort order_less xs ≡ stable_sort order_less ys
unfolding stable_sort
stable_sort-Permᴰ Permᴰ.nil all d = refl
stable_sort-Permᴰ (Permᴰ.cons e p) all d = cc (e, stable_sort-Permᴰ p all.1 d.1)
stable_sort-Permᴰ (Permᴰ.swap {a = a} {b = b} {l = l} e f) all d = cc (
  e,
  f,
  insert_sorted_comm a b (stable_sort order_less l) all.0 all.1.0 d.0.0
      (stable_sort-All order_less HasPriority l all.1.1),
)
stable_sort-Permᴰ (Permᴰ.trans p q) all d =
    stable_sort-Permᴰ p all d
    ∙ stable_sort-Permᴰ q (All-Permᴰ HasPriority p all) (HasDistinctIds-Permᴰ p d)

-- Orders with distinct IDs and the priorities low and high are planned alike in whatever order they
-- are given: a reordering of the request's orders changes neither the plan nor the error.
pub plan-Permᴰ :
    (req : Request) (orders : List OrderInput)
    → Permᴰ req.orders orders
    → All HasPriority req.orders
    → HasDistinctIds req.orders
    → plan (record req { orders = orders }) ≡ plan req
unfolding plan sorted_orders
plan-Permᴰ req orders p all d =
    rw
      (
        sym (stable_sort-Permᴰ p all d),
        build_capacity_ledger-reordered req orders,
        plan_orders-reordered req orders,
      )
      refl
