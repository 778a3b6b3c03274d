-- ===== src/Api/Freshness.antt =====
-- The search of `nextRemainderOrderID` of internal/api/server.go: its candidates differ, and it runs on
-- more of them than there are taken IDs.
use woms.Base.{
  ℕ, zero, suc, ◌+◌, ◌≤◌, ◌<◌, ◌≡◌, ◌++◌, length-append, refl, inl, inr, Bool, true, false, not,
  List, [], ◌∷◌, some, String, str_eq, eq_iff, keep, contains, length, arith, Bool-cases,
}
use woms.Base.Decimal.{itoa-injective}
use woms.Base.Maps.{Map, lookup, has}
use woms.Domain.{Order}
use woms.Api.State.{MemoryStore}
use woms.Api.OrderIds.{candidate, search_id, next_remainder_order_id, remainder_base}
use woms.Api.Splits.{SplitState, taken, split_id}
use woms.Api.Production.{remainder_id}
use text.Mathlib.TextLemmas.{append_cancel_left}

candidate-injective : (base : String) (a b : ℕ) → candidate base a ≡ candidate base b → a ≡ b
unfolding candidate
candidate-injective base a b h =
    itoa-injective a b (append_cancel_left "-" _ _ (append_cancel_left base _ _ h))

-- The IDs that are left when one is taken out.
without : String → List String → List String
unfolding keep
without id ids = keep (λ x. not (str_eq x id)) ids

without-le : (id : String) (ids : List String) → length (without id ids) ≤ length ids
unfolding without
without-le id [] = omega arith
without-le id (x ∷ ids) = ground (arith, without-le id ids)

without-lt :
    (id : String) (ids : List String)
    → contains ids id ≡ true
    → length (without id ids) < length ids
unfolding without contains
without-lt id [] h = ground arith
without-lt id (x ∷ ids) h = ground (arith, without-le id ids, without-lt id ids)

contains-without :
    (id x : String) (ids : List String)
    → contains ids x ≡ true
    → str_eq id x ≡ false
    → contains (without id ids) x ≡ true
unfolding without contains
contains-without id x [] h ne = ground arith
contains-without id x (y ∷ ids) h ne =
    ground (arith, eq_iff y x, eq_iff y id, eq_iff id x, contains-without id x ids)

module _ (base : String) (exists : String → Bool) where
  -- Every candidate from a number on that exists is in the list.
  abbrev pub Covers : List String → ℕ → Type 0
  Covers ids next =
      (n : ℕ) → next ≤ n → exists (candidate base n) ≡ true → contains ids (candidate base n) ≡ true

  Covers-without :
      (ids : List String) (next : ℕ)
      → Covers ids next
      → Covers (without (candidate base next) ids) (next + 1)
  Covers-without ids next covers n h e =
      contains-without (candidate base next) (candidate base n) ids (covers n (omega arith) e)
        (elim (Bool-cases (str_eq (candidate base next) (candidate base n))) [
          | inr different ↦ different
          | inl same ↦
              let equal : next ≡ n =
                candidate-injective base next n ((eq_iff (candidate base next) _).0 same) in
              ground arith
        ])

  pub search_id-IsFresh :
      (fuel : ℕ) (ids : List String) (next : ℕ)
      → Covers ids next
      → length ids < fuel
      → (id : String) × (search_id fuel base next exists ≡ some id) × (exists id ≡ false)
  unfolding search_id
  search_id-IsFresh zero ids next covers h = ground arith
  search_id-IsFresh (suc fuel) ids next covers h =
      elim (Bool-cases (exists (candidate base next))) [
        | inr free ↦ (candidate base next, rw (free, search_id) refl, free)
        | inl held ↦
            let shorter = without-lt (candidate base next) ids (covers next (omega arith) held) in
            rw (held, search_id)
              (search_id-IsFresh fuel (without (candidate base next) ids) (next + 1)
                (Covers-without ids next covers) (omega arith))
      ]

abbrev keys {ℓ} : {V : Type ℓ} → Map V → List String
keys [] = []
keys ((k, v) ∷ m) = k ∷ keys m

length-keys {ℓ} : {V : Type ℓ} (m : Map V) → length (keys m) ≡ length m
length-keys [] = refl
length-keys ((k, v) ∷ m) = omega (arith, length-keys m)

contains-keys {ℓ} :
    {V : Type ℓ} (m : Map V) (id : String) → has id m ≡ true → contains (keys m) id ≡ true
unfolding has lookup contains
contains-keys [] id h = ground arith
contains-keys ((k, v) ∷ m) id h = ground (arith, contains-keys m id)

-- The search for the ID of a remainder returns one, and no order has it.
pub remainder_id-IsFresh :
    (order : Order) (s : MemoryStore)
    → (id : String) × (remainder_id order s ≡ some id) × (has id s.orders ≡ false)
unfolding remainder_id next_remainder_order_id
remainder_id-IsFresh order s =
    search_id-IsFresh (remainder_base order.id (not (str_eq order.source_order ""))).0
      (λ id. has id s.orders) (suc (length s.orders)) (keys s.orders)
      (remainder_base order.id (not (str_eq order.source_order ""))).1
      (λ n h e. contains-keys s.orders _ e) (omega (arith, length-keys s.orders))

contains-append_left :
    (xs ys : List String) (id : String) → contains xs id ≡ true → contains (xs ++ ys) id ≡ true
unfolding contains
contains-append_left [] ys id h = ground arith
contains-append_left (x ∷ xs) ys id h = ground (arith, contains-append_left xs ys id)

contains-append_right :
    (xs ys : List String) (id : String) → contains ys id ≡ true → contains (xs ++ ys) id ≡ true
unfolding contains
contains-append_right [] ys id h = h
contains-append_right (x ∷ xs) ys id h = ground (arith, contains-append_right xs ys id h)

-- The search for the ID of a split order returns one that neither an order nor an earlier split has.
pub split_id-IsFresh :
    (s : MemoryStore) (st : SplitState) (source : Order) (source_id : String)
    → (id : String) × (split_id s st source source_id ≡ some id) × (taken s st id ≡ false)
unfolding split_id next_remainder_order_id
split_id-IsFresh s st source source_id =
    search_id-IsFresh (remainder_base source_id (not (str_eq source.source_order ""))).0
      (taken s st) (suc (length s.orders + length st.reserved)) (keys s.orders ++ st.reserved)
      (remainder_base source_id (not (str_eq source.source_order ""))).1 (λ n h e. covered _ e)
      (omega (arith, length-append (keys s.orders) st.reserved, length-keys s.orders))
  where
    covered :
        (id : String) → taken s st id ≡ true → contains (keys s.orders ++ st.reserved) id ≡ true
    covered id e = elim (Bool-cases (has id s.orders)) [
      | inl known ↦
          contains-append_left (keys s.orders) st.reserved id (contains-keys s.orders id known)
      | inr unknown ↦ contains-append_right (keys s.orders) st.reserved id (ground arith)
    ]
