-- ===== src/Api/HpaClear.antt =====
-- What the loops of internal/api/server.go that remove the demonstration leave of a map.
use woms.Base.{
  ◌≡◌, refl, sym, ap, ◌∙◌, inl, inr, Bool, [], ◌∷◌, Option, none, some, String, str_eq, eq_iff,
  Bool-cases, if◌then◌else◌,
}
use woms.Base.Maps.{Map, lookup, lookup-delete}
use woms.Domain.{Order}
use woms.Api.State.{Env, MemoryStore, audit_locked}
use woms.Api.HpaDemo.{is_hpa_demo_line, delete_where, clear_demo_data, clear_hpa_peak_demo_locked}

abbrev pub on_demo_line : String → Order → Bool
on_demo_line id order = is_hpa_demo_line order.line_id

-- What is left of a value that may be deleted.
abbrev pub spared {ℓ} : {V : Type ℓ} → (V → Bool) → Option V → Option V
spared bad none = none
spared bad (some v) = if bad v then none else some v

module _ {ℓ} {V : Type ℓ} (bad : String → V → Bool) where
  pub lookup-delete_where :
      (id : String) (m : Map V) → lookup id (delete_where bad m) ≡ spared (bad id) (lookup id m)
  unfolding lookup delete_where
  lookup-delete_where id [] = refl
  lookup-delete_where id ((name, v) ∷ rest) = elim (Bool-cases (str_eq name id)) [
    | inl same ↦
        let equal : name ≡ id = (eq_iff name id).0 same in
        elim (Bool-cases (bad name v)) [
          | inl gone ↦
              rw (gone, lookup-delete name id (delete_where bad rest), same, sym equal, gone) refl
          | inr kept ↦ rw (kept, lookup, same, sym equal, kept) refl
        ]
    | inr differs ↦ elim (Bool-cases (bad name v)) [
      | inl gone ↦
          rw (gone, lookup-delete name id (delete_where bad rest), differs)
            (lookup-delete_where id rest)
      | inr kept ↦ rw (kept, lookup, differs) (lookup-delete_where id rest)
    ]
  ]

-- The orders after a demonstration is cleared.
pub clear-orders :
    (env : Env) (actor : String) (s : MemoryStore)
    → (clear_hpa_peak_demo_locked env actor s).orders ≡ delete_where on_demo_line s.orders
unfolding clear_hpa_peak_demo_locked clear_demo_data audit_locked
clear-orders env actor s = elim (Bool-cases (str_eq actor "")) [
  | inl nobody ↦ rw (nobody) refl
  | inr someone ↦ rw (someone) refl
]

pub lookup-clear :
    (env : Env) (actor id : String) (s : MemoryStore)
    → lookup id (clear_hpa_peak_demo_locked env actor s).orders
      ≡ spared (on_demo_line id) (lookup id s.orders)
lookup-clear env actor id s =
    ap (lookup id) (clear-orders env actor s) ∙ lookup-delete_where on_demo_line id s.orders
