-- ===== src/Base/Maps.antt =====
-- Go maps keyed by text, as association lists. A map ranges in the order of its list.
use Prim.Native.String.{String}
use mathlib.Core.Path.{◌≡◌, refl}
use mathlib.Core.Bool.{Bool, true, false}
use mathlib.Core.List.{List, [], ◌∷◌}
use mathlib.Core.Option.{Option, none, some}
use native.Mathlib.Omega.{arith}
use text.Mathlib.Text.{◌==◌ as str_eq}
use text.Mathlib.TextEquality.{eq_iff}
use woms.Base.Tests.{if◌then◌else◌}

abbrev pub Map {ℓ} : Type ℓ → Type ℓ
Map V = List (String × V)

module _ {ℓ} {V : Type ℓ} where
  -- `value, ok := m[key]`
  unfoldable pub lookup : String → Map V → Option V
  lookup key [] = none
  lookup key ((name, value) ∷ rest) = if str_eq name key then some value else lookup key rest

  -- `m[key] = new`, in the place of the old entry or at the end.
  unfoldable pub insert : String → V → Map V → Map V
  insert key new [] = (key, new) ∷ []
  insert key new ((name, value) ∷ rest) =
      if str_eq name key then (key, new) ∷ rest else (name, value) ∷ insert key new rest

  -- `delete(m, k)`
  unfoldable pub delete : String → Map V → Map V
  delete k [] = []
  delete k ((j, w) ∷ m) = let rest = delete k m in if str_eq j k then rest else (j, w) ∷ rest

  abbrev pub values : Map V → List V
  values [] = []
  values ((j, v) ∷ m) = v ∷ values m

  abbrev pub is_some : Option V → Bool
  is_some none = false
  is_some (some v) = true

  -- `m[k]`: a missing key has the zero value.
  unfoldable pub lookup_or : V → String → Map V → V
  unfolding lookup
  lookup_or zero_value k m = elim (lookup k m) [ none ↦ zero_value | some v ↦ v ]

  unfoldable pub has : String → Map V → Bool
  unfolding lookup
  has k m = is_some (lookup k m)

  -- What a key holds after a write.
  pub lookup-insert :
      (written read : String) (new : V) (entries : Map V)
      → lookup read (insert written new entries)
        ≡ (if str_eq written read then some new else lookup read entries)
  unfolding lookup insert
  lookup-insert written read new [] = refl
  lookup-insert written read new ((name, value) ∷ rest) = ground (
    arith,
    lookup-insert written read new rest,
    eq_iff name written,
    eq_iff name read,
    eq_iff written read,
  )

  -- What a key holds after a deletion.
  pub lookup-delete :
      (gone read : String) (entries : Map V)
      → lookup read (delete gone entries) ≡ (if str_eq gone read then none else lookup read entries)
  unfolding lookup delete
  lookup-delete gone read [] = ground arith
  lookup-delete gone read ((name, value) ∷ rest) =
      ground
        (arith, lookup-delete gone read rest, eq_iff name gone, eq_iff name read, eq_iff gone read)
