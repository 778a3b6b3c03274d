-- ===== src/Base/TextOrder.antt =====
-- `<` on strings is a strict total order.
use Prim.Native.Char.{Char, code}
use Prim.Native.Nat.{◌<◌, Ordering}
use Prim.Native.String.{String, [], ◌∷◌, compare}
use Prim.Native.String
use mathlib.Core.Path.{◌≡◌}
use mathlib.Core.Logic.{◌⊎◌}
use mathlib.Core.Bool.{true, false}
use native.Mathlib.Omega.{arith}
use text.Mathlib.TextEquality.{path_by_compare}
use text.Mathlib.TextPositions.{compare_refl}
use woms.Base.Tests.{str_lt}

less_cons :
    (c d : Char) (s t : String)
    → compare (c ∷ s) (d ∷ t) ≡ Ordering.lt
    → (code c < code d) ⊎ (code c ≡ code d) × (compare s t ≡ Ordering.lt)
less_cons c d s t h = let e = (rw (String.compare.cons-cons c d s t) at h) in ground arith

cons_less :
    (c d : Char) (s t : String)
    → (code c < code d) ⊎ (code c ≡ code d) × (compare s t ≡ Ordering.lt)
    → compare (c ∷ s) (d ∷ t) ≡ Ordering.lt
cons_less c d s t h = rw (String.compare.cons-cons c d s t) (ground arith)

not_less_nil : (s : String) → compare s [] ≡ Ordering.lt → ⊥
not_less_nil [] h = let e = (rw String.compare.nil-nil at h) in cc
not_less_nil (c ∷ s) h = let e = (rw (String.compare.cons-nil c s) at h) in cc

less_trans :
    (s t u : String)
    → compare s t ≡ Ordering.lt
    → compare t u ≡ Ordering.lt
    → compare s u ≡ Ordering.lt
less_trans s t [] h k = absurd (not_less_nil t k)
less_trans s [] (e ∷ u) h k = absurd (not_less_nil s h)
less_trans [] (d ∷ t) (e ∷ u) h k = String.compare.nil-cons e u
less_trans (c ∷ s) (d ∷ t) (e ∷ u) h k =
    let first = less_cons c d s t h in
    let second = less_cons d e t u k in
    cons_less c e s u (ground (arith, first, second, less_trans s t u))

greater_flip : (s t : String) → compare s t ≡ Ordering.gt → compare t s ≡ Ordering.lt
greater_flip [] [] h = let e = (rw String.compare.nil-nil at h) in cc
greater_flip [] (d ∷ t) h = let e = (rw (String.compare.nil-cons d t) at h) in cc
greater_flip (c ∷ s) [] h = String.compare.nil-cons c s
greater_flip (c ∷ s) (d ∷ t) h =
    let e = (rw (String.compare.cons-cons c d s t) at h) in
    cons_less d c t s (ground (arith, greater_flip s t))

pub str_lt_trans : (s t u : String) → str_lt s t ≡ true → str_lt t u ≡ true → str_lt s u ≡ true
str_lt_trans s t u h k = ground (arith, less_trans s t u)

pub str_lt_irrefl : (s : String) → str_lt s s ≡ false
str_lt_irrefl s = ground (arith, compare_refl s)

pub str_lt_asym : (s t : String) → str_lt s t ≡ true → str_lt t s ≡ false
str_lt_asym s t h = ground (arith, str_lt_trans s t s, str_lt_irrefl s)

pub str_lt_total : (s t : String) → str_lt s t ≡ false → str_lt t s ≡ false → s ≡ t
str_lt_total s t h k = ground (arith, path_by_compare s t, greater_flip s t)
