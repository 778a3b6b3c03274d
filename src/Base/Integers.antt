-- ===== src/Base/Integers.antt =====
-- The 64-bit integers of Go, and `strconv.Atoi`.
use Prim.Native.Nat.{ℕ, zero, suc, ◌-◌, ◌%◌}
use Prim.Native.String.{String}
use mathlib.Core.Bool.{Bool, true, false}
use mathlib.Core.Option.{Option, none, some}
use mathlib.Core.List.{List, [], ◌∷◌}
use woms.Base.Tests.{ltb, leb, ◌==◌, if◌then◌else◌}
use woms.Base.Int.{ℤ, pos, negsuc}
use woms.Base.Text.{codes, digits_value}

-- A 64-bit integer that wraps around.
abbrev pub wrap_int64 : ℕ → ℤ
wrap_int64 n =
    if ltb (n % 18446744073709551616) 9223372036854775808
    then pos (n % 18446744073709551616)
    else negsuc (18446744073709551615 - n % 18446744073709551616)

abbrev pub signed : Bool → Option ℕ → Option ℤ
signed negative none = none
signed true (some zero) = some (pos 0)
signed true (some (suc n)) = if leb n 9223372036854775807 then some (negsuc n) else none
signed false (some n) = if leb n 9223372036854775807 then some (pos n) else none

unfoldable pub digits_number : Bool → List ℕ → Option ℤ
unfolding digits_value
digits_number negative [] = none
digits_number negative (c ∷ cs) = signed negative (digits_value 0 (c ∷ cs))

-- `strconv.Atoi` of the codes of a text.
unfoldable pub signed_number : List ℕ → Option ℤ
unfolding digits_number
signed_number [] = none
signed_number (c ∷ cs) =
    if c == b'-'
    then digits_number true cs
    else if c == b'+'
    then digits_number false cs
    else digits_number false (c ∷ cs)

-- `strconv.Atoi`
unfoldable pub atoi : String → Option ℤ
unfolding signed_number
atoi text = signed_number (codes text)
