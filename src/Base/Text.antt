-- ===== src/Base/Text.antt =====
-- The functions of Go's `strings`, `strconv` and `unicode` packages that the source calls.
use Prim.Native.Nat.{ℕ, zero, suc, ◌/◌, ◌%◌, ◌+◌, ◌-◌, ◌*◌}
use Prim.Native.Char.{Char, code}
use Prim.Native.String.{String, ◌++◌, count}
use mathlib.Core.Bool.{Bool, true, false, ◌&&◌, ◌||◌}
use mathlib.Core.Option.{Option, none, some}
use mathlib.Core.List.{List, [], ◌∷◌}
use woms.Base.Tests.{ltb, leb, ◌==◌, if◌then◌else◌}

-- `unicode.IsSpace`
unfoldable pub is_space : ℕ → Bool
is_space c =
    leb 9 c && leb c 13
    || c == 32
    || c == 0x85
    || c == 0xa0
    || c == 0x1680
    || leb 0x2000 c && leb c 0x200a
    || c == 0x2028
    || c == 0x2029
    || c == 0x202f
    || c == 0x205f
    || c == 0x3000

unfoldable pub trim_left : String → String
unfolding is_space
trim_left String.[] = String.[]
trim_left (String.◌∷◌ c s) =
    let rest = trim_left s in if is_space (code c) then rest else String.◌∷◌ c s

abbrev pub is_blank : String → Bool
is_blank String.[] = true
is_blank (String.◌∷◌ c s) = false

trim_end : Char → String → String
unfolding is_space
trim_end c String.[] = if is_space (code c) then String.[] else String.◌∷◌ c String.[]
trim_end c (String.◌∷◌ d s) = String.◌∷◌ c (String.◌∷◌ d s)

unfoldable pub trim_right : String → String
unfolding trim_end
trim_right String.[] = String.[]
trim_right (String.◌∷◌ c s) = trim_end c (trim_right s)

-- `strings.TrimSpace`
unfoldable pub trim_space : String → String
unfolding trim_left trim_right
trim_space s = trim_right (trim_left s)

-- The code points of a text.
abbrev pub codes : String → List ℕ
codes (String.◌∷◌ first rest) = code first ∷ codes rest
codes String.[] = []

unfoldable pub is_digit : ℕ → Bool
is_digit c = leb b'0' c && leb c b'9'

-- The value of a run of decimal digits, read from the left.
unfoldable pub digits_value : ℕ → List ℕ → Option ℕ
unfolding is_digit
digits_value acc [] = some acc
digits_value acc (c ∷ cs) =
    let rest = digits_value (10 * acc + (c - b'0')) cs in if is_digit c then rest else none

-- `len([]rune(s))`
abbrev pub rune_count : String → ℕ
rune_count s = count s

unfoldable pub digit : ℕ → String
digit n =
    if n == 0
    then "0"
    else if n == 1
    then "1"
    else if n == 2
    then "2"
    else if n == 3
    then "3"
    else if n == 4
    then "4"
    else if n == 5
    then "5"
    else if n == 6
    then "6"
    else if n == 7
    then "7"
    else if n == 8
    then "8"
    else "9"

unfoldable pub itoa_from : ℕ → ℕ → String
unfolding digit
itoa_from zero n = String.[]
itoa_from (suc fuel) n =
    let rest : String = itoa_from fuel (n / 10) ++ digit (n % 10) in
    if ltb n 10 then digit n else rest

-- `strconv.Itoa` of a number that is not negative; it has at most `n + 1` digits.
unfoldable pub itoa : ℕ → String
unfolding itoa_from
itoa n = itoa_from (suc n) n

unfoldable pub zeros : ℕ → String
zeros zero = String.[]
zeros (suc n) = "0" ++ zeros n

-- `fmt.Sprintf("%0*d", width, n)`
unfoldable pub itoa_padded : ℕ → ℕ → String
unfolding itoa zeros
itoa_padded width n = let text : String = itoa n in zeros (width - count text) ++ text

abbrev onto_head : String → List String → List String
onto_head s [] = s ∷ []
onto_head s (part ∷ parts) = (s ++ part) ∷ parts

-- `strings.Split` at a separator of one character, given by its code.
unfoldable pub split_on : ℕ → String → List String
split_on separator String.[] = String.[] ∷ []
split_on separator (String.◌∷◌ c s) =
    let parts : List String = split_on separator s in
    if code c == separator then String.[] ∷ parts else onto_head (String.◌∷◌ c String.[]) parts

-- `strings.TrimPrefix` behind `strings.HasPrefix`.
unfoldable pub strip_prefix : String → String → Option String
strip_prefix String.[] s = some s
strip_prefix (String.◌∷◌ c p) String.[] = none
strip_prefix (String.◌∷◌ c p) (String.◌∷◌ d s) =
    let rest : Option String = strip_prefix p s in if code c == code d then rest else none
