-- ===== src/Worker/Environment.antt =====
-- `configString`, `configDuration` and `configInt` of cmd/scheduler-worker/main.go: the values of
-- environment variables.
use woms.Base.{ℕ, ◌*◌, Option, none, some, String, str_eq, if◌then◌else◌}
use woms.Base.Int.{ℤ, pos, negsuc}
use woms.Base.Results.{Result, ok, err, ◌>>=◌}
use woms.Base.Text.{trim_space}
use Prim.Native.String
use woms.Base.Integers.{wrap_int64, atoi}

abbrev pub Lookup : Type 0
Lookup = String → Option String

abbrev or_fallback : String → String → String
or_fallback fallback value = if str_eq value "" then fallback else value

unfoldable pub config_string : Lookup → String → String → String
unfolding trim_space
config_string lookup key fallback = elim (lookup key) [
  | none ↦ fallback
  | some value ↦ or_fallback fallback (trim_space value)
]

-- The number of a variable that is set and not blank.
abbrev parse_int : String → String → String → Option ℤ → Result (Option ℕ)
parse_int key not_integer negative none = err (String.◌++◌ key not_integer)
parse_int key not_integer negative (some (negsuc n)) = err (String.◌++◌ key negative)
parse_int key not_integer negative (some (pos n)) = ok (some n)

abbrev int_or_unset : String → String → String → Result (Option ℕ)
int_or_unset key not_integer value =
    if str_eq value ""
    then ok none
    else parse_int key not_integer " must be greater than or equal to zero" (atoi value)

unfoldable pub config_number : Lookup → String → String → Result (Option ℕ)
unfolding atoi trim_space
config_number lookup key not_integer = elim (lookup key) [
  | none ↦ ok none
  | some raw ↦ int_or_unset key not_integer (trim_space raw)
]

-- A number of nanoseconds; the product of the milliseconds wraps around.
unfoldable pub config_duration : Lookup → String → ℤ → Result ℤ
unfolding config_number
config_duration lookup key fallback = do
  millis ← config_number lookup key " must be an integer number of milliseconds"
  ok (elim millis [ none ↦ fallback | some n ↦ wrap_int64 (n * 1000000) ])

unfoldable pub config_int : Lookup → String → ℕ → Result ℕ
unfolding config_number
config_int lookup key fallback = do
  parsed ← config_number lookup key " must be an integer"
  ok (elim parsed [ none ↦ fallback | some n ↦ n ])
