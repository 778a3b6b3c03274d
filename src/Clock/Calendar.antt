-- ===== src/Clock/Calendar.antt =====
-- Dates in the layout "2006-01-02": what `time.Parse` accepts and `Time.Format` prints.
use Prim.Native.String.{String, ◌++◌}
use woms.Base.{
  ℕ, zero, suc, ◌+◌, ◌-◌, ◌*◌, ◌/◌, ◌%◌, ◌≡◌, refl, Bool, true, false, ◌&&◌, ◌||◌, Option, none,
  some, List, [], ◌∷◌, leb, ◌==◌, if◌then◌else◌, not,
}
use woms.Base.Text.{codes, digits_value, digit}

-- Days from the start of the year 0 to that of the year `y`.
unfoldable pub days_before_year : ℕ → ℕ
days_before_year y = 365 * y + (y + 3) / 4 + (y + 399) / 400 - (y + 99) / 100

is_leap : ℕ → Bool
is_leap y = y % 4 == 0 && (not (y % 100 == 0) || y % 400 == 0)

-- Days in the months before the month `m` (1 for January) of a common year.
common_days_before : ℕ → ℕ
common_days_before m =
    if m == 1
    then 0
    else if m == 2
    then 31
    else if m == 3
    then 59
    else if m == 4
    then 90
    else if m == 5
    then 120
    else if m == 6
    then 151
    else if m == 7
    then 181
    else if m == 8
    then 212
    else if m == 9
    then 243
    else if m == 10
    then 273
    else if m == 11
    then 304
    else if m == 12
    then 334
    else 365

days_before_month : ℕ → ℕ → ℕ
unfolding is_leap common_days_before
days_before_month y m = common_days_before m + (if is_leap y && leb 3 m then 1 else 0)

days_in_month : ℕ → ℕ → ℕ
unfolding days_before_month
days_in_month y m = days_before_month y (m + 1) - days_before_month y m

-- The day of a date, or `none` if the calendar has no such date.
unfoldable pub day_of_date : ℕ → ℕ → ℕ → Option ℕ
unfolding days_before_year days_before_month days_in_month
day_of_date y m d =
    if leb 1 m && leb m 12 && leb 1 d && leb d (days_in_month y m)
    then some (days_before_year y + days_before_month y m + (d - 1))
    else none

parse_fields : List ℕ → Option ℕ
unfolding day_of_date digits_value
parse_fields (a ∷ b ∷ c ∷ d ∷ dash ∷ e ∷ f ∷ dash' ∷ g ∷ h ∷ []) =
    if dash == b'-' && dash' == b'-'
    then elim (digits_value 0 (a ∷ b ∷ c ∷ d ∷ [])) [
      | none ↦ none
      | some y ↦ elim (digits_value 0 (e ∷ f ∷ [])) [
        | none ↦ none
        | some m ↦ elim (digits_value 0 (g ∷ h ∷ [])) [
          | none ↦ none
          | some day ↦ day_of_date y m day
        ]
      ]
    ]
    else none
parse_fields _ = none

-- `time.Parse("2006-01-02", value)`; `none` is the error.
unfoldable pub parse_date : String → Option ℕ
unfolding parse_fields
parse_date value = elim (parse_fields (codes value)) [
  | none ↦ none
  | some n ↦ some (n * 86400000000000)
]

-- The year of day `n`, searched downwards from `y`.
year_from : ℕ → ℕ → ℕ
unfolding days_before_year
year_from n zero = zero
year_from n (suc y) = elim (leb (days_before_year (suc y)) n) [
  | true ↦ suc y
  | false ↦ year_from n y
]

month_from : ℕ → ℕ → ℕ → ℕ
unfolding days_before_month
month_from y n zero = zero
month_from y n (suc m) = elim (leb (days_before_month y (suc m)) n) [
  | true ↦ suc m
  | false ↦ month_from y n m
]

two_digits : ℕ → String
unfolding digit
two_digits n = digit (n / 10 % 10) ++ digit (n % 10)

-- `t.Format("2006-01-02")`, for the years up to 9999.
unfoldable pub format_date : ℕ → String
unfolding year_from month_from two_digits
format_date t =
    let n : ℕ = t / 86400000000000 in
    let y : ℕ = year_from n (n / 365) in
    let in_year : ℕ = n - days_before_year y in
    let m : ℕ = month_from y in_year 12 in
    two_digits (y / 100)
    ++ (two_digits y
        ++ ("-" ++ (two_digits m ++ ("-" ++ two_digits (in_year - days_before_month y m + 1)))))

parse_june : parse_date "2026-06-04" ≡ some (740136 * 86400000000000)
unfolding parse_date
parse_june = refl

format_june : format_date (740136 * 86400000000000 + 5) ≡ "2026-06-04"
unfolding format_date
format_june = refl

format_leap_day : format_date (739310 * 86400000000000) ≡ "2024-02-29"
unfolding format_date
format_leap_day = refl

parse_bad : parse_date "2026-02-29" ≡ none
unfolding parse_date
parse_bad = refl
