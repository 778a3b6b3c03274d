-- ===== src/Clock.antt =====
-- Go's `time.Time`, as far as the source uses it (package `time`, all values in UTC), and the
-- package's own date helpers: `truncateDate`, `dateKey`, `effectiveCurrentDate`,
-- `unixMilliseconds` of internal/scheduler/scheduler.go and internal/api/server.go.
mod Calendar
unfoldable pub use Calendar.{parse_date, format_date, days_before_year, day_of_date}
use woms.Base.{ℕ, ◌+◌, ◌-◌, ◌*◌, ◌/◌, ◌≤◌, ◌<◌, ◌≡◌, Bool, arith, ltb, ◌==◌, if◌then◌else◌}

-- Nanoseconds since the start of the year 0, so that every date that parses has a value.
abbrev pub Time : Type 0
Time = ℕ

abbrev pub day_length : ℕ
day_length = 86400000000000

-- The zero `time.Time` is 1 January of the year 1, and the year 0 is a leap year.
abbrev pub zero_time : Time
zero_time = 366 * 86400000000000

unfoldable pub is_zero : Time → Bool
is_zero t = t == zero_time

unfoldable pub truncate_date : Time → Time
truncate_date t = t / day_length * day_length

-- `t.AddDate(0, 0, n)` for n ≥ 0.
unfoldable pub add_days : Time → ℕ → Time
add_days t n = t + n * day_length

abbrev pub before : Time → Time → Bool
before a b = ltb a b

abbrev pub after : Time → Time → Bool
after a b = ltb b a

-- The day that `dateKey` formats, as a number: the text of a date and the day determine one another.
unfoldable pub date_key : Time → ℕ
date_key t = t / day_length

unfoldable pub effective_current_date : Time → Time → Time
unfolding is_zero truncate_date
effective_current_date now current_date =
    if is_zero current_date then truncate_date now else truncate_date current_date

abbrev unix_epoch : Time
unix_epoch = 719528 * 86400000000000

-- Times before 1970 do not occur here: the argument is a wall-clock reading or the zero time.
unfoldable pub unix_milliseconds : Time → ℕ
unfolding is_zero
unix_milliseconds t = if is_zero t then 0 else (t - unix_epoch) / 1000000

-- `t.Unix()` of a time after 1970.
unfoldable pub unix_seconds : Time → ℕ
unix_seconds t = (t - unix_epoch) / 1000000000

pub date_key-add_days : (t n : ℕ) → date_key (add_days t n) ≡ date_key t + n
unfolding date_key add_days
date_key-add_days t n = omega arith

pub date_key-truncate_date : (t : Time) → date_key (truncate_date t) ≡ date_key t
unfolding date_key truncate_date
date_key-truncate_date t = omega arith

pub truncate_date_idem : (t : Time) → truncate_date (truncate_date t) ≡ truncate_date t
unfolding truncate_date
truncate_date_idem t = omega arith

pub truncate_date-add_days : (t n : ℕ) → truncate_date (add_days t n) ≡ add_days (truncate_date t) n
unfolding truncate_date add_days
truncate_date-add_days t n = omega arith

pub truncate_date-le : (t : Time) → truncate_date t ≤ t
unfolding truncate_date
truncate_date-le t = omega arith

-- Midnights are in the order of their days.
pub date_key-le_of_le : (a b : ℕ) → a ≤ b → date_key a ≤ date_key b
unfolding date_key
date_key-le_of_le a b h = omega arith

pub le_of_date_key-le : (a b : ℕ) → truncate_date a ≡ a → date_key a ≤ date_key b → a ≤ b
unfolding date_key truncate_date
le_of_date_key-le a b h k = omega arith

pub le-add_days : (t n : ℕ) → t ≤ add_days t n
unfolding add_days
le-add_days t n = omega arith
