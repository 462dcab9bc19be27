-- ===== src/Date.antt =====
-- rust/crates/thttpd-tdate/src/lib.rs: HTTP dates. The calendar of the code as functions of numbers,
-- for a year that is no negative number, and the two directions between a date and its time.
pub mod Epoch
use thttpd_rs.Base.{
  ℕ, zero, suc, ◌+◌, ◌-◌, ◌*◌, ◌/◌, ◌%◌, ◌^◌, Bool, true, false, not, ◌&&◌, ◌||◌, List, [], ◌∷◌,
  Option, none, some, Bytes, codes, ◌==◌, ltb, if◌then◌else◌,
}
use thttpd_rs.Base.Int.{ℤ, pos, sub_ℕ}

unfoldable pub is_leap_year : ℕ → Bool
is_leap_year y = (y % 4 == 0 && not (y % 100 == 0)) || y % 400 == 0

unfoldable pub days_in_year : ℕ → ℕ
unfolding is_leap_year
days_in_year y = if is_leap_year y then 366 else 365

unfoldable pub days_in_month : ℕ → ℕ → ℕ
unfolding is_leap_year
days_in_month m y =
    if m == 0 || m == 2 || m == 4 || m == 6 || m == 7 || m == 9 || m == 11
    then 31
    else if m == 3 || m == 5 || m == 8 || m == 10
    then 30
    else if m == 1
    then if is_leap_year y then 29 else 28
    else 0

-- `for yr in start..start + n`
unfoldable pub days_of_years : ℕ → ℕ → ℕ
unfolding days_in_year
days_of_years start zero = 0
days_of_years start (suc n) = days_of_years start n + days_in_year (start + n)

-- `for m in 0..month`
unfoldable pub days_before_month : ℕ → ℕ → ℕ
unfolding days_in_month
days_before_month zero y = 0
days_before_month (suc m) y = days_before_month m y + days_in_month m y

pub record Civil : Type 0 where
  pub year : ℕ
  pub month : ℕ
  pub day : ℕ
  pub hour : ℕ
  pub min : ℕ
  pub sec : ℕ

-- The seconds in the year of a date; `day - 1` is a `u32` and wraps.
unfoldable pub seconds_in_year : Civil → ℕ
unfolding days_before_month
seconds_in_year c =
    (days_before_month c.month c.year + (c.day + (2 ^ 32 - 1)) % 2 ^ 32) * 86400
    + c.hour * 3600
    + c.min * 60
    + c.sec

-- Both directions from 1970; the sums stay below 2 ^ 63 for an `i32` year.
unfoldable pub date_to_epoch : Civil → ℤ
unfolding days_of_years seconds_in_year
date_to_epoch c =
    if ltb c.year 1970
    then sub_ℕ (seconds_in_year c) (days_of_years c.year (1970 - c.year) * 86400)
    else pos (days_of_years 1970 (c.year - 1970) * 86400 + seconds_in_year c)

-- The loop over the years, with what remains. `none` is a loop that has not ended on its fuel, or a year
-- that leaves an `i32`, which a checked build refuses with a panic.
unfoldable pub take_years : ℕ → ℕ → ℕ → Option (ℕ × ℕ)
unfolding days_in_year
take_years zero year remaining = none
take_years (suc fuel) year remaining =
    let rest = take_years fuel (year + 1) (remaining - days_in_year year * 86400) in
    if ltb remaining (days_in_year year * 86400)
    then some (year, remaining)
    else if ltb (year + 1) (2 ^ 31)
    then rest
    else none

-- The loop over the months of a year.
unfoldable pub take_months : ℕ → ℕ → ℕ → ℕ → Option (ℕ × ℕ)
unfolding days_in_month
take_months zero month year remaining = none
take_months (suc fuel) month year remaining =
    let rest = take_months fuel (month + 1) year (remaining - days_in_month month year * 86400) in
    if ltb remaining (days_in_month month year * 86400) then some (month, remaining) else rest

-- What is left of a month, as the day and the time of day.
unfoldable pub time_of_day : ℕ → ℕ → ℕ → Civil
time_of_day year month remaining = record {
  year = year;
  month = month;
  day = remaining / 86400 + 1;
  hour = remaining % 86400 / 3600;
  min = remaining % 86400 % 3600 / 60;
  sec = remaining % 86400 % 3600 % 60;
}

-- The fields that `format_http_date` prints, of a time from 1970 on.
unfoldable pub civil_of : ℕ → ℕ → Option Civil
unfolding take_years take_months time_of_day
civil_of fuel timestamp = elim (take_years fuel 1970 timestamp) [
  | none ↦ none
  | some (year, remaining) ↦ elim (take_months 12 0 year remaining) [
    | none ↦ none
    | some (month, rest) ↦ some (time_of_day year month rest)
  ]
]
