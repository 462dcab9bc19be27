-- ===== src/Date/Epoch.antt =====
-- From a time to its date and back.
use thttpd_rs.Base.{
  ℕ, zero, suc, ◌+◌, ◌-◌, ◌*◌, ◌/◌, ◌%◌, ◌≡◌, ◌≤◌, ◌<◌, refl, ◌∙◌, ap, ◌^◌, ◌≢◌, ◌⊎◌, true, false,
  ==_iff, ◌==◌, ◌&&◌, not, ||-eq-true, &&-eq-true, Option, some, ltb, arith, inl, inr, Bool-cases,
}
use thttpd_rs.Base.Int.{pos}
use thttpd_rs.Date.{
  Civil, is_leap_year, days_in_year, days_in_month, days_of_years, days_before_month,
  seconds_in_year, date_to_epoch, take_years, take_months, time_of_day, civil_of,
}

-- A leap year of the Gregorian calendar: a multiple of 4 that is none of 100, or a multiple of 400.
abbrev pub IsLeap : ℕ → Type 0
IsLeap y = ((y % 4 ≡ 0) × (y % 100 ≢ 0)) ⊎ (y % 400 ≡ 0)

-- The lengths of the months of the Gregorian calendar, counted from zero.
pub data HasDays (y : ℕ) : ℕ → ℕ → Type 0 where
  january : HasDays y 0 31
  leap_february : IsLeap y → HasDays y 1 29
  february : ¬ IsLeap y → HasDays y 1 28
  march : HasDays y 2 31
  april : HasDays y 3 30
  may : HasDays y 4 31
  june : HasDays y 5 30
  july : HasDays y 6 31
  august : HasDays y 7 31
  september : HasDays y 8 30
  october : HasDays y 9 31
  november : HasDays y 10 30
  december : HasDays y 11 31

-- A date of the Gregorian calendar, with its month counted from zero.
pub record IsDate (c : Civil) : Type 0 where
  pub year : (1970 ≤ c.year) × (c.year < 2 ^ 31)
  pub day : (n : ℕ) × (HasDays c.year c.month n × (1 ≤ c.day) × (c.day ≤ n))
  pub hour : c.hour < 24
  pub min : c.min < 60
  pub sec : c.sec < 60

is_leap_year-IsLeap : (y : ℕ) → is_leap_year y ≡ true → IsLeap y
unfolding is_leap_year
is_leap_year-IsLeap y h = elim (||-eq-true (y % 4 == 0 && not (y % 100 == 0)) (y % 400 == 0) h) [
  | inl e ↦
      let (a, b) = &&-eq-true (y % 4 == 0) (not (y % 100 == 0)) e in
      inl ((==_iff (y % 4) 0).0 a, λ q. ground (arith, q, b))
  | inr e ↦ inr ((==_iff (y % 400) 0).0 e)
]

IsLeap-is_leap_year : (y : ℕ) → IsLeap y → is_leap_year y ≡ true
unfolding is_leap_year
IsLeap-is_leap_year y (inl (a, b)) = ground arith
IsLeap-is_leap_year y (inr a) = ground arith

february-HasDays : (y : ℕ) → HasDays y 1 (days_in_month 1 y)
unfolding days_in_month
february-HasDays y = elim (Bool-cases (is_leap_year y)) [
  | inl e ↦ rw e (leap_february (is_leap_year-IsLeap y e))
  | inr e ↦ rw e (february (λ l. cc (IsLeap-is_leap_year y l, e)))
]

days_in_month-HasDays : (m y : ℕ) → m < 12 → HasDays y m (days_in_month m y)
days_in_month-HasDays zero y h = unfold days_in_month in january
days_in_month-HasDays (suc zero) y h = february-HasDays y
days_in_month-HasDays (suc (suc zero)) y h = unfold days_in_month in march
days_in_month-HasDays (suc (suc (suc zero))) y h = unfold days_in_month in april
days_in_month-HasDays (suc (suc (suc (suc zero)))) y h = unfold days_in_month in may
days_in_month-HasDays (suc (suc (suc (suc (suc zero))))) y h = unfold days_in_month in june
days_in_month-HasDays (suc (suc (suc (suc (suc (suc zero)))))) y h = unfold days_in_month in july
days_in_month-HasDays (suc (suc (suc (suc (suc (suc (suc zero))))))) y h =
    unfold days_in_month in august
days_in_month-HasDays (suc (suc (suc (suc (suc (suc (suc (suc zero)))))))) y h =
    unfold days_in_month in september
days_in_month-HasDays (suc (suc (suc (suc (suc (suc (suc (suc (suc zero))))))))) y h =
    unfold days_in_month in october
days_in_month-HasDays (suc (suc (suc (suc (suc (suc (suc (suc (suc (suc zero)))))))))) y h =
    unfold days_in_month in november
days_in_month-HasDays (suc (suc (suc (suc (suc (suc (suc (suc (suc (suc (suc zero))))))))))) y h =
    unfold days_in_month in december
days_in_month-HasDays (suc (suc (suc (suc (suc (suc (suc (suc (suc (suc (suc (suc m)))))))))))) y
      h =
    absurd (omega arith)

months_of_year : (y : ℕ) → days_before_month 12 y ≡ days_in_year y
unfolding days_before_month days_in_month days_in_year
months_of_year y = elim (Bool-cases (is_leap_year y)) [ inl e ↦ rw e refl | inr e ↦ rw e refl ]

year_length : (y : ℕ) → 365 ≤ days_in_year y
unfolding days_in_year
year_length y = ground arith

Years : ℕ → ℕ → Option (ℕ × ℕ) → Type 0
Years n r answer =
    (m : ℕ) × ((rest : ℕ) × ((answer ≡ some (1970 + m, rest))
        × (days_of_years 1970 n * 86400 + r ≡ days_of_years 1970 m * 86400 + rest)
        × (rest < days_in_year (1970 + m) * 86400)
        × (1970 + m < 2 ^ 31)))

take_years-Years :
    (fuel n r : ℕ)
    → r < fuel * 31536000
    → n * 31536000 + r < (2 ^ 31 - 1970) * 31536000
    → Years n r (take_years fuel (1970 + n) r)
unfolding Years take_years
take_years-Years zero n r h k = absurd (omega arith)
take_years-Years (suc fuel) n r h k =
    let d = days_in_year (1970 + n) in
    let long = year_length (1970 + n) in
    let step : days_of_years 1970 (suc n) ≡ days_of_years 1970 n + d =
      unfold days_of_years in refl in
    elim (Bool-cases (ltb r (d * 86400))) [
      | inl e ↦ (n, (r, (rw e refl, refl, ground arith, omega arith)))
      | inr e ↦
          let over : d * 86400 ≤ r = ground arith in
          let (m, (rest, (a, b, c, w))) =
            take_years-Years fuel (suc n) (r - d * 86400) (omega arith) (omega arith) in
          let in_range : ltb (1970 + n + 1) (2 ^ 31) ≡ true = ground (arith, over, long, k) in
          let next : 1970 + n + 1 ≡ 1970 + suc n = omega arith in
          (m, (rest, (rw (e, in_range, next) a, omega (arith, step, b), c, w)))
    ]

Months : ℕ → ℕ → ℕ → Option (ℕ × ℕ) → Type 0
Months y n r answer =
    (m : ℕ) × ((rest : ℕ) × ((answer ≡ some (m, rest))
        × (days_before_month n y * 86400 + r ≡ days_before_month m y * 86400 + rest)
        × (rest < days_in_month m y * 86400)
        × (m < 12)))

take_months-Months :
    (fuel n y r : ℕ)
    → n + fuel ≡ 12
    → days_before_month n y * 86400 + r < days_before_month 12 y * 86400
    → Months y n r (take_months fuel n y r)
unfolding Months take_months
take_months-Months zero n y r s h =
    let whole : n ≡ 12 = omega arith in absurd (omega (arith, rw whole at h))
take_months-Months (suc fuel) n y r s h =
    let d = days_in_month n y in
    let step : days_before_month (suc n) y ≡ days_before_month n y + d =
      unfold days_before_month in refl in
    elim (Bool-cases (ltb r (d * 86400))) [
      | inl e ↦ (n, (r, (rw e refl, refl, ground arith, omega arith)))
      | inr e ↦
          let over : d * 86400 ≤ r = ground arith in
          let (m, (rest, (a, b, c, k))) =
            take_months-Months fuel (suc n) y (r - d * 86400) (omega arith) (omega (arith, step)) in
          let next : n + 1 ≡ suc n = omega arith in
          (m, (rest, (rw (e, next) a, omega (arith, step, b), c, k)))
    ]

years_from : (m : ℕ) → 1970 + m - 1970 ≡ m
years_from m = omega arith

month_length : (m y : ℕ) → days_in_month m y ≤ 31
unfolding days_in_month
month_length m y = ground arith

seconds_in_year-time_of_day :
    (y month rest : ℕ)
    → rest < days_in_month month y * 86400
    → seconds_in_year (time_of_day y month rest) ≡ days_before_month month y * 86400 + rest
unfolding seconds_in_year time_of_day
seconds_in_year-time_of_day y month rest h =
    let first : (rest / 86400 + 1 + (2 ^ 32 - 1)) % 2 ^ 32 ≡ rest / 86400 =
      omega (arith, month_length month y) in
    rw first (omega arith)

date_to_epoch-time_of_day :
    (m month rest : ℕ)
    → rest < days_in_month month (1970 + m) * 86400
    → date_to_epoch (time_of_day (1970 + m) month rest)
      ≡ pos (days_of_years 1970 m * 86400 + days_before_month month (1970 + m) * 86400 + rest)
unfolding time_of_day date_to_epoch days_of_years
date_to_epoch-time_of_day m month rest h =
    let late : ltb (1970 + m) 1970 ≡ false = ground arith in
    rw (date_to_epoch, late, years_from m, seconds_in_year-time_of_day (1970 + m) month rest h)
      (ap pos (omega arith))

time_of_day-IsDate :
    (m month rest : ℕ)
    → 1970 + m < 2 ^ 31
    → month < 12
    → rest < days_in_month month (1970 + m) * 86400
    → IsDate (time_of_day (1970 + m) month rest)
unfolding time_of_day
time_of_day-IsDate m month rest w k h = record {
  year = (omega arith, w);
  day = (
    days_in_month month (1970 + m),
    (days_in_month-HasDays month (1970 + m) k, omega arith, omega arith),
  );
  hour = omega arith;
  min = omega arith;
  sec = omega arith;
}

civil_of-found :
    (fuel timestamp year r month rest : ℕ)
    → take_years fuel 1970 timestamp ≡ some (year, r)
    → take_months 12 0 year r ≡ some (month, rest)
    → civil_of fuel timestamp ≡ some (time_of_day year month rest)
unfolding civil_of
civil_of-found fuel timestamp year r month rest a d = rw (a, civil_of) (rw d refl)

-- A time before 2 ^ 31 - 1970 years of 365 days, so that the year stays an `i32`: with at least as much
-- fuel as there are years of 365 days up to it, and one more, the loops end in a date of the Gregorian
-- calendar, and the time of this date is the time they started from.
pub civil_of-date_to_epoch :
    (fuel timestamp : ℕ)
    → timestamp < fuel * 31536000
    → timestamp < (2 ^ 31 - 1970) * 31536000
    → (c : Civil) × ((civil_of fuel timestamp ≡ some c)
        × IsDate c
        × (date_to_epoch c ≡ pos timestamp))
unfolding civil_of Years Months
civil_of-date_to_epoch fuel timestamp h k =
    let (m, (r, (a, b, c, w))) = take_years-Years fuel 0 timestamp h (omega arith) in
    let none_yet : days_before_month 0 (1970 + m) ≡ 0 = unfold days_before_month in refl in
    let no_year : days_of_years 1970 0 ≡ 0 = unfold days_of_years in refl in
    let (month, (rest, (d, e, f, before))) =
      take_months-Months 12 0 (1970 + m) r refl
        (omega (arith, none_yet, months_of_year (1970 + m), c)) in
    (
      time_of_day (1970 + m) month rest,
      (
        civil_of-found fuel timestamp (1970 + m) r month rest a d,
        time_of_day-IsDate m month rest w before f,
        date_to_epoch-time_of_day m month rest f ∙ ap pos (omega (arith, b, e, none_yet, no_year)),
      ),
    )
