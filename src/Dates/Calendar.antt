-- ===== src/Dates/Calendar.antt =====
-- The date of `ascdate` against the calendar.
use virtual_memory_xinu_f.Base.{
  ℕ, zero, suc, ◌+◌, ◌-◌, ◌*◌, ◌/◌, ◌%◌, ◌^◌, ◌≤◌, ◌<◌, ◌≡◌, refl, sym, ap, ◌∙◌, ◌&&◌, ◌||◌, ltb,
  ◌==◌, if◌then◌else◌, arith, inl, inr, Bool-cases,
}
use virtual_memory_xinu_f.Dates.{
  isleap, secperdy, dt_msize, find_year, find_month, Date, standard_date,
}

-- The days of the `n` years from 1970 on: 365 each, and one more for each leap year.
abbrev pub days_of_years : ℕ → ℕ
days_of_years n = 365 * n + (n + 1) / 4

abbrev pub year_days : ℕ → ℕ
year_days year = if isleap year then 366 else 365

-- The days of a month of a year, January being 0, and of the months before it.
abbrev pub month_days : ℕ → ℕ → ℕ
month_days year m =
    if m == 1
    then if isleap year then 29 else 28
    else if ((m == 3) || (m == 5)) || ((m == 8) || (m == 10))
    then 30
    else 31

abbrev pub days_of_months : ℕ → ℕ → ℕ
days_of_months year zero = 0
days_of_months year (suc m) = days_of_months year m + month_days year m

days_of_years-suc : (n : ℕ) → days_of_years (suc n) ≡ days_of_years n + year_days (1970 + n)
days_of_years-suc n = ground arith

-- The years from 1970 + k on.
record InYear (year k now : ℕ) (r : ℕ × ℕ) : Type 0 where
  years : ℕ
  year_is : r.0 ≡ 1970 + years
  in_year : r.1 < year_days r.0 * 86400
  elapsed : days_of_years years * 86400 + r.1 ≡ days_of_years k * 86400 + now

find_year_lem :
    (fuel year k now : ℕ)
    → year ≡ 1970 + k
    → now < fuel * 31536000
    → InYear year k now (find_year fuel year now)
unfolding find_year
find_year_lem zero year k now e enough = absurd (omega (arith, enough))
find_year_lem (suc fuel) year k now e enough =
    let size = year_days year * 86400 in
    elim (Bool-cases (ltb now size)) [
      | inl here ↦
          rw here
            (record { years = k; year_is = e; in_year = ground (arith, here); elapsed = refl })
      | inr later ↦
          let r =
            find_year_lem fuel (year + 1) (suc k) (now - size) (omega (arith, e))
              (ground (arith, later)) in
          let same : year_days (1970 + k) ≡ year_days year = ap year_days (sym e) in
          let more = days_of_years-suc k in
          let enough_left : size ≤ now = ground (arith, later) in
          rw later (record {
            years = r.years;
            year_is = r.year_is;
            in_year = r.in_year;
            elapsed = r.elapsed ∙ omega (arith, more, same, enough_left);
          })
    ]

record InMonth (year month now : ℕ) (r : ℕ × ℕ) : Type 0 where
  month_is : r.0 < 12
  in_month : r.1 < month_days year r.0 * 86400
  elapsed : days_of_months year r.0 * 86400 + r.1 ≡ days_of_months year month * 86400 + now

-- The size of a month, as the code computes it.
abbrev month_size : ℕ → ℕ → ℕ
month_size year month =
    dt_msize month * secperdy + (if (month == 1) && isleap year then secperdy else 0)

month_size_lem : (year month : ℕ) → month_size year month ≡ month_days year month * 86400
month_size_lem year month = elim (Bool-cases (month == 1)) [
  | inl february ↦
      rw february
        (elim (Bool-cases (isleap year)) [ inl leap ↦ rw leap refl | inr common ↦ rw common refl ])
  | inr other ↦ rw other (ground arith)
]

days_of_months-suc :
    (year m : ℕ) → days_of_months year (m + 1) ≡ days_of_months year m + month_days year m
days_of_months-suc year m = let e : m + 1 ≡ suc m = omega arith in ap (days_of_months year) e

-- The `n` months that are left have more seconds than `now`.
find_month_lem :
    (n month year now : ℕ)
    → month + n ≡ 12
    → days_of_months year month * 86400 + now < year_days year * 86400
    → days_of_months year 12 ≡ year_days year
    → InMonth year month now (find_month n month year now)
unfolding find_month
find_month_lem zero month year now e enough all =
    let last : month ≡ 12 = omega (arith, e) in
    let at_end : days_of_months year month ≡ days_of_months year 12 =
      ap (days_of_months year) last in
    absurd (omega (arith, enough, at_end, all))
find_month_lem (suc n) month year now e enough all =
    let size = month_size year month in
    let same = month_size_lem year month in
    let next = days_of_months-suc year month in
    elim (Bool-cases (ltb now size)) [
      | inl here ↦ rw here (record {
        month_is = omega (arith, e);
        in_month = ground (arith, here, same);
        elapsed = refl;
      })
      | inr later ↦
          let enough_left : size ≤ now = ground (arith, later) in
          let r =
            find_month_lem n (month + 1) year (now - size) (omega (arith, e))
              (omega (arith, same, next, enough, enough_left)) all in
          rw later (record {
            month_is = r.month_is;
            in_month = r.in_month;
            elapsed = r.elapsed ∙ omega (arith, same, next, enough_left);
          })
    ]

year_months : (year : ℕ) → days_of_months year 12 ≡ year_days year
year_months year = ground arith

-- The date `t` is the one of `now`: each part is in its range, the parts make up the seconds, and the
-- weekday counts the days since January 1, 1970, a Thursday.
pub record IsDate (now : ℕ) (t : Date) : Type 0 where
  pub years : ℕ
  pub year_is : t.year ≡ 1970 + years
  pub month_range : t.month < 12
  pub day_from : 1 ≤ t.day
  pub day_upto : t.day ≤ month_days t.year t.month
  pub hour_range : t.hour < 24
  pub minute_range : t.minute < 60
  pub second_range : t.second < 60
  pub seconds :
      (days_of_years years + days_of_months t.year t.month + (t.day - 1)) * 86400
        + (t.hour * 3600 + t.minute * 60 + t.second)
      ≡ now
  pub weekday : t.dayofweek ≡ (4 + now / 86400) % 7

-- The date that `ascdate` computes for a time that fits 32 bits, before daylight saving: month, day, hour,
-- minute and second are in their ranges, the day is one of its month, with 29 days for February in every
-- fourth year, the seconds from 1970 to the date are the time again, and the weekday is right.
pub standard_date-IsDate : (now : ℕ) → now < 2 ^ 32 → IsDate now (standard_date now)
unfolding standard_date
standard_date-IsDate now fits =
    let y = find_year_lem 137 1970 0 now refl (omega (arith, fits)) in
    let year = (find_year 137 1970 now).0 in
    let in_year = (find_year 137 1970 now).1 in
    let m = find_month_lem 12 0 year in_year refl (omega (arith, y.in_year)) (year_months year) in
    let in_month = (find_month 12 0 year in_year).1 in
    record {
      years = y.years;
      year_is = y.year_is;
      month_range = m.month_is;
      day_from = omega arith;
      day_upto = omega (arith, m.in_month);
      hour_range = omega arith;
      minute_range = omega arith;
      second_range = omega arith;
      seconds = omega (arith, y.elapsed, m.elapsed);
      weekday = omega (arith, y.elapsed, y.year_is);
    }
