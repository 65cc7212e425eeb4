-- ===== src/Dates.antt =====
-- xinu-fall2022-paging/system/ascdate.c and include/date.h: the date and time of day of a number of
-- seconds since 1970, up to the call of `sprintf`. The loop over the years runs on fuel: a `uint32` has
-- fewer than 137 years. `dt_daylight` is a number, and the sizes of the months are those of `Date`.
pub mod Calendar
use virtual_memory_xinu_f.Base.{
  ℕ, zero, suc, ◌+◌, ◌-◌, ◌*◌, ◌/◌, ◌%◌, ◌&&◌, ◌||◌, Bool, true, false, not, leb, ltb, ◌==◌,
  if◌then◌else◌, List, [], ◌∷◌,
}

-- `isleap`.
abbrev pub isleap : ℕ → Bool
isleap year = year % 4 == 0

-- SECPERDY, SECPERHR, SECPERMN.
abbrev pub secperdy : ℕ
secperdy = 86400

abbrev pub secperhr : ℕ
secperhr = 3600

abbrev pub secpermn : ℕ
secpermn = 60

-- `Date.dt_msize`.
abbrev pub dt_msize : ℕ → ℕ
dt_msize m =
    if m == 1 then 28 else if (((m == 3) || (m == 5)) || (m == 8)) || (m == 10) then 30 else 31

-- The year, and the seconds since its beginning.
unfoldable pub find_year : ℕ → ℕ → ℕ → ℕ × ℕ
find_year zero year now = (year, now)
find_year (suc fuel) year now =
    let size = (if isleap year then 366 else 365) * secperdy in
    let further = find_year fuel (year + 1) (now - size) in
    if ltb now size then (year, now) else further

-- The month, with `n` months left to try, and the seconds since its beginning.
unfoldable pub find_month : ℕ → ℕ → ℕ → ℕ → ℕ × ℕ
find_month zero month year now = (month, now)
find_month (suc n) month year now =
    let extra = if (month == 1) && isleap year then secperdy else 0 in
    let size = dt_msize month * secperdy + extra in
    let further = find_month n (month + 1) year (now - size) in
    if ltb now size then (month, now) else further

pub record Date : Type 0 where
  pub year : ℕ
  pub month : ℕ
  pub day : ℕ
  pub hour : ℕ
  pub minute : ℕ
  pub second : ℕ
  pub dayofweek : ℕ

-- The weekday of January 1, Sunday being 0.
abbrev pub jan1 : ℕ → ℕ
jan1 year = (4 + (year - 1970) + (year - 1969) / 4) % 7

-- The date before daylight saving.
unfoldable pub standard_date : ℕ → Date
unfolding find_year find_month
standard_date now =
    let (year, in_year) = find_year 137 1970 now in
    let (month, in_month) = find_month 12 0 year in_year in
    let in_day = in_month % secperdy in
    record {
      year = year;
      month = month;
      day = in_month / secperdy + 1;
      hour = in_day / secperhr;
      minute = in_day % secperhr / secpermn;
      second = in_day % secperhr % secpermn;
      dayofweek = (4 + (year - 1970) + (year - 1969) / 4 + in_year / secperdy) % 7;
    }

-- The second Sunday of March.
abbrev pub marss : ℕ → ℕ
marss year =
    let mar1 = (jan1 year + dt_msize 0 + dt_msize 1 + (if isleap year then 1 else 0)) % 7 in
    if mar1 == 0 then 8 else 15 - mar1

-- The days of the first `n` months, without a leap day.
abbrev pub days_before : ℕ → ℕ
days_before zero = 0
days_before (suc n) = days_before n + dt_msize n

-- The first Sunday of November.
abbrev pub novfs : ℕ → ℕ
novfs year =
    let nov1 = (jan1 year + days_before 10 + (if isleap year then 1 else 0)) % 7 in
    if nov1 == 0 then 1 else 8 - nov1

-- The case DATE_DST_AUTO.
abbrev pub dst_auto : Date → Bool
dst_auto t =
    if ((t.month == 11) || (t.month == 0)) || (t.month == 1)
    then false
    else if ltb 2 t.month && ltb t.month 10
    then true
    else if t.month == 2
    then ltb (marss t.year) t.day || ((t.day == marss t.year) && leb 2 t.hour)
    else if t.month == 10
    then not (ltb (novfs t.year) t.day || ((t.day == novfs t.year) && leb 1 t.hour))
    else false

-- DATE_DST_ON is 1, DATE_DST_AUTO is 2.
unfoldable pub is_dst : ℕ → Date → Bool
is_dst daylight t = if daylight == 1 then true else if daylight == 2 then dst_auto t else false

-- One hour ahead.
unfoldable pub ahead_hour : Date → Date
ahead_hour t =
    if ltb 23 (t.hour + 1)
    then if ltb (dt_msize t.month) (t.day + 1)
      then record t { hour = 0; day = 1; month = t.month + 1 }
      else record t { hour = 0; day = t.day + 1 }
    else record t { hour = t.hour + 1 }

-- What `ascdate` prints, and whether the zone is that of daylight saving.
unfoldable pub ascdate : ℕ → ℕ → Date × Bool
unfolding standard_date is_dst ahead_hour
ascdate daylight now =
    let t = standard_date now in
    let dst = is_dst daylight t in (if dst then ahead_hour t else t, dst)
