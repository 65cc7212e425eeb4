-- ===== src/Tests/Calendar.antt =====
-- The theorem on dates at the morning of November 27, 2022, and one date.
use virtual_memory_xinu_f.Base.{◌≡◌, refl, arith, false}
use virtual_memory_xinu_f.Dates.{find_year, find_month, standard_date, is_dst}
use virtual_memory_xinu_f.Dates.Calendar.{IsDate, standard_date-IsDate}

standard_date-IsDate_example : IsDate 1669534200 (standard_date 1669534200)
standard_date-IsDate_example = standard_date-IsDate 1669534200 (omega arith)

sunday : (standard_date 1669534200).dayofweek ≡ 0
unfolding standard_date find_year find_month
sunday = refl

november : (standard_date 1669534200).month ≡ 10
unfolding standard_date find_year find_month
november = refl

winter_time : is_dst 2 (standard_date 1669534200) ≡ false
unfolding is_dst standard_date find_year find_month
winter_time = refl
