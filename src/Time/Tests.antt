-- ===== src/Time/Tests.antt =====
-- Runs of kernel/time.c and the witnesses of its theorems.
use exscape_os.Prelude.{pos, sub_ℕ, ◌+◌, ◌*◌, ◌≡◌, refl, List, [], ◌∷◌, some, arith}
use exscape_os.Time.{
  Time, days_in_month, days_in_year, carry, roll_days, validate_structure, kern_mktime, years_up,
  years_down, fits_long, rtc_reformat, get_time, settle, same_time,
}
use exscape_os.Time.Calendar.{IsDate, month_length, day_number, epoch}
use exscape_os.Time.Stamp.{seconds, kern_mktime-day_number, kern_mktime-hour_24}
use exscape_os.Time.Clock.{IsTime, bcd, registers, rtc_reformat-registers}

-- 29 February 2020, 12:34:56
abbrev leap_day : Time
leap_day = record { year = 120; month = 1; day = 29; hour = 12; minute = 34; second = 56 }

leap_day-IsDate : IsDate leap_day
unfolding month_length
leap_day-IsDate = record {
  month_in = omega arith;
  day_from = omega arith;
  day_to = omega arith;
  hour_in = omega arith;
  minute_in = omega arith;
  second_in = omega arith;
}

kern_mktime-day_number_example :
    kern_mktime leap_day
    ≡ some (
        sub_ℕ
          (day_number leap_day.year leap_day.month leap_day.day * 86400 + seconds leap_day)
          (epoch * 86400))
kern_mktime-day_number_example =
    kern_mktime-day_number leap_day leap_day-IsDate (omega arith) (omega arith)

kern_mktime_run : kern_mktime leap_day ≡ some (pos 1582979696)
unfolding kern_mktime validate_structure carry roll_days days_in_month days_in_year years_up
    years_down fits_long
kern_mktime_run = refl

-- a fraction of an hour after midnight
abbrev midnight : Time
midnight = record { year = 113; month = 3; day = 7; hour = 0; minute = 30; second = 0 }

midnight-IsDate : IsDate midnight
unfolding month_length
midnight-IsDate = record {
  month_in = omega arith;
  day_from = omega arith;
  day_to = omega arith;
  hour_in = omega arith;
  minute_in = omega arith;
  second_in = omega arith;
}

kern_mktime-hour_24_example :
    kern_mktime (record midnight { hour = 24 })
    ≡ some (
        sub_ℕ
          (day_number midnight.year midnight.month (midnight.day + 1) * 86400
            + seconds midnight
            + 86400)
          (epoch * 86400))
unfolding month_length
kern_mktime-hour_24_example =
    kern_mktime-hour_24 midnight midnight-IsDate (omega arith) (omega arith) refl (omega arith)

-- 24 December 2012, 12:05:59
abbrev noon : Time
noon = record { year = 2012; month = 12; day = 24; hour = 12; minute = 5; second = 59 }

noon-IsTime : IsTime noon
noon-IsTime = record {
  year_from = omega arith;
  year_to = omega arith;
  month_in = omega arith;
  day_in = omega arith;
  hour_in = omega arith;
  minute_in = omega arith;
  second_in = omega arith;
}

rtc_reformat-registers_example : rtc_reformat 2 (registers (bcd noon.hour) noon) ≡ noon
rtc_reformat-registers_example = rtc_reformat-registers 2 noon noon-IsTime refl refl

abbrev readings : List Time
readings = registers 18 noon ∷ registers 19 noon ∷ registers 19 noon ∷ []

readings_run : get_time 2 readings ≡ some (rtc_reformat 2 (registers 19 noon))
unfolding get_time settle same_time
readings_run = refl
