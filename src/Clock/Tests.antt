-- ===== src/Clock/Tests.antt =====
-- A leap day and the last evening of a year, kernel/src/gui/rtc.rs.
use kafka_os.Base.{arith}
use kafka_os.Base.Int.{pos}
use kafka_os.Clock.{DateTime, apply_timezone_offset}
use kafka_os.Clock.Registers.{IsTime}

abbrev leap_day : DateTime
leap_day = record { year = 2024; month = 2; day = 29; hour = 23; minute = 45; second = 10 }

leap_day-IsTime : IsTime leap_day
leap_day-IsTime = record {
  year_ge = omega arith;
  year_lt = omega arith;
  month_lt = omega arith;
  day_lt = omega arith;
  hour_lt = omega arith;
  minute_lt = omega arith;
  second_lt = omega arith;
}

abbrev last_evening : DateTime
last_evening = record { year = 2024; month = 12; day = 31; hour = 20; minute = 45; second = 0 }

abbrev new_year : DateTime
new_year = apply_timezone_offset last_evening (pos 5) (pos 30)
