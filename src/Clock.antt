-- ===== src/Clock.antt =====
-- The clock of kernel/src/gui/rtc.rs: the date and time in the registers of the CMOS, and the shift to the
-- local time. Bytes and years wrap around as in a build without overflow checks.
pub mod Calendar
pub mod Registers
mod Tests
use kafka_os.Base.{
  ℕ, ◌+◌, ◌-◌, ◌*◌, ◌/◌, ◌%◌, ◌^◌, Bool, ◌&&◌, ◌||◌, not, ltb, leb, ◌==◌, if◌then◌else◌,
}
use kafka_os.Base.Int.{ℤ, pos, negsuc, ltb_ℤ, leb_ℤ, add_i32, sub_i32}

pub record DateTime : Type 0 where
  pub year : ℕ
  pub month : ℕ
  pub day : ℕ
  pub hour : ℕ
  pub minute : ℕ
  pub second : ℕ

abbrev pub is_leap : ℕ → Bool
is_leap year = (year % 4 == 0 && not (year % 100 == 0)) || (year % 400 == 0)

unfoldable pub days_in_month : ℕ → ℕ → ℕ
days_in_month year month =
    if month == 4 || month == 6 || month == 9 || month == 11
    then 30
    else if month == 2
    then (if is_leap year then 29 else 28)
    else 31

-- `as u8`.
abbrev pub to_u8 : ℤ → ℕ
to_u8 (pos n) = n % 256
to_u8 (negsuc n) = 255 - n % 256

-- The total within the limit, and what is carried to the next place.
unfoldable pub carry : ℕ → ℤ → ℤ × ℤ
carry limit total =
    if leb_ℤ (pos limit) total
    then (sub_i32 total (pos limit), pos 1)
    else if ltb_ℤ total (pos 0)
    then (add_i32 total (pos limit), negsuc 0)
    else (total, pos 0)

abbrev next_month : DateTime → DateTime
next_month d =
    if ltb 12 ((d.month + 1) % 256)
    then record d { day = 1; month = 1; year = (d.year + 1) % 2 ^ 16 }
    else record d { day = 1; month = (d.month + 1) % 256 }

unfoldable pub next_day : DateTime → DateTime
next_day d =
    if ltb (days_in_month d.year d.month) ((d.day + 1) % 256)
    then next_month d
    else record d { day = (d.day + 1) % 256 }

abbrev last_day : DateTime → DateTime
last_day d = record d { day = days_in_month d.year d.month }

abbrev previous_month : DateTime → DateTime
previous_month d =
    if (d.month + 255) % 256 == 0
    then last_day (record d { month = 12; year = (d.year + 2 ^ 16 - 1) % 2 ^ 16 })
    else last_day (record d { month = (d.month + 255) % 256 })

unfoldable pub previous_day : DateTime → DateTime
previous_day d =
    if (d.day + 255) % 256 == 0 then previous_month d else record d { day = (d.day + 255) % 256 }

unfoldable pub turn_day : ℤ → DateTime → DateTime
turn_day extra_days d =
    if ltb_ℤ (pos 0) extra_days
    then next_day d
    else if ltb_ℤ extra_days (pos 0)
    then previous_day d
    else d

unfoldable pub apply_timezone_offset : DateTime → ℤ → ℤ → DateTime
apply_timezone_offset d offset_hours offset_minutes =
    let minutes = carry 60 (add_i32 (pos d.minute) offset_minutes) in
    let hours = carry 24 (add_i32 (add_i32 (pos d.hour) offset_hours) minutes.1) in
    turn_day hours.1 (record d { minute = to_u8 minutes.0; hour = to_u8 hours.0 })

-- A byte of two decimal digits.
unfoldable pub from_bcd : ℕ → ℕ
from_bcd b = (b % 16 + b / 16 * 10) % 256

-- The hour keeps its highest bit, which the digits do not reach.
unfoldable pub hour_from_bcd : ℕ → ℕ
hour_from_bcd b = b % 16 + b / 16 % 8 * 10 + b / 128 % 2 * 128

abbrev bcd_datetime : (ℕ → ℕ) → DateTime
bcd_datetime reg = record {
  year = from_bcd (reg 9) + 2000;
  month = from_bcd (reg 8);
  day = from_bcd (reg 7);
  hour = hour_from_bcd (reg 4);
  minute = from_bcd (reg 2);
  second = from_bcd (reg 0);
}

abbrev binary_datetime : (ℕ → ℕ) → DateTime
binary_datetime reg = record {
  year = reg 9 + 2000;
  month = reg 8;
  day = reg 7;
  hour = reg 4;
  minute = reg 2;
  second = reg 0;
}

-- What the registers hold once the clock does not update them. The third bit of register B says that they
-- are not decimal digits.
unfoldable pub read_datetime : (ℕ → ℕ) → DateTime
read_datetime reg = if reg 11 / 4 % 2 == 0 then bcd_datetime reg else binary_datetime reg
