-- ===== src/Clock/Registers.antt =====
-- The registers that kernel/src/gui/rtc.rs reads, and the dates that are written in them.
use kafka_os.Base.{
  ℕ, ◌+◌, ◌*◌, ◌/◌, ◌%◌, ◌≤◌, ◌<◌, ◌≡◌, ap, ◌==◌, if◌then◌else◌, arith, true, false,
}
use kafka_os.Clock.{DateTime, from_bcd, hour_from_bcd, read_datetime}

-- A time of this century, in a clock of 24 hours.
pub record IsTime (d : DateTime) : Type 0 where
  pub year_ge : 2000 ≤ d.year
  pub year_lt : d.year < 2100
  pub month_lt : d.month < 100
  pub day_lt : d.day < 100
  pub hour_lt : d.hour < 24
  pub minute_lt : d.minute < 60
  pub second_lt : d.second < 60

-- The two decimal digits of a number, in the two halves of a byte.
unfoldable pub to_bcd : ℕ → ℕ
to_bcd n = n / 10 * 16 + n % 10

-- What a clock holds that keeps decimal digits, or numbers.
unfoldable pub registers : DateTime → (ℕ → ℕ) → ℕ → ℕ → ℕ
registers d write b i =
    if i == 0
    then write d.second
    else if i == 2
    then write d.minute
    else if i == 4
    then write d.hour
    else if i == 7
    then write d.day
    else if i == 8
    then write d.month
    else if i == 9
    then write (d.year % 100)
    else if i == 11
    then b
    else 0

from_bcd-to_bcd : (n : ℕ) → n < 100 → from_bcd (to_bcd n) ≡ n
unfolding from_bcd to_bcd
from_bcd-to_bcd n h = grind arith

hour_from_bcd-to_bcd : (n : ℕ) → n < 24 → hour_from_bcd (to_bcd n) ≡ n
unfolding hour_from_bcd to_bcd
hour_from_bcd-to_bcd n h = grind arith

year_back : (y : ℕ) → 2000 ≤ y → y < 2100 → y % 100 + 2000 ≡ y
year_back y h k = omega arith

minutes_small : (d : DateTime) → IsTime d → d.minute < 100
minutes_small d h = let k = h.minute_lt in omega arith

seconds_small : (d : DateTime) → IsTime d → d.second < 100
seconds_small d h = let k = h.second_lt in omega arith

decimal_year : (d : DateTime) → IsTime d → from_bcd (to_bcd (d.year % 100)) + 2000 ≡ d.year
decimal_year d h =
    let e = from_bcd-to_bcd (d.year % 100) (omega arith) in
    rw e (year_back d.year h.year_ge h.year_lt)

is_zero : (n : ℕ) → n ≡ 0 → (n == 0) ≡ true
is_zero n e = ground arith

is_one : (n : ℕ) → n ≡ 1 → (n == 0) ≡ false
is_one n e = ground arith

-- Reading the clock gives the time that it holds, for a time of 2000 to 2099 with at most two digits in each
-- place and a clock of 24 hours: where the registers hold decimal digits, and where they hold numbers, as
-- the third bit of register B says.
pub read_datetime-registers :
    (d : DateTime) (b : ℕ)
    → IsTime d
    → (b / 4 % 2 ≡ 0 → read_datetime (registers d to_bcd b) ≡ d)
      × (b / 4 % 2 ≡ 1 → read_datetime (registers d (λ (n : ℕ). n) b) ≡ d)
unfolding read_datetime registers
read_datetime-registers d b h = (
  λ e. rw (is_zero (b / 4 % 2) e) (λ i. record {
    year = decimal_year d h i;
    month = from_bcd-to_bcd d.month h.month_lt i;
    day = from_bcd-to_bcd d.day h.day_lt i;
    hour = hour_from_bcd-to_bcd d.hour h.hour_lt i;
    minute = from_bcd-to_bcd d.minute (minutes_small d h) i;
    second = from_bcd-to_bcd d.second (seconds_small d h) i;
  }),
  λ e.
      rw (is_one (b / 4 % 2) e)
        (ap (λ (y : ℕ). record d { year = y }) (year_back d.year h.year_ge h.year_lt)),
)
