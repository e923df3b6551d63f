-- ===== src/Clock/Calendar.antt =====
-- The shift to the local time of kernel/src/gui/rtc.rs against the count of minutes since the year 0.
pub mod Turn
pub mod Shift
use kafka_os.Base.{
  ℕ, zero, suc, ◌+◌, ◌-◌, ◌*◌, ◌%◌, ◌^◌, ◌≤◌, ◌<◌, ◌≡◌, ◌∙◌, ◌⊎◌, inl, inr, refl, sym, ap, true,
  false, ltb, ◌==◌, if◌then◌else◌, ◌&&◌, ◌||◌, not, arith, dec_le,
}
use kafka_os.Base.Int.{
  ℤ, pos, pos_part, neg_part, ◌-ℤ◌, sub_ℕ, ltb_ℤ, leb_ℤ, sub_i32, sub_i32_lem, int_laws, +ℤ_parts,
}
use kafka_os.Clock.{
  DateTime, is_leap, days_in_month, to_u8, carry, next_month, next_day, last_day, previous_month,
  previous_day, turn_day, apply_timezone_offset,
}

abbrev year_days : ℕ → ℕ
year_days y = if is_leap y then 366 else 365

-- The days before a year, and those of a year before a month.
unfoldable pub days_before_year : ℕ → ℕ
days_before_year zero = 0
days_before_year (suc y) = days_before_year y + year_days y

unfoldable pub days_before_month : ℕ → ℕ → ℕ
days_before_month y zero = 0
days_before_month y (suc zero) = 0
days_before_month y (suc (suc m)) = days_before_month y (suc m) + days_in_month y (suc m)

unfoldable pub day_number : DateTime → ℕ
day_number d = days_before_year d.year + days_before_month d.year d.month + d.day

unfoldable pub minute_number : DateTime → ℕ
minute_number d = (day_number d * 24 + d.hour) * 60 + d.minute

pub record IsDate (d : DateTime) : Type 0 where
  pub month_ge : 1 ≤ d.month
  pub month_le : d.month ≤ 12
  pub day_ge : 1 ≤ d.day
  pub day_le : d.day ≤ days_in_month d.year d.month
  pub hour_lt : d.hour < 24
  pub minute_lt : d.minute < 60

days_in_month-bounds : (y m : ℕ) → (28 ≤ days_in_month y m) × (days_in_month y m ≤ 31)
unfolding days_in_month
days_in_month-bounds y m = ground arith

december : (y : ℕ) → days_before_month y 12 + days_in_month y 12 ≡ year_days y
unfolding days_before_month days_in_month
december y = ground arith

january : (y : ℕ) → days_before_month y 1 ≡ 0
unfolding days_before_month
january y = refl

-- What a total comes to in a place: a digit below the limit, and at most one carried.
pub record Carries (limit : ℕ) (total : ℤ) (t : ℕ) (e : ℤ) : Type 0 where
  pub carry_eq : carry limit total ≡ (pos t, e)
  pub t_lt : t < limit
  pub small : pos_part e + neg_part e ≤ 1
  pub sum : pos_part total + limit * neg_part e ≡ neg_part total + t + limit * pos_part e

add_one : (n : ℕ) → n + 1 ≡ suc n
add_one n = omega arith

before_month_suc :
    (y m : ℕ) → 1 ≤ m → days_before_month y (m + 1) ≡ days_before_month y m + days_in_month y m
unfolding days_before_month
before_month_suc y zero h = absurd (omega arith)
before_month_suc y (suc m) h = rw (add_one (suc m)) refl

before_year_suc : (y : ℕ) → days_before_year (y + 1) ≡ days_before_year y + year_days y
unfolding days_before_year
before_year_suc y = rw (add_one y) refl

next_within :
    (d : DateTime)
    → d.day < days_in_month d.year d.month
    → next_day d ≡ record d { day = d.day + 1 }
unfolding next_day
next_within d h =
    let (low, high) = days_in_month-bounds d.year d.month in
    let number : (d.day + 1) % 256 ≡ d.day + 1 = omega arith in
    let test : ltb (days_in_month d.year d.month) (d.day + 1) ≡ false = ground arith in
    rw (number, test) refl

next_in_year :
    (d : DateTime)
    → d.day ≡ days_in_month d.year d.month
    → d.month < 12
    → next_day d ≡ record d { day = 1; month = d.month + 1 }
unfolding next_day
next_in_year d e h =
    let (low, high) = days_in_month-bounds d.year d.month in
    let number : (d.day + 1) % 256 ≡ d.day + 1 = omega arith in
    let month_number : (d.month + 1) % 256 ≡ d.month + 1 = omega arith in
    let test : ltb (days_in_month d.year d.month) (d.day + 1) ≡ true = ground arith in
    let month_test : ltb 12 (d.month + 1) ≡ false = ground arith in
    rw (number, test, month_number, month_test) refl

next_in_december :
    (d : DateTime)
    → d.day ≡ days_in_month d.year d.month
    → d.month ≡ 12
    → d.year + 1 < 2 ^ 16
    → next_day d ≡ record d { day = 1; month = 1; year = d.year + 1 }
unfolding next_day
next_in_december d e h hy =
    let (low, high) = days_in_month-bounds d.year d.month in
    let number : (d.day + 1) % 256 ≡ d.day + 1 = omega arith in
    let year_number : (d.year + 1) % 2 ^ 16 ≡ d.year + 1 = omega arith in
    let test : ltb (days_in_month d.year d.month) (d.day + 1) ≡ true = ground arith in
    let month_test : ltb 12 ((d.month + 1) % 256) ≡ true = ground arith in
    rw (number, test, month_test, year_number) refl

previous_within :
    (d : DateTime) → 1 < d.day → d.day < 256 → previous_day d ≡ record d { day = d.day - 1 }
unfolding previous_day
previous_within d h k =
    let number : (d.day + 255) % 256 ≡ d.day - 1 = omega arith in
    let test : (d.day - 1 == 0) ≡ false = ground arith in rw (number, test) refl

previous_in_year :
    (d : DateTime)
    → d.day ≡ 1
    → 1 < d.month
    → d.month ≤ 12
    → previous_day d ≡ record d { month = d.month - 1; day = days_in_month d.year (d.month - 1) }
unfolding previous_day
previous_in_year d e h k =
    let test : ((d.day + 255) % 256 == 0) ≡ true = ground arith in
    let number : (d.month + 255) % 256 ≡ d.month - 1 = omega arith in
    let month_test : (d.month - 1 == 0) ≡ false = ground arith in rw (test, number, month_test) refl

previous_in_january :
    (d : DateTime)
    → d.day ≡ 1
    → d.month ≡ 1
    → 0 < d.year
    → d.year < 2 ^ 16
    → previous_day d
      ≡ record d { month = 12; year = d.year - 1; day = days_in_month (d.year - 1) 12 }
unfolding previous_day
previous_in_january d e h hy ky =
    let test : ((d.day + 255) % 256 == 0) ≡ true = ground arith in
    let month_test : ((d.month + 255) % 256 == 0) ≡ true = ground arith in
    let number : (d.year + 2 ^ 16 - 1) % 2 ^ 16 ≡ d.year - 1 = omega arith in
    rw (test, month_test, number) refl
