-- ===== src/Clock/Calendar/Turn.antt =====
-- `next_day` and `previous_day` of kernel/src/gui/rtc.rs move the number of the day by one.
use kafka_os.Base.{zero, suc, ◌+◌, ◌-◌, ◌^◌, ◌≤◌, ◌<◌, ◌≡◌, ◌∙◌, refl, sym, ap, arith, dec_lt}
use kafka_os.Base.Int.{ℤ, pos, negsuc, pos_part, neg_part}
use kafka_os.Clock.{DateTime, days_in_month, next_day, previous_day, turn_day}
use kafka_os.Clock.Calendar.{
  IsDate, day_number, days_before_year, days_before_month, year_days, days_in_month-bounds,
  december, january, before_month_suc, before_year_suc, next_within, next_in_year, next_in_december,
  previous_within, previous_in_year, previous_in_january,
}

-- The date that `e` days lead to, at the same time of the day.
pub record IsTurn (d d' : DateTime) (e : ℤ) : Type 0 where
  pub number : day_number d' + neg_part e ≡ day_number d + pos_part e
  pub date : IsDate d'
  pub hour_eq : d'.hour ≡ d.hour
  pub minute_eq : d'.minute ≡ d.minute

next_within-IsTurn :
    (d : DateTime) → IsDate d → d.day < days_in_month d.year d.month → IsTurn d (next_day d) (pos 1)
unfolding day_number
next_within-IsTurn d h k = rw (next_within d k) (record {
  number = omega arith;
  date = record {
    month_ge = h.month_ge;
    month_le = h.month_le;
    day_ge = omega arith;
    day_le = omega arith;
    hour_lt = h.hour_lt;
    minute_lt = h.minute_lt;
  };
  hour_eq = refl;
  minute_eq = refl;
})

next_in_year-IsTurn :
    (d : DateTime)
    → IsDate d
    → d.day ≡ days_in_month d.year d.month
    → d.month < 12
    → IsTurn d (next_day d) (pos 1)
unfolding day_number
next_in_year-IsTurn d h e k =
    let more = before_month_suc d.year d.month h.month_ge in
    let (low, high) = days_in_month-bounds d.year (d.month + 1) in
    rw (next_in_year d e k) (record {
      number = omega arith;
      date = record {
        month_ge = omega arith;
        month_le = omega arith;
        day_ge = omega arith;
        day_le = omega arith;
        hour_lt = h.hour_lt;
        minute_lt = h.minute_lt;
      };
      hour_eq = refl;
      minute_eq = refl;
    })

next_in_december-IsTurn :
    (d : DateTime)
    → IsDate d
    → d.day ≡ days_in_month d.year d.month
    → d.month ≡ 12
    → d.year + 1 < 2 ^ 16
    → IsTurn d (next_day d) (pos 1)
unfolding day_number
next_in_december-IsTurn d h e k hy =
    let more = before_year_suc d.year in
    let first = january (d.year + 1) in
    let (low, high) = days_in_month-bounds (d.year + 1) 1 in
    let last : days_before_month d.year d.month + days_in_month d.year d.month ≡ year_days d.year =
      rw k (december d.year) in
    rw (next_in_december d e k hy) (record {
      number = omega arith;
      date = record {
        month_ge = omega arith;
        month_le = omega arith;
        day_ge = omega arith;
        day_le = omega arith;
        hour_lt = h.hour_lt;
        minute_lt = h.minute_lt;
      };
      hour_eq = refl;
      minute_eq = refl;
    })

next_day-IsTurn : (d : DateTime) → IsDate d → d.year + 1 < 2 ^ 16 → IsTurn d (next_day d) (pos 1)
next_day-IsTurn d h hy =
    let le = h.day_le in
    let month_le = h.month_le in
    elim (dec_lt d.day (days_in_month d.year d.month)) [
      | yes k ↦ next_within-IsTurn d h k
      | no k ↦ elim (dec_lt d.month 12) [
        | yes m ↦ next_in_year-IsTurn d h (omega arith) m
        | no m ↦ next_in_december-IsTurn d h (omega arith) (omega arith) hy
      ]
    ]

previous_within-IsTurn :
    (d : DateTime) → IsDate d → 1 < d.day → IsTurn d (previous_day d) (negsuc 0)
unfolding day_number
previous_within-IsTurn d h k =
    let (low, high) = days_in_month-bounds d.year d.month in
    let le = h.day_le in
    rw (previous_within d k (omega arith)) (record {
      number = omega arith;
      date = record {
        month_ge = h.month_ge;
        month_le = h.month_le;
        day_ge = omega arith;
        day_le = omega arith;
        hour_lt = h.hour_lt;
        minute_lt = h.minute_lt;
      };
      hour_eq = refl;
      minute_eq = refl;
    })

previous_in_year-IsTurn :
    (d : DateTime) → IsDate d → d.day ≡ 1 → 1 < d.month → IsTurn d (previous_day d) (negsuc 0)
unfolding day_number
previous_in_year-IsTurn d h e k =
    let (low, high) = days_in_month-bounds d.year (d.month - 1) in
    let le = h.month_le in
    let whole : d.month - 1 + 1 ≡ d.month = omega arith in
    let more : days_before_month d.year d.month
        ≡ days_before_month d.year (d.month - 1) + days_in_month d.year (d.month - 1) =
      ap (days_before_month d.year) (sym whole)
      ∙ before_month_suc d.year (d.month - 1) (omega arith) in
    rw (previous_in_year d e k h.month_le) (record {
      number = omega arith;
      date = record {
        month_ge = omega arith;
        month_le = omega arith;
        day_ge = omega arith;
        day_le = omega arith;
        hour_lt = h.hour_lt;
        minute_lt = h.minute_lt;
      };
      hour_eq = refl;
      minute_eq = refl;
    })

previous_in_january-IsTurn :
    (d : DateTime)
    → IsDate d
    → d.day ≡ 1
    → d.month ≡ 1
    → 0 < d.year
    → d.year < 2 ^ 16
    → IsTurn d (previous_day d) (negsuc 0)
unfolding day_number
previous_in_january-IsTurn d h e k hy ky =
    let (low, high) = days_in_month-bounds (d.year - 1) 12 in
    let whole : d.year - 1 + 1 ≡ d.year = omega arith in
    let more : days_before_year d.year ≡ days_before_year (d.year - 1) + year_days (d.year - 1) =
      ap days_before_year (sym whole) ∙ before_year_suc (d.year - 1) in
    let first : days_before_month d.year d.month ≡ 0 = rw k (january d.year) in
    let last = december (d.year - 1) in
    rw (previous_in_january d e k hy ky) (record {
      number = omega arith;
      date = record {
        month_ge = omega arith;
        month_le = omega arith;
        day_ge = omega arith;
        day_le = omega arith;
        hour_lt = h.hour_lt;
        minute_lt = h.minute_lt;
      };
      hour_eq = refl;
      minute_eq = refl;
    })

previous_day-IsTurn :
    (d : DateTime) → IsDate d → 0 < d.year → d.year < 2 ^ 16 → IsTurn d (previous_day d) (negsuc 0)
previous_day-IsTurn d h hy ky =
    let ge = h.day_ge in
    let month_ge = h.month_ge in
    elim (dec_lt 1 d.day) [
      | yes k ↦ previous_within-IsTurn d h k
      | no k ↦ elim (dec_lt 1 d.month) [
        | yes m ↦ previous_in_year-IsTurn d h (omega arith) m
        | no m ↦ previous_in_january-IsTurn d h (omega arith) (omega arith) hy ky
      ]
    ]

pub turn_day-IsTurn :
    (d : DateTime) (e : ℤ)
    → IsDate d
    → 0 < d.year
    → d.year + 1 < 2 ^ 16
    → pos_part e + neg_part e ≤ 1
    → IsTurn d (turn_day e d) e
unfolding turn_day
turn_day-IsTurn d (pos zero) h hy ky le = record {
  number = refl;
  date = h;
  hour_eq = refl;
  minute_eq = refl;
}
turn_day-IsTurn d (pos (suc zero)) h hy ky le = next_day-IsTurn d h ky
turn_day-IsTurn d (pos (suc (suc n))) h hy ky le = absurd (omega arith)
turn_day-IsTurn d (negsuc zero) h hy ky le = previous_day-IsTurn d h hy (omega arith)
turn_day-IsTurn d (negsuc (suc n)) h hy ky le = absurd (omega arith)
