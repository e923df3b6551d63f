-- ===== src/Clock/Calendar/Shift.antt =====
-- `apply_timezone_offset` of kernel/src/gui/rtc.rs moves the count of minutes by the offset.
use kafka_os.Base.Int.{ℤ, pos, ◌+ℤ◌}
use kafka_os.Clock.{DateTime}

abbrev hour_total : DateTime → ℤ → ℤ → ℤ
hour_total d oh e = pos d.hour +ℤ oh +ℤ e
