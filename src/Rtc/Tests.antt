-- ===== src/Rtc/Tests.antt =====
-- A clock in 12-hour BCD, in the evening, shown an hour and a half earlier.
use aioperatingsystem.Common.{◌+◌, ◌*◌, ◌<◌, ◌≡◌, arith, test_bit}
use aioperatingsystem.Common.Integers.{negsuc}
use aioperatingsystem.Rtc.{RtcTime, rtc_get_time}
use aioperatingsystem.Rtc.Time.{IsTime, stored_time, moved, rtc_get_time-value}

abbrev evening : RtcTime
evening = record { hours = 20; minutes = 15; seconds = 59 }

evening-IsTime : IsTime evening
evening-IsTime = record {
  hours_in = omega arith;
  minutes_in = omega arith;
  seconds_in = omega arith;
}

rtc_get_time-value_example :
    let out = rtc_get_time (stored_time (test_bit 0 2) (test_bit 0 1) evening) 0 (negsuc 89) in
    (out.hours * 60 + out.minutes ≡ moved (20 * 60 + 15) (negsuc 89))
    × (out.seconds ≡ 59)
    × (out.hours < 24)
    × (out.minutes < 60)
rtc_get_time-value_example = rtc_get_time-value 0 evening (negsuc 89) evening-IsTime (omega arith)
