-- ===== src/Rtc/Time.antt =====
-- The time of kernel/rtc.c against the time that the clock holds, in each of its four formats.
use aioperatingsystem.Common.{
  ℕ, ◌+◌, ◌-◌, ◌*◌, ◌/◌, ◌%◌, ◌<◌, ◌≤◌, ◌≡◌, refl, ◌∙◌, ap₂, Bool, true, false, ◌&&◌, arith, ltb,
  ◌==◌, if◌then◌else◌, test_bit, all_below, all_below-get, ==_iff,
}
use aioperatingsystem.Common.Integers.{ℤ, pos, negsuc, ◌+ℤ◌}
use aioperatingsystem.Rtc.{
  Registers, RtcTime, bcd_to_bin, to_binary, to_24h, wrap_day, rtc_get_time,
}

-- How a clock stores a number below 100.
abbrev pub stored : Bool → ℕ → ℕ
stored true n = n
stored false n = n / 10 * 16 + n % 10

-- How it stores an hour, in binary or not and up to 24 or not.
abbrev pub stored_hour : Bool → Bool → ℕ → ℕ
stored_hour binary true h = stored binary h
stored_hour binary false h =
    stored binary (if h % 12 == 0 then 12 else h % 12) + (if ltb h 12 then 0 else 128)

abbrev pub stored_time : Bool → Bool → RtcTime → Registers
stored_time binary full t = record {
  seconds = stored binary t.seconds;
  minutes = stored binary t.minutes;
  hours = stored_hour binary full t.hours;
}

pub record IsTime (t : RtcTime) : Type 0 where
  pub hours_in : t.hours < 24
  pub minutes_in : t.minutes < 60
  pub seconds_in : t.seconds < 60

abbrev number_ok : ℕ → Bool
number_ok n = bcd_to_bin (stored false n) == n

number_table : all_below number_ok 60 ≡ true
unfolding bcd_to_bin
number_table = refl

bcd_to_bin-stored : (n : ℕ) → n < 60 → bcd_to_bin (stored false n) ≡ n
bcd_to_bin-stored n h =
    (==_iff (bcd_to_bin (stored false n)) n).0 (all_below-get number_ok 60 number_table n h)

abbrev hour_of : Bool → Bool → ℕ → ℕ
hour_of binary full h =
    to_24h full
      (to_binary binary
        (record { seconds = 0; minutes = 0; hours = stored_hour binary full h })).hours

abbrev hour_ok : ℕ → Bool
hour_ok h =
    (hour_of true true h == h)
    && (hour_of true false h == h)
    && (hour_of false true h == h)
    && (hour_of false false h == h)

hour_table : all_below hour_ok 24 ≡ true
unfolding bcd_to_bin to_binary to_24h
hour_table = refl

hour_split :
    (a b c d h : ℕ)
    → ((a == h) && (b == h) && (c == h) && (d == h)) ≡ true
    → (a ≡ h) × (b ≡ h) × (c ≡ h) × (d ≡ h)
hour_split a b c d h e = ground arith

hour_lem : (binary full : Bool) (h : ℕ) → h < 24 → hour_of binary full h ≡ h
hour_lem binary full h less =
    let all =
      hour_split (hour_of true true h) (hour_of true false h) (hour_of false true h)
        (hour_of false false h) h (all_below-get hour_ok 24 hour_table h less) in
    pick binary full all.0 all.1 all.2 all.3
  where
    pick :
        (b f : Bool)
        → hour_of true true h ≡ h
        → hour_of true false h ≡ h
        → hour_of false true h ≡ h
        → hour_of false false h ≡ h
        → hour_of b f h ≡ h
    pick true true p q r s = p
    pick true false p q r s = q
    pick false true p q r s = r
    pick false false p q r s = s

hours_only :
    (binary full : Bool) (t : RtcTime)
    → to_24h full (to_binary binary (stored_time binary full t)).hours ≡ hour_of binary full t.hours
unfolding to_binary
hours_only true full t = refl
hours_only false full t = refl

day_lem :
    (shown m : ℕ)
    → shown ≡ m
    → m < 1440
    → (shown / 60 * 60 + shown % 60 ≡ m) × (shown / 60 < 24) × (shown % 60 < 60)
day_lem shown m e h = (omega arith, omega arith, omega arith)

-- The minute of the day after the offset, in numbers that are not negative.
abbrev pub moved : ℕ → ℤ → ℕ
moved t (pos n) = (t + n) % 1440
moved t (negsuc n) = (t + 1440 - (n + 1)) % 1440

abbrev pub InDay : ℤ → Type 0
InDay (pos n) = n ≤ 1440
InDay (negsuc n) = n < 1440

wrap_day_lem : (t : ℕ) (z : ℤ) → t < 1440 → InDay z → wrap_day (pos t +ℤ z) ≡ moved t z
unfolding wrap_day
wrap_day_lem t (pos n) h d = refl
wrap_day_lem t (negsuc n) h d = ground arith

moved_lt : (t : ℕ) (z : ℤ) → moved t z < 1440
moved_lt t (pos n) = omega arith
moved_lt t (negsuc n) = omega arith

number_lem :
    (binary full : Bool) (t : RtcTime)
    → IsTime t
    → let r = to_binary binary (stored_time binary full t) in
      (r.minutes ≡ t.minutes) × (r.seconds ≡ t.seconds)
unfolding to_binary
number_lem true full t v = (refl, refl)
number_lem false full t v =
    (bcd_to_bin-stored t.minutes v.minutes_in, bcd_to_bin-stored t.seconds v.seconds_in)

-- Whatever format status register B announces (BCD or binary, 12 or 24 hours), a clock that holds a
-- time of day is shown as that time moved by the offset, modulo a day; the offset is at most a day
-- either way, and the hours and minutes that are shown are in range.
pub rtc_get_time-value :
    (status_b : ℕ) (t : RtcTime) (offset : ℤ)
    → IsTime t
    → InDay offset
    → let out =
        rtc_get_time (stored_time (test_bit status_b 2) (test_bit status_b 1) t) status_b offset in
      (out.hours * 60 + out.minutes ≡ moved (t.hours * 60 + t.minutes) offset)
      × (out.seconds ≡ t.seconds)
      × (out.hours < 24)
      × (out.minutes < 60)
unfolding rtc_get_time
rtc_get_time-value status_b t offset v d =
    let binary = test_bit status_b 2 in
    let full = test_bit status_b 1 in
    let numbers = number_lem binary full t v in
    let r = to_binary binary (stored_time binary full t) in
    let hour = hours_only binary full t ∙ hour_lem binary full t.hours v.hours_in in
    let total : wrap_day (pos (to_24h full r.hours * 60 + r.minutes) +ℤ offset)
        ≡ moved (t.hours * 60 + t.minutes) offset =
      ap₂ (λ (a b : ℕ). wrap_day (pos (a * 60 + b) +ℤ offset)) hour numbers.0
      ∙ wrap_day_lem (t.hours * 60 + t.minutes) offset (omega (arith, v.hours_in, v.minutes_in))
          d in
    let shown = day_lem _ _ total (moved_lt (t.hours * 60 + t.minutes) offset) in
    (shown.0, numbers.1, shown.1, shown.2)
