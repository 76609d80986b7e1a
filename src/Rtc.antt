-- ===== src/Rtc.antt =====
-- kernel/rtc.c: the clock registers, the configured offset and the time that is shown.
--
-- A register read is an argument, since the ports are hardware. A mask of low bits is written as the
-- remainder it takes.
pub mod Time
mod Tests
use aioperatingsystem.Common.{
  ℕ, ◌+◌, ◌-◌, ◌*◌, ◌/◌, ◌%◌, Bool, true, false, ◌&&◌, not, List, [], ◌∷◌, Option, none, some, ◌==◌,
  ◌!=◌, if◌then◌else◌, u8, test_bit,
}
use Prim.Native.Nat.{bit_or}
use aioperatingsystem.Common.Integers.{ℤ, pos, negsuc, ◌+ℤ◌, lt_int}

pub bcd_to_bin : ℕ → ℕ
bcd_to_bin val = u8 (val % 16 + val / 16 * 10)

-- UTC-12 to UTC+14.
unfoldable pub rtc_set_timezone_offset_minutes : ℤ → ℤ
rtc_set_timezone_offset_minutes minutes =
    let low = if lt_int minutes (negsuc 719) then negsuc 719 else minutes in
    if lt_int (pos 840) low then pos 840 else low

pub record Registers : Type 0 where
  pub seconds : ℕ
  pub minutes : ℕ
  pub hours : ℕ

pub record RtcTime : Type 0 where
  pub hours : ℕ
  pub minutes : ℕ
  pub seconds : ℕ

abbrev pub same_registers : Registers → Registers → Bool
same_registers a b = (a.seconds == b.seconds) && (a.minutes == b.minutes) && (a.hours == b.hours)

-- The first pair of readings that agree, of those the clock gives while no update is in progress;
-- the code waits for it.
unfoldable pub stable : List (Registers × Registers) → Option Registers
stable [] = none
stable ((a, b) ∷ rest) = let later = stable rest in if same_registers a b then some a else later

-- Binary numbers, whichever mode the clock counts in. Bit 7 of the hours is kept.
pub to_binary : Bool → Registers → Registers
to_binary true r = r
to_binary false r = record {
  seconds = bcd_to_bin r.seconds;
  minutes = bcd_to_bin r.minutes;
  hours = bit_or (bcd_to_bin (r.hours % 128)) (r.hours / 128 * 128);
}

-- The hour from 0 to 23 of a clock that may count to 12 twice, with bit 7 for PM.
pub to_24h : Bool → ℕ → ℕ
to_24h true hours = hours
to_24h false hours =
    let h = hours % 128 in
    if test_bit hours 7 then (if h != 12 then u8 (h + 12) else h) else (if h == 12 then 0 else h)

-- C's remainder takes the sign of the dividend; a negative one is moved into the day.
pub wrap_day : ℤ → ℕ
wrap_day (pos n) = n % 1440
wrap_day (negsuc n) = let r = (n + 1) % 1440 in if r == 0 then 0 else 1440 - r

-- The time from a stable reading and status register B.
pub rtc_get_time : Registers → (status_b : ℕ) → (timezone_offset_minutes : ℤ) → RtcTime
rtc_get_time raw status_b timezone_offset_minutes =
    let r = to_binary (test_bit status_b 2) raw in
    let hours = to_24h (test_bit status_b 1) r.hours in
    let total_minutes = wrap_day (pos (hours * 60 + r.minutes) +ℤ timezone_offset_minutes) in
    record { hours = total_minutes / 60; minutes = total_minutes % 60; seconds = r.seconds }
