-- ===== src/Mouse.antt =====
-- kernel/mouse.c: the packet decoder of IRQ12 and the pointer.
--
-- The status and data bytes that the handler reads from the ports are its arguments; the set-up
-- sequence of `mouse_install` is the device ID it ends with. `uint8_t` tests of single bits are
-- `test_bit`.
pub mod Screen
mod Tests
use aioperatingsystem.Common.{
  ℕ, ◌+◌, ◌-◌, ◌%◌, Bool, true, false, ◌&&◌, not, List, ltb, ◌==◌, if◌then◌else◌, get_or, set,
  test_bit,
}
use aioperatingsystem.Common.Integers.{ℤ, pos, negsuc, sub_nat, ◌+ℤ◌, lt_int}

-- The static variables of the file.
pub record Mouse : Type 0 where
  pub mouse_x : ℤ
  pub mouse_y : ℤ
  pub mouse_buttons : ℕ
  pub screen_w : ℕ
  pub screen_h : ℕ
  pub mouse_has_wheel : Bool
  pub packet : List ℕ
  pub packet_index : ℕ
  pub packet_size : ℕ
  pub mouse_dirty : Bool
  pub mouse_wheel_delta : ℤ

-- A movement byte with its sign bit.
abbrev pub movement : ℕ → Bool → ℤ
movement byte negative = if negative then sub_nat byte 256 else pos byte

-- The same movement the other way.
abbrev pub movement_back : ℕ → Bool → ℤ
movement_back byte negative = if negative then sub_nat 256 byte else sub_nat 0 byte

-- `(int8_t)byte`.
abbrev pub signed_byte : ℕ → ℤ
signed_byte byte = if ltb byte 128 then pos byte else sub_nat byte 256

-- A coordinate brought back to the `size` pixels of the screen.
pub clamp : ℤ → ℕ → ℤ
clamp v size =
    let low = if lt_int v (pos 0) then pos 0 else v in
    if lt_int low (pos size) then low else sub_nat size 1

-- What a complete packet does.
pub apply_packet : Mouse → Mouse
apply_packet m =
    let flags = get_or m.packet 0 0 in
    record m {
      packet_index = 0;
      mouse_x = clamp (m.mouse_x +ℤ movement (get_or m.packet 1 0) (test_bit flags 4)) m.screen_w;
      mouse_y =
          clamp (m.mouse_y +ℤ movement_back (get_or m.packet 2 0) (test_bit flags 5)) m.screen_h;
      mouse_wheel_delta =
          if m.mouse_has_wheel
          then m.mouse_wheel_delta +ℤ signed_byte (get_or m.packet 3 0)
          else m.mouse_wheel_delta;
      mouse_buttons = flags % 8;
      mouse_dirty = true;
    }

-- The interrupt handler, with the status byte and the data byte it reads.
pub mouse_callback : Mouse → (status byte : ℕ) → Mouse
mouse_callback m status byte =
    if not (test_bit status 5)
    then m
    else (if (m.packet_index == 0) && not (test_bit byte 3)
        then m
        else (let m' = record m {
          packet = set m.packet m.packet_index byte;
          packet_index = m.packet_index + 1;
        } in
            if m'.packet_index == m'.packet_size then apply_packet m' else m'))

-- What the answer to "get device ID" decides.
unfoldable pub detect_wheel : Mouse → (device_id : ℕ) → Mouse
detect_wheel m device_id = record m {
  mouse_has_wheel = device_id == 3;
  packet_size = if device_id == 3 then 4 else 3;
}

unfoldable pub mouse_get_wheel_delta : Mouse → ℤ × Mouse
mouse_get_wheel_delta m = (m.mouse_wheel_delta, record m { mouse_wheel_delta = pos 0 })

-- A coordinate that is past a smaller screen.
abbrev pub pull_in : ℤ → ℕ → ℤ
pull_in v size = if lt_int v (pos size) then v else sub_nat size 1

pub mouse_set_bounds : Mouse → (w h : ℕ) → Mouse
mouse_set_bounds m w h = record m {
  screen_w = w;
  screen_h = h;
  mouse_x = pull_in m.mouse_x w;
  mouse_y = pull_in m.mouse_y h;
}

unfoldable pub mouse_get_state : Mouse → ℤ × ℤ × ℕ
mouse_get_state m = (m.mouse_x, m.mouse_y, m.mouse_buttons)

unfoldable pub mouse_poll_dirty : Mouse → Bool × Mouse
mouse_poll_dirty m = (m.mouse_dirty, if m.mouse_dirty then record m { mouse_dirty = false } else m)
