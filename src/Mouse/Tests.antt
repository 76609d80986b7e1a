-- ===== src/Mouse/Tests.antt =====
-- A mouse without a wheel: a packet that moves left and down, after a byte out of step.
use aioperatingsystem.Common.{ℕ, false, List, [], ◌∷◌, arith, replicate, length-replicate}
use aioperatingsystem.Common.Integers.{pos}
use aioperatingsystem.Mouse.{Mouse}
use aioperatingsystem.Mouse.Screen.{IsValid, Event, irq, resize, run, run-IsValid}

abbrev at_start : Mouse
at_start = record {
  mouse_x = pos 160;
  mouse_y = pos 100;
  mouse_buttons = 0;
  screen_w = 320;
  screen_h = 200;
  mouse_has_wheel = false;
  packet = replicate 4 0;
  packet_index = 0;
  packet_size = 3;
  mouse_dirty = false;
  mouse_wheel_delta = pos 0;
}

at_start-IsValid : IsValid at_start
at_start-IsValid = record {
  x_in = omega arith;
  y_in = omega arith;
  storage = length-replicate {A = ℕ} 4 0;
  size_le = omega arith;
  index_in = omega arith;
}

abbrev bytes_in : List Event
bytes_in =
    irq 0x20 0x01 ∷ irq 0x20 0x38 ∷ irq 0x20 0 ∷ irq 0x20 0x80 ∷ resize 100 100 ∷ irq 0x20 0x08 ∷ []

run-IsValid_example : IsValid (run at_start bytes_in)
run-IsValid_example =
    run-IsValid bytes_in at_start at_start-IsValid
      (tt, (tt, (tt, (tt, ((omega arith, omega arith), (tt, tt))))))
