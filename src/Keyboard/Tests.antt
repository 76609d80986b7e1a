-- ===== src/Keyboard/Tests.antt =====
-- Runs of the keyboard at concrete scancodes.
use aioperatingsystem.Common.{
  ℕ, ◌-◌, ◌≡◌, refl, true, false, List, [], ◌∷◌, none, some, arith, get_or, replicate,
  if◌then◌else◌, length-replicate,
}
use aioperatingsystem.Keyboard.{
  Keyboard, kbd_buffer_push, extended_key, keyboard_callback, keyboard_getchar, key_char,
  scancode_ascii,
}
use aioperatingsystem.Keyboard.Queue
use aioperatingsystem.Keyboard.Queue.{Event, irq, getchar, offer, press, delivered}
use aioperatingsystem.Keyboard.Ring.{IsValid, contents}
use aioperatingsystem.Keyboard.Refine.{run, mods, keyboard_callback_lem, run_refines}
use aioperatingsystem.Keyboard.Keys.{differ, key_char-letter}

abbrev fresh : Keyboard
fresh = record {
  buffer = replicate 256 0;
  head = 0;
  tail = 0;
  shift_pressed = false;
  ctrl_pressed = false;
  caps_lock = false;
  extended_prefix = false;
}

fresh-IsValid : IsValid fresh
fresh-IsValid = record {
  storage = length-replicate {A = ℕ} 256 0;
  head_in = omega arith;
  tail_in = omega arith;
}

-- Shift and the a key, released, then the up arrow.
abbrev schedule : List Event
schedule =
    getchar ∷ irq 0x2a ∷ irq 30 ∷ irq 158 ∷ getchar ∷ irq 0xe0 ∷ irq 0x48 ∷ getchar ∷ getchar ∷ []

two_keys : run fresh schedule ≡ none ∷ some 65 ∷ some 255 ∷ none ∷ []
unfolding run keyboard_callback keyboard_getchar kbd_buffer_push key_char extended_key
two_keys = refl

run_refines_example : run fresh schedule ≡ Queue.run (mods fresh) (contents fresh) schedule
run_refines_example = run_refines schedule fresh fresh-IsValid (
  tt,
  (omega arith, (omega arith, (omega arith, (tt, (omega arith, (omega arith, (tt, (tt, tt)))))))),
)

keyboard_callback_lem_example :
    let k' = keyboard_callback fresh 30 in
    IsValid k'
    × (mods k' ≡ press (mods fresh) 30)
    × (contents k' ≡ offer (contents fresh) (delivered (mods fresh) 30))
keyboard_callback_lem_example = keyboard_callback_lem fresh 30 fresh-IsValid (omega arith)

-- Ctrl with Caps Lock on.
key_char-letter_example : key_char false true true 31 ≡ (
    if differ false true
    then get_or scancode_ascii 31 0 - 32
    else (if true then get_or scancode_ascii 31 0 - 96 else get_or scancode_ascii 31 0))
key_char-letter_example = key_char-letter false true true 31 refl
