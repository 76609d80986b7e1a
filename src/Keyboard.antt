-- ===== src/Keyboard.antt =====
-- kernel/keyboard.c: the scancode decoder of IRQ1 and its ring of characters.
--
-- A `char` is its byte, so the special keys of kernel.h, (char)-1 to (char)-5, are 255 to 251; the
-- characters of the two tables are ASCII, and the code's comparisons of them are the same on bytes.
-- The scancode that `inb(0x60)` reads is an argument of the handler.
pub mod Queue
pub mod Ring
pub mod Refine
pub mod Keys
mod Tests
use aioperatingsystem.Common.{
  ℕ, ◌+◌, ◌-◌, ◌%◌, Bool, true, false, ◌&&◌, ◌||◌, not, List, [], ◌∷◌, Option, none, some, leb, ltb,
  ◌==◌, ◌!=◌, if◌then◌else◌, get_or, set, u8, test_bit,
}

abbrev pub kbd_buffer_size : ℕ
kbd_buffer_size = 256

-- The static variables of the file.
pub record Keyboard : Type 0 where
  pub buffer : List ℕ
  pub head : ℕ
  pub tail : ℕ
  pub shift_pressed : Bool
  pub ctrl_pressed : Bool
  pub caps_lock : Bool
  pub extended_prefix : Bool

-- US QWERTY, scancode set 1; the entries that are not listed are 0.
abbrev pub scancode_ascii : List ℕ
scancode_ascii =
    0 ∷ 27 ∷ b'1' ∷ b'2' ∷ b'3' ∷ b'4' ∷ b'5' ∷ b'6' ∷ b'7' ∷ b'8' ∷ b'9' ∷ b'0' ∷ b'-' ∷ b'=' ∷ 8
    ∷ 9 ∷ b'q' ∷ b'w' ∷ b'e' ∷ b'r' ∷ b't' ∷ b'y' ∷ b'u' ∷ b'i' ∷ b'o' ∷ b'p' ∷ b'[' ∷ b']' ∷ 10 ∷ 0
    ∷ b'a' ∷ b's' ∷ b'd' ∷ b'f' ∷ b'g' ∷ b'h' ∷ b'j' ∷ b'k' ∷ b'l' ∷ b';' ∷ 39 ∷ b'`' ∷ 0 ∷ 92
    ∷ b'z' ∷ b'x' ∷ b'c' ∷ b'v' ∷ b'b' ∷ b'n' ∷ b'm' ∷ b',' ∷ b'.' ∷ b'/' ∷ 0 ∷ b'*' ∷ 0 ∷ 32 ∷ []

abbrev pub scancode_ascii_shift : List ℕ
scancode_ascii_shift =
    0 ∷ 27 ∷ b'!' ∷ b'@' ∷ b'#' ∷ b'$' ∷ b'%' ∷ b'^' ∷ b'&' ∷ b'*' ∷ b'(' ∷ b')' ∷ b'_' ∷ b'+' ∷ 8
    ∷ 9 ∷ b'Q' ∷ b'W' ∷ b'E' ∷ b'R' ∷ b'T' ∷ b'Y' ∷ b'U' ∷ b'I' ∷ b'O' ∷ b'P' ∷ b'{' ∷ b'}' ∷ 10 ∷ 0
    ∷ b'A' ∷ b'S' ∷ b'D' ∷ b'F' ∷ b'G' ∷ b'H' ∷ b'J' ∷ b'K' ∷ b'L' ∷ b':' ∷ b'"' ∷ b'~' ∷ 0 ∷ b'|'
    ∷ b'Z' ∷ b'X' ∷ b'C' ∷ b'V' ∷ b'B' ∷ b'N' ∷ b'M' ∷ b'<' ∷ b'>' ∷ b'?' ∷ 0 ∷ b'*' ∷ 0 ∷ 32 ∷ []

-- A full ring drops the character.
pub kbd_buffer_push : Keyboard → ℕ → Keyboard
kbd_buffer_push k c =
    let next = (k.head + 1) % kbd_buffer_size in
    if next != k.tail then record k { buffer = set k.buffer k.head c; head = next } else k

-- The arrow keys and the Super keys, of the codes that follow 0xE0.
pub extended_key : ℕ → Option ℕ
extended_key scancode =
    if scancode == 0x48
    then some 255
    else (if scancode == 0x50
        then some 254
        else (if scancode == 0x4b
            then some 253
            else (if scancode == 0x4d
                then some 252
                else (if scancode == 0x5b || scancode == 0x5c then some 251 else none))))

abbrev pub is_lower : ℕ → Bool
is_lower c = leb b'a' c && leb c b'z'

abbrev pub is_upper : ℕ → Bool
is_upper c = leb b'A' c && leb c b'Z'

-- The character of a key that is pressed, with the modifiers: 0 is none.
pub key_char : Bool → Bool → Bool → ℕ → ℕ
key_char shift caps ctrl scancode =
    let plain =
      if shift then get_or scancode_ascii_shift scancode 0 else get_or scancode_ascii scancode 0 in
    let c =
      if caps && is_lower plain
      then plain - 32
      else (if caps && is_upper plain then plain + 32 else plain) in
    if ctrl && is_lower c then c - b'a' + 1 else c

abbrev push_some : Keyboard → Option ℕ → Keyboard
push_some k none = k
push_some k (some c) = kbd_buffer_push k c

-- The interrupt handler.
pub keyboard_callback : Keyboard → ℕ → Keyboard
keyboard_callback k scancode =
    if scancode == 0xe0
    then record k { extended_prefix = true }
    else (if k.extended_prefix
        then (let k' = record k { extended_prefix = false } in
            if test_bit scancode 7 then k' else push_some k' (extended_key scancode))
        else (if scancode == 0x2a || scancode == 0x36
            then record k { shift_pressed = true }
            else (if scancode == 0xaa || scancode == 0xb6
                then record k { shift_pressed = false }
                else (if scancode == 0x1d
                    then record k { ctrl_pressed = true }
                    else (if scancode == 0x9d
                        then record k { ctrl_pressed = false }
                        else (if scancode == 0x3a
                            then record k { caps_lock = not k.caps_lock }
                            else (if test_bit scancode 7
                                then k
                                else (if ltb scancode 128
                                    then (let c =
                                          key_char k.shift_pressed k.caps_lock k.ctrl_pressed
                                            scancode in
                                        if c != 0 then kbd_buffer_push k c else k)
                                    else k))))))))

unfoldable pub keyboard_has_key : Keyboard → Bool
keyboard_has_key k = k.head != k.tail

-- One pass of the wait loop and the read after it: `none` is the halt that waits for an interrupt.
pub keyboard_getchar : Keyboard → Option (ℕ × Keyboard)
keyboard_getchar k =
    if k.head == k.tail
    then none
    else some (get_or k.buffer k.tail 0, record k { tail = (k.tail + 1) % kbd_buffer_size })
