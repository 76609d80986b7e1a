-- ===== src/Keyboard/Queue.antt =====
-- What the keyboard promises: a queue of at most 255 characters, oldest first, and the character
-- that a scancode delivers under the modifiers that are held.
use aioperatingsystem.Common.{
  ℕ, ◌%◌, Bool, true, false, not, ◌||◌, List, [], ◌∷◌, ◌++◌, Option, none, some, ltb, ◌==◌,
  if◌then◌else◌, length, test_bit,
}
use aioperatingsystem.Keyboard.{extended_key, key_char}

abbrev pub Queue : Type 0
Queue = List ℕ

-- A full queue drops what is offered.
unfoldable pub offer : Queue → Option ℕ → Queue
offer q none = q
offer q (some c) = if ltb (length q) 255 then q ++ (c ∷ []) else q

unfoldable pub poll : Queue → Option (ℕ × Queue)
poll [] = none
poll (c ∷ q) = some (c, q)

-- The keys that change how others are read, and the prefix 0xE0.
pub record Mods : Type 0 where
  pub shift : Bool
  pub ctrl : Bool
  pub caps : Bool
  pub extended : Bool

abbrev pub is_shift : ℕ → Bool
is_shift key = key == 0x2a || key == 0x36

-- Bit 7 of a scancode tells a release from a press of the same key; Caps Lock turns at a press.
unfoldable pub press : Mods → ℕ → Mods
press m scancode =
    if scancode == 0xe0
    then record m { extended = true }
    else (if m.extended then record m { extended = false } else record m {
      shift = if is_shift (scancode % 128) then ltb scancode 128 else m.shift;
      ctrl = if scancode % 128 == 0x1d then ltb scancode 128 else m.ctrl;
      caps = if scancode == 0x3a then not m.caps else m.caps;
    })

-- No release delivers a character, nor does a key that only changes the modifiers.
unfoldable pub delivered : Mods → ℕ → Option ℕ
delivered m scancode =
    if test_bit scancode 7
    then none
    else (if m.extended
        then extended_key scancode
        else (if is_shift scancode || scancode == 0x1d || scancode == 0x3a
            then none
            else (let c = key_char m.shift m.caps m.ctrl scancode in
                if c == 0 then none else some c)))

-- An interrupt with its scancode, or a read that does not wait.
pub data Event : Type 0 where
  irq : ℕ → Event
  getchar : Event

-- What a read shows, and how the run goes on from the state after it.
abbrev pub read_then : {S : Type 0} → Option (ℕ × S) → S → (S → List (Option ℕ)) → List (Option ℕ)
read_then none s go = none ∷ go s
read_then (some (c, s')) s go = some c ∷ go s'

-- What each read returns.
unfoldable pub run : Mods → Queue → List Event → List (Option ℕ)
run m q [] = []
run m q (irq s ∷ es) = run (press m s) (offer q (delivered m s)) es
run m q (getchar ∷ es) = read_then (poll q) q (λ q'. run m q' es)
