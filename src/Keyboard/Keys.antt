-- ===== src/Keyboard/Keys.antt =====
-- The letter keys under the modifiers, from the two scancode tables.
use aioperatingsystem.Common.{
  ℕ, ◌+◌, ◌-◌, ◌≡◌, refl, ap, ap₂, ◌∙◌, subst, Bool, true, false, ◌&&◌, not, arith, ◌==◌,
  if◌then◌else◌, get_or, inl, inr, all_below-get, get_or_beyond, lt_or_le, ==_iff,
}
use aioperatingsystem.Keyboard.{scancode_ascii, scancode_ascii_shift, is_lower, is_upper, key_char}

-- One of the two, and not both.
abbrev pub differ : Bool → Bool → Bool
differ true b = not b
differ false b = b

abbrev shifted_ok : ℕ → Bool
shifted_ok s =
    if is_lower (get_or scancode_ascii s 0)
    then get_or scancode_ascii_shift s 0 + 32 == get_or scancode_ascii s 0
    else true

shifted_table : (s : ℕ) → shifted_ok s ≡ true
shifted_table s = elim (lt_or_le s 58) [
  | inl h ↦ all_below-get shifted_ok 58 refl s h
  | inr h ↦
      ap₂ (λ a b. if is_lower a then b + 32 == a else true) (get_or_beyond scancode_ascii s 0 h)
        (get_or_beyond scancode_ascii_shift s 0 h)
]

plain_char :
    (shift caps ctrl : Bool) (l u : ℕ)
    → is_lower l ≡ true
    → u + 32 ≡ l
    → let plain = if shift then u else l in
      let c =
        if caps && is_lower plain
        then plain - 32
        else (if caps && is_upper plain then plain + 32 else plain) in
      (if ctrl && is_lower c then c - b'a' + 1 else c)
      ≡ (if differ shift caps then u else (if ctrl then l - 96 else l))
plain_char shift caps ctrl l u h e = ground arith

minus_32 : (u l : ℕ) → u + 32 ≡ l → u ≡ l - 32
minus_32 u l h = omega arith

shift_of_letter :
    (u l : ℕ) → is_lower l ≡ true → (if is_lower l then u + 32 == l else true) ≡ true → u + 32 ≡ l
shift_of_letter u l h e =
    (==_iff (u + 32) l).0 (subst (λ b. (if b then u + 32 == l else true) ≡ true) h e)

-- A key that is a letter without modifiers gives the capital letter where exactly one of Shift and
-- Caps Lock is on, whether Ctrl is held or not; else it gives its control code 1 to 26 with Ctrl, and
-- the small letter without.
pub key_char-letter :
    (shift caps ctrl : Bool) (s : ℕ)
    → let l = get_or scancode_ascii s 0 in
      is_lower l ≡ true
      → key_char shift caps ctrl s
        ≡ (if differ shift caps then l - 32 else (if ctrl then l - 96 else l))
unfolding key_char
key_char-letter shift caps ctrl s h =
    let l = get_or scancode_ascii s 0 in
    let u = get_or scancode_ascii_shift s 0 in
    let e : u + 32 ≡ l = shift_of_letter u l h (shifted_table s) in
    plain_char shift caps ctrl l u h e
    ∙ ap (λ t. if differ shift caps then t else (if ctrl then l - 96 else l)) (minus_32 u l e)
