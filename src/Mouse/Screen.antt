-- ===== src/Mouse/Screen.antt =====
-- The pointer of kernel/mouse.c stays on the screen, and the packet buffer is not overrun.
use aioperatingsystem.Common.{
  ℕ, ◌+◌, ◌-◌, ◌≤◌, ◌<◌, ◌≡◌, refl, sym, ◌∙◌, subst, Bool, true, false, ◌&&◌, not, List, [], ◌∷◌,
  arith, ltb, ◌==◌, if◌then◌else◌, length, length-set, set, test_bit, All, ltb→lt, Bool-cases, inl,
  inr,
}
use aioperatingsystem.Common.Integers.{ℤ, pos, negsuc, sub_nat}
use aioperatingsystem.Mouse.{Mouse, clamp, apply_packet, mouse_callback, mouse_set_bounds, pull_in}

-- A coordinate of one of `size` pixels.
abbrev pub OnScreen : ℤ → ℕ → Type 0
OnScreen (pos n) size = n < size
OnScreen (negsuc n) size = ⊥

pub record IsValid (m : Mouse) : Type 0 where
  pub x_in : OnScreen m.mouse_x m.screen_w
  pub y_in : OnScreen m.mouse_y m.screen_h
  pub storage : length m.packet ≡ 4
  pub size_le : m.packet_size ≤ 4
  pub index_in : m.packet_index < m.packet_size

last_pixel : (size : ℕ) → 0 < size → OnScreen (sub_nat size 1) size
last_pixel size h = subst (λ z. OnScreen z size) (sym (whole size h)) (omega (arith, h))
  where
    whole : (s : ℕ) → 0 < s → sub_nat s 1 ≡ pos (s - 1)
    whole s l = ground arith

pull_in_lem : (n size : ℕ) → 0 < size → OnScreen (pull_in (pos n) size) size
pull_in_lem n size h = elim (Bool-cases (ltb n size)) [
  | inl inside ↦ rw inside (ltb→lt n size inside)
  | inr outside ↦ rw outside (last_pixel size h)
]

clamp_lem : (v : ℤ) (size : ℕ) → 0 < size → OnScreen (clamp v size) size
unfolding clamp
clamp_lem (pos n) size h = rw (not_below n) (pull_in_lem n size h)
  where
    not_below : (k : ℕ) → ltb k 0 ≡ false
    not_below k = ground arith
clamp_lem (negsuc n) size h = pull_in_lem 0 size h

OnScreen-pull_in :
    (v : ℤ) (old size : ℕ) → OnScreen v old → 0 < size → OnScreen (pull_in v size) size
OnScreen-pull_in (pos n) old size h p = pull_in_lem n size p
OnScreen-pull_in (negsuc n) old size h p = absurd h

positive : (v : ℤ) (size : ℕ) → OnScreen v size → 0 < size
positive (pos n) size h = omega arith
positive (negsuc n) size h = absurd h

if_IsValid :
    (b : Bool) (m n : Mouse)
    → (b ≡ true → IsValid m)
    → (b ≡ false → IsValid n)
    → IsValid (if b then m else n)
if_IsValid true m n h g = h refl
if_IsValid false m n h g = g refl

-- The state with one more byte, and the packet applied if it is complete.
store_lem :
    (m : Mouse) (byte : ℕ)
    → IsValid m
    → let m' = record m {
      packet = set m.packet m.packet_index byte;
      packet_index = m.packet_index + 1;
    } in
      IsValid (if m'.packet_index == m'.packet_size then apply_packet m' else m')
unfolding apply_packet
store_lem m byte v =
    let stored = length-set m.packet m.packet_index byte ∙ v.storage in
    if_IsValid (m.packet_index + 1 == m.packet_size) _ _
      (λ complete. record {
        x_in = clamp_lem _ m.screen_w (positive m.mouse_x m.screen_w v.x_in);
        y_in = clamp_lem _ m.screen_h (positive m.mouse_y m.screen_h v.y_in);
        storage = stored;
        size_le = v.size_le;
        index_in = omega (arith, v.index_in);
      })
      (λ partial. record {
        x_in = v.x_in;
        y_in = v.y_in;
        storage = stored;
        size_le = v.size_le;
        index_in = room m.packet_index m.packet_size v.index_in partial;
      })
  where
    room : (i n : ℕ) → i < n → (i + 1 == n) ≡ false → i + 1 < n
    room i n h e = ground arith

callback_lem : (m : Mouse) (status byte : ℕ) → IsValid m → IsValid (mouse_callback m status byte)
unfolding mouse_callback
callback_lem m status byte v =
    if_IsValid (not (test_bit status 5)) _ _ (λ keyboard. v)
      (λ ours.
        if_IsValid ((m.packet_index == 0) && not (test_bit byte 3)) _ _ (λ dropped. v)
          (λ kept. store_lem m byte v))

-- What reaches the driver after its installation.
pub data Event : Type 0 where
  irq : (status byte : ℕ) → Event
  resize : (w h : ℕ) → Event

abbrev pub IsScreen : Event → Type 0
IsScreen (irq status byte) = Unit {0}
IsScreen (resize w h) = (0 < w) × (0 < h)

unfoldable pub run : Mouse → List Event → Mouse
run m [] = m
run m (irq status byte ∷ es) = run (mouse_callback m status byte) es
run m (resize w h ∷ es) = run (mouse_set_bounds m w h) es

resize_lem : (m : Mouse) (w h : ℕ) → IsValid m → 0 < w → 0 < h → IsValid (mouse_set_bounds m w h)
unfolding mouse_set_bounds
resize_lem m w h v wide high = record {
  x_in = OnScreen-pull_in m.mouse_x m.screen_w w v.x_in wide;
  y_in = OnScreen-pull_in m.mouse_y m.screen_h h v.y_in high;
  storage = v.storage;
  size_le = v.size_le;
  index_in = v.index_in;
}

-- In every sequence of interrupts, whatever bytes they bring, and of changes to screens of at least one
-- pixel, the pointer stays on the screen and the packet index inside the packet, whose size is at most
-- the 4 bytes of its buffer.
pub run-IsValid : (es : List Event) (m : Mouse) → IsValid m → All IsScreen es → IsValid (run m es)
unfolding run
run-IsValid [] m v h = v
run-IsValid (irq status byte ∷ es) m v h =
    run-IsValid es (mouse_callback m status byte) (callback_lem m status byte v) h.1
run-IsValid (resize w h ∷ es) m v s =
    run-IsValid es (mouse_set_bounds m w h) (resize_lem m w h v s.0.0 s.0.1) s.1
