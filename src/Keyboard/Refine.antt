-- ===== src/Keyboard/Refine.antt =====
-- The keyboard driver is the queue of Queue.antt, in every interleaving of interrupts and reads.
use aioperatingsystem.Common.{
  ℕ, ◌<◌, ◌≡◌, refl, ◌∙◌, ap, ap₂, List, [], ◌∷◌, Option, some, none, arith, All,
}
use aioperatingsystem.Keyboard.{
  Keyboard, kbd_buffer_push, push_some, keyboard_callback, keyboard_getchar,
}
use aioperatingsystem.Keyboard.Queue
use aioperatingsystem.Keyboard.Queue.{
  Queue, Mods, Event, irq, getchar, offer, poll, press, delivered, read_then,
}
use aioperatingsystem.Keyboard.Ring.{
  IsValid, contents, seen, kbd_buffer_push-IsValid, kbd_buffer_push-offer, keyboard_getchar-poll,
  keyboard_getchar-IsValid,
}

-- The driver under a schedule of events.
unfoldable pub run : Keyboard → List Event → List (Option ℕ)
run k [] = []
run k (irq s ∷ es) = run (keyboard_callback k s) es
run k (getchar ∷ es) = read_then (keyboard_getchar k) k (λ k'. run k' es)

abbrev pub mods : Keyboard → Mods
mods k = record {
  shift = k.shift_pressed;
  ctrl = k.ctrl_pressed;
  caps = k.caps_lock;
  extended = k.extended_prefix;
}

kbd_buffer_push-mods : (k : Keyboard) (c : ℕ) → mods (kbd_buffer_push k c) ≡ mods k
unfolding kbd_buffer_push
kbd_buffer_push-mods k c = ground arith

push_some-mods : (k : Keyboard) (o : Option ℕ) → mods (push_some k o) ≡ mods k
push_some-mods k none = refl
push_some-mods k (some c) = kbd_buffer_push-mods k c

push_some-IsValid : (k : Keyboard) (o : Option ℕ) → IsValid k → IsValid (push_some k o)
push_some-IsValid k none v = v
push_some-IsValid k (some c) v = kbd_buffer_push-IsValid k c v

push_some-offer :
    (k : Keyboard) (o : Option ℕ) → IsValid k → contents (push_some k o) ≡ offer (contents k) o
push_some-offer k none v = unfold offer in refl
push_some-offer k (some c) v = kbd_buffer_push-offer k c v

-- The keyboard with the modifiers after a scancode.
abbrev pressed : Keyboard → ℕ → Keyboard
pressed k s = record k {
  shift_pressed = (press (mods k) s).shift;
  ctrl_pressed = (press (mods k) s).ctrl;
  caps_lock = (press (mods k) s).caps;
  extended_prefix = (press (mods k) s).extended;
}

-- The handler changes the modifiers, and offers what the scancode delivers.
callback_splits :
    (k : Keyboard) (s : ℕ)
    → s < 256
    → keyboard_callback k s ≡ push_some (pressed k s) (delivered (mods k) s)
unfolding keyboard_callback press delivered
callback_splits k s h = ground arith

-- Every interrupt keeps the indices of the ring valid, changes the modifiers as the scancode says, and
-- offers to the queue what the scancode delivers under the modifiers held before it.
pub keyboard_callback_lem :
    (k : Keyboard) (s : ℕ)
    → IsValid k
    → s < 256
    → let k' = keyboard_callback k s in
      IsValid k'
      × (mods k' ≡ press (mods k) s)
      × (contents k' ≡ offer (contents k) (delivered (mods k) s))
keyboard_callback_lem k s v h =
    let valid : IsValid (pressed k s) = record {
      storage = v.storage;
      head_in = v.head_in;
      tail_in = v.tail_in;
    } in
    rw (callback_splits k s h) (
      push_some-IsValid (pressed k s) _ valid,
      push_some-mods (pressed k s) (delivered (mods k) s),
      push_some-offer (pressed k s) (delivered (mods k) s) valid,
    )

abbrev IsScancode : Event → Type 0
IsScancode (irq s) = s < 256
IsScancode getchar = Unit {0}

read_lem :
    (o : Option (ℕ × Keyboard)) (k : Keyboard) (go : Keyboard → List (Option ℕ))
    (go' : Queue → List (Option ℕ))
    → go k ≡ go' (contents k)
    → ((c : ℕ) (k' : Keyboard) → o ≡ some (c, k') → go k' ≡ go' (contents k'))
    → read_then o k go ≡ read_then (seen o) (contents k) go'
read_lem none k go go' stay read = ap (λ t. none ∷ t) stay
read_lem (some (c, k')) k go go' stay read = ap (λ t. some c ∷ t) (read c k' refl)

keyboard_getchar-mods :
    (k k' : Keyboard) (c : ℕ) → keyboard_getchar k ≡ some (c, k') → mods k' ≡ mods k
unfolding keyboard_getchar
keyboard_getchar-mods k k' c e = ground arith

-- No schedule of interrupts and reads tells the driver from a queue of 255 characters: each read
-- returns the oldest character delivered and not yet read, and a full queue drops what it is
-- offered.
pub run_refines :
    (es : List Event) (k : Keyboard)
    → IsValid k
    → All IsScancode es
    → run k es ≡ Queue.run (mods k) (contents k) es
unfolding run Queue.run
run_refines [] k v h = refl
run_refines (irq s ∷ es) k v h =
    let step = keyboard_callback_lem k s v h.0 in
    run_refines es (keyboard_callback k s) step.0 h.1 ∙ ap₂ (λ m q. Queue.run m q es) step.1 step.2
run_refines (getchar ∷ es) k v h =
    read_lem (keyboard_getchar k) k (λ k'. run k' es) (λ q. Queue.run (mods k) q es)
      (run_refines es k v h.1)
      (λ c k' e.
        run_refines es k' (keyboard_getchar-IsValid k k' c v e) h.1
        ∙ ap (λ m. Queue.run m (contents k') es) (keyboard_getchar-mods k k' c e))
    ∙ ap (λ o. read_then o (contents k) (λ q. Queue.run (mods k) q es)) (keyboard_getchar-poll k v)
