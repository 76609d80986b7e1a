-- ===== src/Keyboard/Ring.antt =====
-- The ring of characters holds a queue: the invariant of the indices, and what the ring contains.
use aioperatingsystem.Common.{
  ℕ, zero, suc, ◌+◌, ◌-◌, ◌%◌, ◌<◌, ◌≡◌, ◌≢◌, refl, ◌∙◌, ap, ap₂, sym, List, [], ◌∷◌, ◌++◌, arith,
  get_or, set, length, length-set, get_or-set_self, get_or-set_ne, Option, some, none, ◌!=◌, ◌==◌,
  ==_iff, true, false, ltb, lt→ltb,
}
use native.Mathlib.Decide.{dec_lt, ℕ_discrete}
use aioperatingsystem.Keyboard.{Keyboard, kbd_buffer_push, keyboard_getchar}
use aioperatingsystem.Keyboard.Queue.{Queue, offer, poll}

pub record IsValid (k : Keyboard) : Type 0 where
  pub storage : length k.buffer ≡ 256
  pub head_in : k.head < 256
  pub tail_in : k.tail < 256

-- The `n` characters from index `i` on, going round at the end.
abbrev pub slice : List ℕ → ℕ → ℕ → Queue
slice buf i zero = []
slice buf i (suc n) = get_or buf i 0 ∷ slice buf ((i + 1) % 256) n

abbrev pub used : Keyboard → ℕ
used k = (k.head + 256 - k.tail) % 256

abbrev pub contents : Keyboard → Queue
contents k = slice k.buffer k.tail (used k)

length-slice : (buf : List ℕ) (i n : ℕ) → length (slice buf i n) ≡ n
length-slice buf i zero = refl
length-slice buf i (suc n) = ap suc (length-slice buf ((i + 1) % 256) n)

-- A write just past the characters adds one.
slice-set :
    (buf : List ℕ) (c n i h : ℕ)
    → length buf ≡ 256
    → i < 256
    → n < 255
    → h ≡ (i + n) % 256
    → slice (set buf h c) i (suc n) ≡ slice buf i n ++ (c ∷ [])
slice-set buf c zero i h hl hi hn e =
    let at : h ≡ i = omega arith in
    ap (λ t. t ∷ [])
      (ap (λ t. get_or (set buf h c) t 0) (sym at) ∙ get_or-set_self buf h c 0 (omega arith))
slice-set buf c (suc n) i h hl hi hn e =
    ap₂ ◌∷◌ (get_or-set_ne buf h i c 0 (omega arith))
      (slice-set buf c n ((i + 1) % 256) h hl (omega arith) (omega arith) (omega arith))

-- The count of `slice` as the code's indices give it.
slice-suc :
    (buf : List ℕ) (i n : ℕ)
    → n ≢ 0
    → slice buf i n ≡ get_or buf i 0 ∷ slice buf ((i + 1) % 256) (n - 1)
slice-suc buf i zero h = absurd (h refl)
slice-suc buf i (suc n) h = ap (λ t. get_or buf i 0 ∷ slice buf ((i + 1) % 256) t) (omega arith)

pub kbd_buffer_push-IsValid : (k : Keyboard) (c : ℕ) → IsValid k → IsValid (kbd_buffer_push k c)
unfolding kbd_buffer_push
kbd_buffer_push-IsValid k c v = ground (arith, length-set k.buffer k.head c)

pub kbd_buffer_push-offer :
    (k : Keyboard) (c : ℕ)
    → IsValid k
    → contents (kbd_buffer_push k c) ≡ offer (contents k) (some c)
unfolding kbd_buffer_push offer
kbd_buffer_push-offer k c v = elim (dec_lt (used k) 255) [
  | yes room ↦
      let test : ((k.head + 1) % 256 != k.tail) ≡ true = ground arith in
      let fits : ltb (length (contents k)) 255 ≡ true =
        lt→ltb _ _ (rw (length-slice k.buffer k.tail (used k)) room) in
      let grown : ((k.head + 1) % 256 + 256 - k.tail) % 256 ≡ suc (used k) = omega arith in
      let next : k.head ≡ (k.tail + used k) % 256 = omega arith in
      rw (test, fits)
        (ap (slice (set k.buffer k.head c) k.tail) grown
          ∙ slice-set k.buffer c (used k) k.tail k.head v.storage v.tail_in room next)
  | no full ↦
      let test : ((k.head + 1) % 256 != k.tail) ≡ false = ground arith in
      let over : ltb (length (contents k)) 255 ≡ false =
        rw (length-slice k.buffer k.tail (used k)) (no_room (used k) full) in
      rw (test, over)
]
  where
    no_room : (n : ℕ) → ¬ (n < 255) → ltb n 255 ≡ false
    no_room n h = ground arith

-- What a read gives, with what is left.
abbrev pub seen : Option (ℕ × Keyboard) → Option (ℕ × Queue)
seen none = none
seen (some (c, k)) = some (c, contents k)

pub keyboard_getchar-poll :
    (k : Keyboard) → IsValid k → seen (keyboard_getchar k) ≡ poll (contents k)
unfolding keyboard_getchar poll
keyboard_getchar-poll k v = elim (ℕ_discrete k.head k.tail) [
  | yes same ↦
      let test : (k.head == k.tail) ≡ true = (==_iff k.head k.tail).1 same in
      let empty : used k ≡ 0 = omega arith in rw (test, empty)
  | no differ ↦
      let test : (k.head == k.tail) ≡ false = ground arith in
      let left : (k.head + 256 - (k.tail + 1) % 256) % 256 ≡ used k - 1 = omega arith in
      rw (test, slice-suc k.buffer k.tail (used k) (λ e. differ (omega arith)), left)
]

pub keyboard_getchar-IsValid :
    (k k' : Keyboard) (c : ℕ) → IsValid k → keyboard_getchar k ≡ some (c, k') → IsValid k'
unfolding keyboard_getchar
keyboard_getchar-IsValid k k' c v e = ground arith
