-- ===== src/Inflate/Reader.antt =====
-- The bit reader of kernel/inflate.c against the bits of the input, numbered from the lowest bit of
-- the first byte. The code shifts 32-bit words, so it is defined for counts up to 32; no call asks for more
-- than 13.
use aioperatingsystem.Common.{
  ℕ, zero, suc, ◌+◌, ◌*◌, ◌/◌, ◌%◌, ◌^◌, ◌<◌, ◌≤◌, ◌≡◌, ◌∙◌, ap, ap₂, subst, List, arith, ltb,
  get_or, if◌then◌else◌, ◌>>>◌, ◌<<<◌,
}
use aioperatingsystem.Common.Bits.{bit_or_low_field}
use Prim.Native.Nat.{bit_or}
use native.Mathlib.Nat.{pow-suc}
use aioperatingsystem.Inflate.{BitReader, next_bit, step_bit, read_loop, br_read_bits}

abbrev pub bit_at : List ℕ → ℕ → ℕ → ℕ
bit_at bytes len p = if ltb (p / 8) len then (get_or bytes (p / 8) 0 >>> (p % 8)) % 2 else 0

-- The number of the next bit.
abbrev pub position : BitReader → ℕ
position br = br.byte_pos * 8 + br.bit_pos

-- The `n` bits from bit `p` on, the first of them the lowest.
pub field : List ℕ → ℕ → ℕ → ℕ → ℕ
field bytes len p zero = 0
field bytes len p (suc n) = bit_at bytes len p + field bytes len (p + 1) n * 2

-- A reader of this input that has come to bit `p`.
abbrev pub AtBit : List ℕ → ℕ → ℕ → BitReader → Type 0
AtBit bytes len p br = (br.bytes ≡ bytes) × (br.len ≡ len) × (br.bit_pos < 8) × (position br ≡ p)

next_bit_lem :
    (bytes : List ℕ) (len p : ℕ) (br : BitReader)
    → AtBit bytes len p br
    → next_bit br ≡ bit_at bytes len p
unfolding next_bit
next_bit_lem bytes len p br (same, same_len, low, here) =
    let byte : br.byte_pos ≡ p / 8 = omega (arith, low, here) in
    let bit : br.bit_pos ≡ p % 8 = omega (arith, low, here) in
    ap₂
      (λ (b : List ℕ) (l : ℕ).
        if ltb br.byte_pos l then (get_or b br.byte_pos 0 >>> br.bit_pos) % 2 else 0)
      same same_len
    ∙ ap₂ (λ (i k : ℕ). if ltb i len then (get_or bytes i 0 >>> k) % 2 else 0) byte bit

bit_at_le : (bytes : List ℕ) (len p : ℕ) → bit_at bytes len p ≤ 1
bit_at_le bytes len p = ground arith

step_bit_lem :
    (bytes : List ℕ) (len p : ℕ) (br : BitReader)
    → AtBit bytes len p br
    → AtBit bytes len (p + 1) (step_bit br)
unfolding step_bit
step_bit_lem bytes len p br h = ground (arith, h)

field_le : (bytes : List ℕ) (len p n : ℕ) → field bytes len p n < 2 ^ n
unfolding field
field_le bytes len p zero = omega arith
field_le bytes len p (suc n) =
    omega (arith, bit_at_le bytes len p, field_le bytes len (p + 1) n, pow-suc 2 n)

regroup : (r b f x y : ℕ) → y ≡ 2 * x → r + b * x + f * y ≡ r + (b + f * 2) * x
regroup r b f x y e = ap (λ (t : ℕ). r + b * x + f * t) e ∙ omega arith

one_more : (r b x y : ℕ) → r < x → b ≤ 1 → y ≡ 2 * x → r + b * x < y
one_more r zero x y h le e = omega arith
one_more r (suc zero) x y h le e = omega arith
one_more r (suc (suc b)) x y h le e = absurd (omega arith)

pow_next : (i : ℕ) → 2 ^ (i + 1) ≡ 2 * 2 ^ i
pow_next i = ap (λ (t : ℕ). 2 ^ t) (next i) ∙ pow-suc 2 i ∙ omega arith
  where
    next : (k : ℕ) → k + 1 ≡ suc k
    next k = omega arith

at_bit :
    (bytes : List ℕ) (len p q : ℕ) (br : BitReader)
    → p ≡ q
    → AtBit bytes len p br
    → AtBit bytes len q br
at_bit bytes len p q br e h = subst (λ (t : ℕ). AtBit bytes len t br) e h

read_loop_lem :
    (n i result : ℕ) (bytes : List ℕ) (len p : ℕ) (br : BitReader)
    → AtBit bytes len p br
    → result < 2 ^ i
    → let r = read_loop n i result br in
      (r.0 ≡ result + field bytes len p n * 2 ^ i) × AtBit bytes len (p + n) r.1
unfolding read_loop field
read_loop_lem zero i result bytes len p br h small =
    (omega arith, at_bit bytes len p (p + 0) br (omega arith) h)
read_loop_lem (suc n) i result bytes len p br h small =
    let b = bit_at bytes len p in
    let f = field bytes len (p + 1) n in
    let value = bit_or result (next_bit br <<< i) in
    let bit : value ≡ result + b * 2 ^ i =
      ap (λ (t : ℕ). bit_or result (t <<< i)) (next_bit_lem bytes len p br h)
      ∙ bit_or_low_field i b result small in
    let wider : 2 ^ (i + 1) ≡ 2 * 2 ^ i = pow_next i in
    let fits : value < 2 ^ (i + 1) =
      omega
        (arith, bit, one_more result b (2 ^ i) (2 ^ (i + 1)) small (bit_at_le bytes len p) wider) in
    let rest =
      read_loop_lem n (i + 1) value bytes len (p + 1) (step_bit br) (step_bit_lem bytes len p br h)
        fits in
    (
      rest.0
          ∙ ap (λ (t : ℕ). t + f * 2 ^ (i + 1)) bit
          ∙ regroup result b f (2 ^ i) (2 ^ (i + 1)) wider,
      at_bit bytes len (p + 1 + n) (p + suc n) _ (omega arith) rest.1,
    )

-- Reading `count` bits at bit `p` of the input returns the number that those bits write, the first
-- of them the lowest and bits past the end 0, which is less than 2 ^ count, and leaves the reader at
-- bit `p + count`.
pub br_read_bits-value :
    (bytes : List ℕ) (len p count : ℕ) (br : BitReader)
    → AtBit bytes len p br
    → let r = br_read_bits br count in
      (r.0 ≡ field bytes len p count) × (r.0 < 2 ^ count) × AtBit bytes len (p + count) r.1
unfolding br_read_bits
br_read_bits-value bytes len p count br h =
    let read = read_loop_lem count 0 0 bytes len p br h (omega arith) in
    let value : (br_read_bits br count).0 ≡ field bytes len p count = omega (arith, read.0) in
    (value, omega (arith, value, field_le bytes len p count), read.1)

next_bit_le : (br : BitReader) → next_bit br ≤ 1
unfolding next_bit
next_bit_le br = ground arith

read_loop_small :
    (n i result : ℕ) (br : BitReader) → result < 2 ^ i → (read_loop n i result br).0 < 2 ^ (i + n)
unfolding read_loop
read_loop_small zero i result br h = subst (λ (t : ℕ). result < 2 ^ t) (add_zero i) h
  where
    add_zero : (k : ℕ) → k ≡ k + 0
    add_zero k = omega arith
read_loop_small (suc n) i result br h =
    let fits : bit_or result (next_bit br <<< i) < 2 ^ (i + 1) = omega (
      arith,
      bit_or_low_field i (next_bit br) result h,
      one_more result (next_bit br) (2 ^ i) (2 ^ (i + 1)) h (next_bit_le br) (pow_next i),
    ) in
    subst
      (λ (t : ℕ). (read_loop n (i + 1) (bit_or result (next_bit br <<< i)) (step_bit br)).0 < 2 ^ t)
      (move i n) (read_loop_small n (i + 1) _ (step_bit br) fits)
  where
    move : (k l : ℕ) → k + 1 + l ≡ k + suc l
    move k l = omega arith

pub br_read_bits-small : (br : BitReader) (count : ℕ) → (br_read_bits br count).0 < 2 ^ count
unfolding br_read_bits
br_read_bits-small br count =
    subst (λ (t : ℕ). (read_loop count 0 0 br).0 < 2 ^ t) (zero_add count)
      (read_loop_small count 0 0 br (omega arith))
  where
    zero_add : (k : ℕ) → 0 + k ≡ k
    zero_add k = omega arith
