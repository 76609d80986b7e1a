-- ===== src/Aes.antt =====
-- kernel/aes.c: AES-128 and its CBC mode. A state and a block are lists of 16 bytes; the table that the
-- code builds once is a state that the two entry points pass on.

pub mod Field
pub mod Columns
pub mod Unmix
pub mod Steps
pub mod Rounds
pub mod Cbc
mod Tests
use aioperatingsystem.Common.{
  ℕ, zero, suc, ◌+◌, ◌-◌, ◌*◌, ◌/◌, ◌%◌, ◌^◌, List, [], ◌∷◌, ◌++◌, Bool, true, false, ◌==◌,
  if◌then◌else◌, get_or, set, take, drop, length, replicate, u8, u32, ◌<<<◌, ◌>>>◌, test_bit,
}
use Prim.Native.Nat.{bit_or, bit_xor}

abbrev pub aes_sbox : List ℕ
aes_sbox =
    0x63 ∷ 0x7c ∷ 0x77 ∷ 0x7b ∷ 0xf2 ∷ 0x6b ∷ 0x6f ∷ 0xc5 ∷ 0x30 ∷ 0x01 ∷ 0x67 ∷ 0x2b ∷ 0xfe ∷ 0xd7
    ∷ 0xab ∷ 0x76 ∷ 0xca ∷ 0x82 ∷ 0xc9 ∷ 0x7d ∷ 0xfa ∷ 0x59 ∷ 0x47 ∷ 0xf0 ∷ 0xad ∷ 0xd4 ∷ 0xa2
    ∷ 0xaf ∷ 0x9c ∷ 0xa4 ∷ 0x72 ∷ 0xc0 ∷ 0xb7 ∷ 0xfd ∷ 0x93 ∷ 0x26 ∷ 0x36 ∷ 0x3f ∷ 0xf7 ∷ 0xcc
    ∷ 0x34 ∷ 0xa5 ∷ 0xe5 ∷ 0xf1 ∷ 0x71 ∷ 0xd8 ∷ 0x31 ∷ 0x15 ∷ 0x04 ∷ 0xc7 ∷ 0x23 ∷ 0xc3 ∷ 0x18
    ∷ 0x96 ∷ 0x05 ∷ 0x9a ∷ 0x07 ∷ 0x12 ∷ 0x80 ∷ 0xe2 ∷ 0xeb ∷ 0x27 ∷ 0xb2 ∷ 0x75 ∷ 0x09 ∷ 0x83
    ∷ 0x2c ∷ 0x1a ∷ 0x1b ∷ 0x6e ∷ 0x5a ∷ 0xa0 ∷ 0x52 ∷ 0x3b ∷ 0xd6 ∷ 0xb3 ∷ 0x29 ∷ 0xe3 ∷ 0x2f
    ∷ 0x84 ∷ 0x53 ∷ 0xd1 ∷ 0x00 ∷ 0xed ∷ 0x20 ∷ 0xfc ∷ 0xb1 ∷ 0x5b ∷ 0x6a ∷ 0xcb ∷ 0xbe ∷ 0x39
    ∷ 0x4a ∷ 0x4c ∷ 0x58 ∷ 0xcf ∷ 0xd0 ∷ 0xef ∷ 0xaa ∷ 0xfb ∷ 0x43 ∷ 0x4d ∷ 0x33 ∷ 0x85 ∷ 0x45
    ∷ 0xf9 ∷ 0x02 ∷ 0x7f ∷ 0x50 ∷ 0x3c ∷ 0x9f ∷ 0xa8 ∷ 0x51 ∷ 0xa3 ∷ 0x40 ∷ 0x8f ∷ 0x92 ∷ 0x9d
    ∷ 0x38 ∷ 0xf5 ∷ 0xbc ∷ 0xb6 ∷ 0xda ∷ 0x21 ∷ 0x10 ∷ 0xff ∷ 0xf3 ∷ 0xd2 ∷ 0xcd ∷ 0x0c ∷ 0x13
    ∷ 0xec ∷ 0x5f ∷ 0x97 ∷ 0x44 ∷ 0x17 ∷ 0xc4 ∷ 0xa7 ∷ 0x7e ∷ 0x3d ∷ 0x64 ∷ 0x5d ∷ 0x19 ∷ 0x73
    ∷ 0x60 ∷ 0x81 ∷ 0x4f ∷ 0xdc ∷ 0x22 ∷ 0x2a ∷ 0x90 ∷ 0x88 ∷ 0x46 ∷ 0xee ∷ 0xb8 ∷ 0x14 ∷ 0xde
    ∷ 0x5e ∷ 0x0b ∷ 0xdb ∷ 0xe0 ∷ 0x32 ∷ 0x3a ∷ 0x0a ∷ 0x49 ∷ 0x06 ∷ 0x24 ∷ 0x5c ∷ 0xc2 ∷ 0xd3
    ∷ 0xac ∷ 0x62 ∷ 0x91 ∷ 0x95 ∷ 0xe4 ∷ 0x79 ∷ 0xe7 ∷ 0xc8 ∷ 0x37 ∷ 0x6d ∷ 0x8d ∷ 0xd5 ∷ 0x4e
    ∷ 0xa9 ∷ 0x6c ∷ 0x56 ∷ 0xf4 ∷ 0xea ∷ 0x65 ∷ 0x7a ∷ 0xae ∷ 0x08 ∷ 0xba ∷ 0x78 ∷ 0x25 ∷ 0x2e
    ∷ 0x1c ∷ 0xa6 ∷ 0xb4 ∷ 0xc6 ∷ 0xe8 ∷ 0xdd ∷ 0x74 ∷ 0x1f ∷ 0x4b ∷ 0xbd ∷ 0x8b ∷ 0x8a ∷ 0x70
    ∷ 0x3e ∷ 0xb5 ∷ 0x66 ∷ 0x48 ∷ 0x03 ∷ 0xf6 ∷ 0x0e ∷ 0x61 ∷ 0x35 ∷ 0x57 ∷ 0xb9 ∷ 0x86 ∷ 0xc1
    ∷ 0x1d ∷ 0x9e ∷ 0xe1 ∷ 0xf8 ∷ 0x98 ∷ 0x11 ∷ 0x69 ∷ 0xd9 ∷ 0x8e ∷ 0x94 ∷ 0x9b ∷ 0x1e ∷ 0x87
    ∷ 0xe9 ∷ 0xce ∷ 0x55 ∷ 0x28 ∷ 0xdf ∷ 0x8c ∷ 0xa1 ∷ 0x89 ∷ 0x0d ∷ 0xbf ∷ 0xe6 ∷ 0x42 ∷ 0x68
    ∷ 0x41 ∷ 0x99 ∷ 0x2d ∷ 0x0f ∷ 0xb0 ∷ 0x54 ∷ 0xbb ∷ 0x16 ∷ []

-- The table and the flag that it has been built.
pub record Tables : Type 0 where
  pub inv_sbox : List ℕ
  pub ready : Bool

abbrev pub initial_tables : Tables
initial_tables = record { inv_sbox = replicate 256 0; ready = false }

-- `n` rounds of the loop, from number `i` on.
pub build_from : (n i : ℕ) → List ℕ → List ℕ
build_from zero i table = table
build_from (suc n) i table = build_from n (i + 1) (set table (get_or aes_sbox i 0) (u8 i))

pub aes_build_inv_sbox : Tables → Tables
aes_build_inv_sbox t = record { inv_sbox = build_from 256 0 t.inv_sbox; ready = true }

abbrev pub aes_rcon : List ℕ
aes_rcon = 0x00 ∷ 0x01 ∷ 0x02 ∷ 0x04 ∷ 0x08 ∷ 0x10 ∷ 0x20 ∷ 0x40 ∷ 0x80 ∷ 0x1b ∷ 0x36 ∷ []

abbrev pub sbox : ℕ → ℕ
sbox x = get_or aes_sbox x 0

-- Four bytes as a word, the first of them the highest.
abbrev pub word_of : (b0 b1 b2 b3 : ℕ) → ℕ
word_of b0 b1 b2 b3 = bit_or (bit_or (bit_or (b0 <<< 24) (b1 <<< 16)) (b2 <<< 8)) b3

pub aes_sub_word : ℕ → ℕ
aes_sub_word w =
    word_of (sbox (u8 (w >>> 24))) (sbox (u8 (w >>> 16))) (sbox (u8 (w >>> 8))) (sbox (u8 w))

pub aes_rot_word : ℕ → ℕ
aes_rot_word w = bit_or (u32 (w <<< 8)) (w >>> 24)

-- The words of the key, `n` of them from word `i` on.
pub key_words : (n i : ℕ) → List ℕ → List ℕ
key_words zero i key = []
key_words (suc n) i key =
    word_of (get_or key (i * 4) 0) (get_or key (i * 4 + 1) 0) (get_or key (i * 4 + 2) 0)
      (get_or key (i * 4 + 3) 0)
    ∷ key_words n (i + 1) key

-- Word `i` from the words before it.
pub next_word : (i : ℕ) → List ℕ → ℕ
next_word i w =
    let temp = get_or w (i - 1) 0 in
    bit_xor (get_or w (i - 4) 0) (
      if i % 4 == 0
      then bit_xor (aes_sub_word (aes_rot_word temp)) (get_or aes_rcon (i / 4) 0 <<< 24)
      else temp)

pub expand_words : (n i : ℕ) → List ℕ → List ℕ
expand_words zero i w = w
expand_words (suc n) i w = expand_words n (i + 1) (w ++ (next_word i w ∷ []))

pub aes_key_expansion : (key : List ℕ) → List ℕ
aes_key_expansion key = expand_words 40 4 (key_words 4 0 key)

-- `n` rounds of the loop of `gf_mul`.
pub gf_mul_loop : (n result a b : ℕ) → ℕ
gf_mul_loop zero result a b = result
gf_mul_loop (suc n) result a b =
    gf_mul_loop n (if test_bit b 0 then bit_xor result a else result)
      (if test_bit a 7 then bit_xor (u8 (a <<< 1)) 0x1b else u8 (a <<< 1)) (b >>> 1)

pub gf_mul : (a b : ℕ) → ℕ
gf_mul a b = gf_mul_loop 8 0 a b

-- `state[i] ^= value`.
abbrev pub xor_at : (i value : ℕ) → List ℕ → List ℕ
xor_at i value state = set state i (bit_xor (get_or state i 0) value)

-- The columns from `col` on, `n` of them.
pub add_key_columns : (n col : ℕ) → (round_key state : List ℕ) → List ℕ
add_key_columns zero col round_key state = state
add_key_columns (suc n) col round_key state =
    let k = get_or round_key col 0 in
    add_key_columns n (col + 1) round_key (
      xor_at (col * 4 + 3) (u8 k) (
        xor_at (col * 4 + 2) (u8 (k >>> 8))
          (xor_at (col * 4 + 1) (u8 (k >>> 16)) (xor_at (col * 4 + 0) (u8 (k >>> 24)) state))))

pub aes_add_round_key : (round_key state : List ℕ) → List ℕ
aes_add_round_key round_key state = add_key_columns 4 0 round_key state

-- `state[i] = table[state[i]]`, `n` bytes from byte `i` on.
pub substitute : (n i : ℕ) → (table state : List ℕ) → List ℕ
substitute zero i table state = state
substitute (suc n) i table state =
    substitute n (i + 1) table (set state i (get_or table (get_or state i 0) 0))

pub aes_sub_bytes : List ℕ → List ℕ
aes_sub_bytes state = substitute 16 0 aes_sbox state

pub aes_inv_sub_bytes : (inv_sbox state : List ℕ) → List ℕ
aes_inv_sub_bytes inv_sbox state = substitute 16 0 inv_sbox state

-- The two loops over rows and columns as one: the row is `k / 4`, the column `k % 4`.
pub shift_cells : (n k : ℕ) → (tmp state : List ℕ) → List ℕ
shift_cells zero k tmp state = state
shift_cells (suc n) k tmp state =
    let r = k / 4 in
    let c = k % 4 in
    shift_cells n (k + 1) tmp (set state (c * 4 + r) (get_or tmp ((c + r) % 4 * 4 + r) 0))

pub aes_shift_rows : List ℕ → List ℕ
aes_shift_rows state = shift_cells 16 0 state state

pub inv_shift_cells : (n k : ℕ) → (tmp state : List ℕ) → List ℕ
inv_shift_cells zero k tmp state = state
inv_shift_cells (suc n) k tmp state =
    let r = k / 4 in
    let c = k % 4 in
    inv_shift_cells n (k + 1) tmp (set state ((c + r) % 4 * 4 + r) (get_or tmp (c * 4 + r) 0))

pub aes_inv_shift_rows : List ℕ → List ℕ
aes_inv_shift_rows state = inv_shift_cells 16 0 state state

abbrev pub xor4 : (a b c d : ℕ) → ℕ
xor4 a b c d = bit_xor (bit_xor (bit_xor a b) c) d

-- A function of the four bytes of a column.
abbrev pub Cell : Type 0
Cell = (a0 a1 a2 a3 : ℕ) → ℕ

-- `col[0]` to `col[3]` from the bytes that were read before.
abbrev pub write_column : (f0 f1 f2 f3 : Cell) → (c : ℕ) → List ℕ → List ℕ
write_column f0 f1 f2 f3 c state =
    let a0 = get_or state (c * 4) 0 in
    let a1 = get_or state (c * 4 + 1) 0 in
    let a2 = get_or state (c * 4 + 2) 0 in
    let a3 = get_or state (c * 4 + 3) 0 in
    set
      (set (set (set state (c * 4) (f0 a0 a1 a2 a3)) (c * 4 + 1) (f1 a0 a1 a2 a3)) (c * 4 + 2)
        (f2 a0 a1 a2 a3))
      (c * 4 + 3) (f3 a0 a1 a2 a3)

unfoldable pub mix0 : Cell
mix0 a0 a1 a2 a3 = xor4 (gf_mul a0 2) (gf_mul a1 3) a2 a3

unfoldable pub mix1 : Cell
mix1 a0 a1 a2 a3 = xor4 a0 (gf_mul a1 2) (gf_mul a2 3) a3

unfoldable pub mix2 : Cell
mix2 a0 a1 a2 a3 = xor4 a0 a1 (gf_mul a2 2) (gf_mul a3 3)

unfoldable pub mix3 : Cell
mix3 a0 a1 a2 a3 = xor4 (gf_mul a0 3) a1 a2 (gf_mul a3 2)

pub mix_from : (n c : ℕ) → List ℕ → List ℕ
mix_from zero c state = state
mix_from (suc n) c state = mix_from n (c + 1) (write_column mix0 mix1 mix2 mix3 c state)

pub aes_mix_columns : List ℕ → List ℕ
aes_mix_columns state = mix_from 4 0 state

unfoldable pub unmix0 : Cell
unmix0 a0 a1 a2 a3 = xor4 (gf_mul a0 14) (gf_mul a1 11) (gf_mul a2 13) (gf_mul a3 9)

unfoldable pub unmix1 : Cell
unmix1 a0 a1 a2 a3 = xor4 (gf_mul a0 9) (gf_mul a1 14) (gf_mul a2 11) (gf_mul a3 13)

unfoldable pub unmix2 : Cell
unmix2 a0 a1 a2 a3 = xor4 (gf_mul a0 13) (gf_mul a1 9) (gf_mul a2 14) (gf_mul a3 11)

unfoldable pub unmix3 : Cell
unmix3 a0 a1 a2 a3 = xor4 (gf_mul a0 11) (gf_mul a1 13) (gf_mul a2 9) (gf_mul a3 14)

pub inv_mix_from : (n c : ℕ) → List ℕ → List ℕ
inv_mix_from zero c state = state
inv_mix_from (suc n) c state =
    inv_mix_from n (c + 1) (write_column unmix0 unmix1 unmix2 unmix3 c state)

pub aes_inv_mix_columns : List ℕ → List ℕ
aes_inv_mix_columns state = inv_mix_from 4 0 state
