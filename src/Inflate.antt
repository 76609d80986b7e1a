-- ===== src/Inflate.antt =====
-- kernel/inflate.c: the bit reader, the canonical Huffman tables and the decoder of blocks.
--
-- The output buffer is the list of the bytes written so far; its bound `out_max` is an argument.
pub mod Blocks
pub mod Reader
use aioperatingsystem.Common.{
  ℕ, zero, suc, ◌+◌, ◌-◌, ◌*◌, ◌%◌, min, Bool, true, false, ◌&&◌, ◌||◌, List, [], ◌∷◌, ◌++◌, Option,
  none, some, ltb, leb, ◌==◌, if◌then◌else◌, get_or, set, take, drop, length, replicate, u16, ◌<<<◌,
  ◌>>>◌,
}
use Prim.Native.Nat.{bit_or}

-- `struct bitreader`.
pub record BitReader : Type 0 where
  pub bytes : List ℕ
  pub len : ℕ
  pub byte_pos : ℕ
  pub bit_pos : ℕ

abbrev pub br_init : List ℕ → ℕ → BitReader
br_init bytes len = record { bytes = bytes; len = len; byte_pos = 0; bit_pos = 0 }

-- A bit past the end of the input is 0.
pub next_bit : BitReader → ℕ
next_bit br =
    if ltb br.byte_pos br.len then (get_or br.bytes br.byte_pos 0 >>> br.bit_pos) % 2 else 0

pub step_bit : BitReader → BitReader
step_bit br =
    if br.bit_pos + 1 == 8
    then record br { bit_pos = 0; byte_pos = br.byte_pos + 1 }
    else record br { bit_pos = br.bit_pos + 1 }

-- The loop of `br_read_bits`, `n` rounds from round `i` on.
pub read_loop : (n i result : ℕ) → BitReader → ℕ × BitReader
read_loop zero i result br = (result, br)
read_loop (suc n) i result br =
    read_loop n (i + 1) (bit_or result (next_bit br <<< i)) (step_bit br)

pub br_read_bits : BitReader → ℕ → ℕ × BitReader
br_read_bits br count = read_loop count 0 0 br

unfoldable pub br_align_to_byte : BitReader → BitReader
br_align_to_byte br =
    if br.bit_pos == 0 then br else record br { bit_pos = 0; byte_pos = br.byte_pos + 1 }

-- `struct huffman_table`; `symbol_count` is the length of the lists.
pub record HuffmanTable : Type 0 where
  pub codes : List ℕ
  pub lengths : List ℕ

abbrev bump : List ℕ → ℕ → List ℕ
bump counts i = set counts i (u16 (get_or counts i 0 + 1))

-- How many symbols have each length.
unfoldable pub count_lengths : List ℕ → List ℕ → List ℕ
count_lengths counts [] = counts
count_lengths counts (len ∷ lens) =
    count_lengths (if ltb 0 len then bump counts len else counts) lens

-- The first code of each length, `n` lengths from `bits` on.
unfoldable pub first_codes : (n bits code : ℕ) → (bl_count next_code : List ℕ) → List ℕ
first_codes zero bits code bl_count next_code = next_code
first_codes (suc n) bits code bl_count next_code =
    let code' = u16 ((code + get_or bl_count (bits - 1) 0) <<< 1) in
    first_codes n (bits + 1) code' bl_count (set next_code bits code')

-- Codes in the order of the symbols.
unfoldable pub assign_codes : List ℕ → List ℕ → List ℕ
assign_codes next_code [] = []
assign_codes next_code (len ∷ lens) =
    let used = assign_codes (bump next_code len) lens in
    let unused = assign_codes next_code lens in
    if ltb 0 len then get_or next_code len 0 ∷ used else 0 ∷ unused

unfoldable pub huffman_build : List ℕ → HuffmanTable
huffman_build lengths =
    let bl_count = count_lengths (replicate 16 0) lengths in
    record {
      codes = assign_codes (first_codes 15 1 0 bl_count (replicate 16 0)) lengths;
      lengths = lengths;
    }

-- The first symbol from `sym` on with this code and length.
unfoldable pub match_code : (len code sym : ℕ) → (lengths codes : List ℕ) → Option ℕ
match_code len code sym [] codes = none
match_code len code sym (l ∷ ls) [] = none
match_code len code sym (l ∷ ls) (c ∷ cs) =
    let rest = match_code len code (sym + 1) ls cs in
    if (l == len) && (c == code) then some sym else rest

abbrev or_decode : Option ℕ → BitReader → Option ℕ × BitReader → Option ℕ × BitReader
or_decode none br rest = rest
or_decode (some sym) br rest = (some sym, br)

-- `n` lengths from `len` on are left to try.
unfoldable pub decode_loop : HuffmanTable → (n len code : ℕ) → BitReader → Option ℕ × BitReader
decode_loop t zero len code br = (none, br)
decode_loop t (suc n) len code br =
    let bit = br_read_bits br 1 in
    let code' = u16 (bit_or (code <<< 1) bit.0) in
    or_decode (match_code len code' 0 t.lengths t.codes) bit.1
      (decode_loop t n (len + 1) code' bit.1)

-- `none` is the code's -1.
unfoldable pub huffman_decode : HuffmanTable → BitReader → Option ℕ × BitReader
huffman_decode t br = decode_loop t 15 1 0 br

abbrev pub length_base : List ℕ
length_base =
    3 ∷ 4 ∷ 5 ∷ 6 ∷ 7 ∷ 8 ∷ 9 ∷ 10 ∷ 11 ∷ 13 ∷ 15 ∷ 17 ∷ 19 ∷ 23 ∷ 27 ∷ 31 ∷ 35 ∷ 43 ∷ 51 ∷ 59 ∷ 67
    ∷ 83 ∷ 99 ∷ 115 ∷ 131 ∷ 163 ∷ 195 ∷ 227 ∷ 258 ∷ []

abbrev pub length_extra_bits : List ℕ
length_extra_bits =
    0 ∷ 0 ∷ 0 ∷ 0 ∷ 0 ∷ 0 ∷ 0 ∷ 0 ∷ 1 ∷ 1 ∷ 1 ∷ 1 ∷ 2 ∷ 2 ∷ 2 ∷ 2 ∷ 3 ∷ 3 ∷ 3 ∷ 3 ∷ 4 ∷ 4 ∷ 4 ∷ 4
    ∷ 5 ∷ 5 ∷ 5 ∷ 5 ∷ 0 ∷ []

abbrev pub dist_base : List ℕ
dist_base =
    1 ∷ 2 ∷ 3 ∷ 4 ∷ 5 ∷ 7 ∷ 9 ∷ 13 ∷ 17 ∷ 25 ∷ 33 ∷ 49 ∷ 65 ∷ 97 ∷ 129 ∷ 193 ∷ 257 ∷ 385 ∷ 513 ∷ 769
    ∷ 1025 ∷ 1537 ∷ 2049 ∷ 3073 ∷ 4097 ∷ 6145 ∷ 8193 ∷ 12289 ∷ 16385 ∷ 24577 ∷ []

abbrev pub dist_extra_bits : List ℕ
dist_extra_bits =
    0 ∷ 0 ∷ 0 ∷ 0 ∷ 1 ∷ 1 ∷ 2 ∷ 2 ∷ 3 ∷ 3 ∷ 4 ∷ 4 ∷ 5 ∷ 5 ∷ 6 ∷ 6 ∷ 7 ∷ 7 ∷ 8 ∷ 8 ∷ 9 ∷ 9 ∷ 10 ∷ 10
    ∷ 11 ∷ 11 ∷ 12 ∷ 12 ∷ 13 ∷ 13 ∷ []

abbrev pub code_length_order : List ℕ
code_length_order =
    16 ∷ 17 ∷ 18 ∷ 0 ∷ 8 ∷ 7 ∷ 9 ∷ 6 ∷ 10 ∷ 5 ∷ 11 ∷ 4 ∷ 12 ∷ 3 ∷ 13 ∷ 2 ∷ 14 ∷ 1 ∷ 15 ∷ []

unfoldable pub fixed_lit_lengths : List ℕ
fixed_lit_lengths = replicate 144 8 ++ replicate 112 9 ++ replicate 24 7 ++ replicate 8 8

unfoldable pub build_fixed_huffman_tables : HuffmanTable × HuffmanTable
build_fixed_huffman_tables = (huffman_build fixed_lit_lengths, huffman_build (replicate 30 5))
