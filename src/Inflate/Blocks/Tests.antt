-- ===== src/Inflate/Blocks/Tests.antt =====
-- Runs of the decoder on short streams.
use aioperatingsystem.Common.{ℕ, ◌^◌, ◌<◌, ◌≡◌, refl, List, [], ◌∷◌, arith, replicate}
use aioperatingsystem.Inflate.{
  BitReader, br_init, br_read_bits, read_loop, next_bit, step_bit, huffman_decode, decode_loop,
  match_code, build_fixed_huffman_tables, fixed_lit_lengths, huffman_build, count_lengths,
  first_codes, assign_codes,
}
use aioperatingsystem.Inflate.Reader.{AtBit, field, br_read_bits-value}
use aioperatingsystem.Inflate.Blocks.{
  BlockOutcome, done, inflate_block_huffman, decode_symbol, back_reference, copy_back,
}

-- One block with the fixed tables: the letter a ten times, by a back-reference of distance 1.
abbrev ten_letters : List ℕ
ten_letters = 0x4b ∷ 0x4c ∷ 0x84 ∷ 0x01 ∷ 0 ∷ []

br_read_bits-value_example :
    let r = br_read_bits (br_init ten_letters 5) 5 in
    (r.0 ≡ field ten_letters 5 0 5) × (r.0 < 2 ^ 5) × AtBit ten_letters 5 5 r.1
br_read_bits-value_example =
    br_read_bits-value ten_letters 5 0 5 (br_init ten_letters 5)
      (refl, refl, omega arith, omega arith)

-- The reader behind the three bits of the block's header.
abbrev behind_header : BitReader
behind_header = (br_read_bits (br_init ten_letters 5) 3).1

abbrev ten_run : BlockOutcome
ten_run =
    inflate_block_huffman 11 build_fixed_huffman_tables.0 build_fixed_huffman_tables.1 10 []
      behind_header

ten_done :
    ten_run
    ≡ done (replicate 10 b'a') (record { bytes = ten_letters; len = 5; byte_pos = 4; bit_pos = 6 })
unfolding inflate_block_huffman decode_symbol back_reference copy_back huffman_decode decode_loop
    match_code build_fixed_huffman_tables fixed_lit_lengths huffman_build count_lengths first_codes
    assign_codes br_read_bits read_loop next_bit step_bit
ten_done = refl
