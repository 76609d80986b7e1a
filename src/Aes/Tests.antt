-- ===== src/Aes/Tests.antt =====
-- The block of FIPS 197, Appendix C.1.
use aioperatingsystem.Common.{◌≡◌, refl, inl, [], ◌∷◌, ◌++◌, List, ℕ, length, arith}
use aioperatingsystem.Aes.{
  key_words, expand_words, next_word, aes_sub_word, aes_rot_word, aes_key_expansion, gf_mul,
  gf_mul_loop, add_key_columns, aes_add_round_key, substitute, aes_sub_bytes, shift_cells,
  aes_shift_rows, Tables, initial_tables, aes_build_inv_sbox, mix0, mix1, mix2, mix3, mix_from,
  aes_mix_columns,
}
use aioperatingsystem.Aes.Rounds.{
  encrypt_rounds, aes_encrypt_block, aes128_cbc_encrypt, aes128_cbc_decrypt,
}
use aioperatingsystem.Aes.Cbc.{cbc_decrypt-encrypt}

abbrev key : List ℕ
key = 0 ∷ 1 ∷ 2 ∷ 3 ∷ 4 ∷ 5 ∷ 6 ∷ 7 ∷ 8 ∷ 9 ∷ 10 ∷ 11 ∷ 12 ∷ 13 ∷ 14 ∷ 15 ∷ []

abbrev plain : List ℕ
plain =
    0x00 ∷ 0x11 ∷ 0x22 ∷ 0x33 ∷ 0x44 ∷ 0x55 ∷ 0x66 ∷ 0x77 ∷ 0x88 ∷ 0x99 ∷ 0xaa ∷ 0xbb ∷ 0xcc ∷ 0xdd
    ∷ 0xee ∷ 0xff ∷ []

published_block :
    aes_encrypt_block (aes_key_expansion key) plain
    ≡ 0x69 ∷ 0xc4 ∷ 0xe0 ∷ 0xd8 ∷ 0x6a ∷ 0x7b ∷ 0x04 ∷ 0x30 ∷ 0xd8 ∷ 0xcd ∷ 0xb7 ∷ 0x80 ∷ 0x70
      ∷ 0xb4 ∷ 0xc5 ∷ 0x5a ∷ []
unfolding aes_encrypt_block encrypt_rounds aes_key_expansion expand_words key_words next_word
    aes_sub_word aes_rot_word gf_mul gf_mul_loop add_key_columns aes_add_round_key substitute
    aes_sub_bytes shift_cells aes_shift_rows mix0 mix1 mix2 mix3 mix_from aes_mix_columns
published_block = refl

-- Two blocks under a vector.
abbrev encrypted : Tables × List ℕ
encrypted = aes128_cbc_encrypt initial_tables key plain (key ++ plain)

cbc_decrypt-encrypt_example :
    (aes128_cbc_decrypt encrypted.0 key plain encrypted.1
      ≡ (aes_build_inv_sbox initial_tables, key ++ plain))
    × (length encrypted.1 ≡ 32)
cbc_decrypt-encrypt_example =
    cbc_decrypt-encrypt initial_tables key plain (key ++ plain) (inl refl) (omega arith)
      (omega arith) refl
