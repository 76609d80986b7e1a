-- ===== src/Aes/Rounds.antt =====
-- kernel/aes.c: the rounds of a block, and CBC mode.
use aioperatingsystem.Common.{
  ℕ, zero, suc, ◌+◌, ◌*◌, ◌/◌, List, [], ◌∷◌, ◌++◌, take, drop, length, if◌then◌else◌,
}
use Prim.Native.Nat.{bit_xor}
use aioperatingsystem.Aes.{
  Tables, aes_build_inv_sbox, aes_key_expansion, aes_add_round_key, aes_sub_bytes,
  aes_inv_sub_bytes, aes_shift_rows, aes_inv_shift_rows, aes_mix_columns, aes_inv_mix_columns,
}

-- The words of round `round`.
abbrev pub key_of : (round : ℕ) → (ctx : List ℕ) → List ℕ
key_of round ctx = drop (round * 4) ctx

abbrev pub encrypt_round : (ctx : List ℕ) → (round : ℕ) → List ℕ → List ℕ
encrypt_round ctx round state =
    aes_add_round_key (key_of round ctx) (aes_mix_columns (aes_shift_rows (aes_sub_bytes state)))

-- `n` rounds from round `round` on.
unfoldable pub encrypt_rounds : (ctx : List ℕ) → (n round : ℕ) → List ℕ → List ℕ
encrypt_rounds ctx zero round state = state
encrypt_rounds ctx (suc n) round state =
    encrypt_rounds ctx n (round + 1) (encrypt_round ctx round state)

unfoldable pub aes_encrypt_block : (ctx block : List ℕ) → List ℕ
aes_encrypt_block ctx block =
    let state = encrypt_rounds ctx 9 1 (aes_add_round_key (key_of 0 ctx) block) in
    aes_add_round_key (key_of 10 ctx) (aes_shift_rows (aes_sub_bytes state))

abbrev pub decrypt_round : (inv_sbox ctx : List ℕ) → (round : ℕ) → List ℕ → List ℕ
decrypt_round inv_sbox ctx round state =
    aes_inv_mix_columns
      (aes_add_round_key (key_of round ctx) (aes_inv_sub_bytes inv_sbox (aes_inv_shift_rows state)))

-- Rounds `round` down to 1.
unfoldable pub decrypt_rounds : (inv_sbox ctx : List ℕ) → (round : ℕ) → List ℕ → List ℕ
decrypt_rounds inv_sbox ctx zero state = state
decrypt_rounds inv_sbox ctx (suc round) state =
    decrypt_rounds inv_sbox ctx round (decrypt_round inv_sbox ctx (suc round) state)

unfoldable pub aes_decrypt_block : (inv_sbox ctx block : List ℕ) → List ℕ
aes_decrypt_block inv_sbox ctx block =
    let state = decrypt_rounds inv_sbox ctx 9 (aes_add_round_key (key_of 10 ctx) block) in
    aes_add_round_key (key_of 0 ctx) (aes_inv_sub_bytes inv_sbox (aes_inv_shift_rows state))

-- `a[i] ^ b[i]` for each byte of a block.
abbrev pub xor_block : (a b : List ℕ) → List ℕ
xor_block [] b = []
xor_block (x ∷ a) [] = []
xor_block (x ∷ a) (y ∷ b) = bit_xor x y ∷ xor_block a b

abbrev pub ensure_tables : Tables → Tables
ensure_tables t = if t.ready then t else aes_build_inv_sbox t

-- The loop over `n` blocks of 16 bytes.
unfoldable pub cbc_encrypt_blocks : (ctx : List ℕ) → (n : ℕ) → (prev plaintext : List ℕ) → List ℕ
cbc_encrypt_blocks ctx zero prev plaintext = []
cbc_encrypt_blocks ctx (suc n) prev plaintext =
    let out = aes_encrypt_block ctx (xor_block (take 16 plaintext) prev) in
    out ++ cbc_encrypt_blocks ctx n out (drop 16 plaintext)

-- The callers give whole blocks; `len` is the number of the bytes.
unfoldable pub aes128_cbc_encrypt : (t : Tables) → (key iv plaintext : List ℕ) → Tables × List ℕ
aes128_cbc_encrypt t key iv plaintext = (
  ensure_tables t,
  cbc_encrypt_blocks (aes_key_expansion key) ((length plaintext + 15) / 16) iv plaintext,
)

unfoldable pub cbc_decrypt_blocks :
    (inv_sbox ctx : List ℕ) → (n : ℕ) → (prev ciphertext : List ℕ) → List ℕ
cbc_decrypt_blocks inv_sbox ctx zero prev ciphertext = []
cbc_decrypt_blocks inv_sbox ctx (suc n) prev ciphertext =
    let block = take 16 ciphertext in
    xor_block (aes_decrypt_block inv_sbox ctx block) prev
    ++ cbc_decrypt_blocks inv_sbox ctx n block (drop 16 ciphertext)

unfoldable pub aes128_cbc_decrypt : (t : Tables) → (key iv ciphertext : List ℕ) → Tables × List ℕ
aes128_cbc_decrypt t key iv ciphertext =
    let ready_tables = ensure_tables t in
    (
      ready_tables,
      cbc_decrypt_blocks ready_tables.inv_sbox (aes_key_expansion key)
          ((length ciphertext + 15) / 16) iv ciphertext,
    )
