-- ===== src/Aes/Cbc.antt =====
-- kernel/aes.c: the way back from an encrypted block, and from a message in CBC mode.
use aioperatingsystem.Common.{
  ℕ, zero, suc, ◌+◌, ◌*◌, ◌/◌, ◌%◌, ◌<◌, ◌≡◌, refl, sym, ap, ap₂, ◌∙◌, List, [], ◌∷◌, ◌++◌, take,
  drop, length, length-take, length-drop, take-append-drop, length-append, take_front, drop_front,
  All-take, All-drop, arith, ◌⊎◌, inl, inr,
}
use aioperatingsystem.Aes.{
  Tables, initial_tables, aes_build_inv_sbox, aes_key_expansion, aes_add_round_key, aes_sub_bytes,
  aes_inv_sub_bytes, aes_shift_rows, aes_inv_shift_rows, aes_mix_columns, aes_inv_mix_columns,
}
use aioperatingsystem.Aes.Rounds.{
  key_of, encrypt_round, encrypt_rounds, aes_encrypt_block, decrypt_round, decrypt_rounds,
  aes_decrypt_block, xor_block, ensure_tables, cbc_encrypt_blocks, aes128_cbc_encrypt,
  cbc_decrypt_blocks, aes128_cbc_decrypt,
}
use aioperatingsystem.Aes.Steps.{
  AllBytes, IsState, inv_table, shift_rows_undone, shift_rows-IsState, mix_columns_undone,
  mix_columns-IsState, sub_bytes_undone, sub_bytes-IsState, add_round_key_undone,
  add_round_key-IsState, xor_block-IsState, xor_block_undone,
}

-- Substituting and shifting, with which every round begins.
abbrev scramble : List ℕ → List ℕ
scramble s = aes_shift_rows (aes_sub_bytes s)

abbrev unscramble : List ℕ → List ℕ
unscramble s = aes_inv_sub_bytes inv_table (aes_inv_shift_rows s)

scramble_undone : (s : List ℕ) → IsState s → unscramble (scramble s) ≡ s
scramble_undone s v =
    ap (aes_inv_sub_bytes inv_table) (shift_rows_undone (aes_sub_bytes s) (sub_bytes-IsState s v))
    ∙ sub_bytes_undone s v

scramble-IsState : (s : List ℕ) → IsState s → IsState (scramble s)
scramble-IsState s v = shift_rows-IsState (aes_sub_bytes s) (sub_bytes-IsState s v)

module _ (ctx : List ℕ) where
  encrypt_round-IsState : (round : ℕ) (s : List ℕ) → IsState s → IsState (encrypt_round ctx round s)
  encrypt_round-IsState round s v =
      add_round_key-IsState (key_of round ctx) (aes_mix_columns (scramble s))
        (mix_columns-IsState (scramble s) (scramble-IsState s v))

  encrypt_rounds-IsState :
      (n round : ℕ) (s : List ℕ) → IsState s → IsState (encrypt_rounds ctx n round s)
  unfolding encrypt_rounds
  encrypt_rounds-IsState zero round s v = v
  encrypt_rounds-IsState (suc n) round s v =
      encrypt_rounds-IsState n (round + 1) (encrypt_round ctx round s)
        (encrypt_round-IsState round s v)

  -- The last of the rounds apart.
  encrypt_rounds_last :
      (n round : ℕ) (s : List ℕ)
      → encrypt_rounds ctx (suc n) round s
        ≡ encrypt_round ctx (round + n) (encrypt_rounds ctx n round s)
  unfolding encrypt_rounds
  encrypt_rounds_last zero round s = ap (λ (r : ℕ). encrypt_round ctx r s) (omega arith)
  encrypt_rounds_last (suc n) round s =
      encrypt_rounds_last n (round + 1) (encrypt_round ctx round s)
      ∙ ap
          (λ (r : ℕ).
            encrypt_round ctx r (encrypt_rounds ctx n (round + 1) (encrypt_round ctx round s)))
          (omega arith)

  round_undone :
      (round : ℕ) (s : List ℕ)
      → IsState s
      → decrypt_round inv_table ctx round (scramble (encrypt_round ctx round s)) ≡ scramble s
  round_undone round s v =
      let mixed = aes_mix_columns (scramble s) in
      let is_mixed : IsState mixed = mix_columns-IsState (scramble s) (scramble-IsState s v) in
      ap (λ (t : List ℕ). aes_inv_mix_columns (aes_add_round_key (key_of round ctx) t))
        (scramble_undone (encrypt_round ctx round s) (encrypt_round-IsState round s v))
      ∙ ap aes_inv_mix_columns (add_round_key_undone (key_of round ctx) mixed is_mixed)
      ∙ mix_columns_undone (scramble s) (scramble-IsState s v)

  rounds_undone :
      (n : ℕ) (s : List ℕ)
      → IsState s
      → decrypt_rounds inv_table ctx n (scramble (encrypt_rounds ctx n 1 s)) ≡ scramble s
  unfolding decrypt_rounds encrypt_rounds
  rounds_undone zero s v = refl
  rounds_undone (suc n) s v =
      let before = encrypt_rounds ctx n 1 s in
      let count : 1 + n ≡ suc n = omega arith in
      ap (λ (t : List ℕ). decrypt_rounds inv_table ctx (suc n) (scramble t))
        (encrypt_rounds_last n 1 s ∙ ap (λ (r : ℕ). encrypt_round ctx r before) count)
      ∙ ap (decrypt_rounds inv_table ctx n)
          (round_undone (suc n) before (encrypt_rounds-IsState n 1 s v))
      ∙ rounds_undone n s v

  encrypt_block-IsState : (s : List ℕ) → IsState s → IsState (aes_encrypt_block ctx s)
  unfolding aes_encrypt_block
  encrypt_block-IsState s v =
      let start = aes_add_round_key (key_of 0 ctx) s in
      let last = encrypt_rounds ctx 9 1 start in
      add_round_key-IsState (key_of 10 ctx) (scramble last) (
        scramble-IsState last
          (encrypt_rounds-IsState 9 1 start (add_round_key-IsState (key_of 0 ctx) s v)))

  pub decrypt_block-encrypt_block :
      (s : List ℕ) → IsState s → aes_decrypt_block inv_table ctx (aes_encrypt_block ctx s) ≡ s
  unfolding aes_encrypt_block aes_decrypt_block
  decrypt_block-encrypt_block s v =
      let start = aes_add_round_key (key_of 0 ctx) s in
      let is_start : IsState start = add_round_key-IsState (key_of 0 ctx) s v in
      let last = encrypt_rounds ctx 9 1 start in
      ap
        (λ (t : List ℕ).
          aes_add_round_key (key_of 0 ctx) (unscramble (decrypt_rounds inv_table ctx 9 t)))
        (add_round_key_undone (key_of 10 ctx) (scramble last)
          (scramble-IsState last (encrypt_rounds-IsState 9 1 start is_start)))
      ∙ ap (λ (t : List ℕ). aes_add_round_key (key_of 0 ctx) (unscramble t))
          (rounds_undone 9 start is_start)
      ∙ ap (aes_add_round_key (key_of 0 ctx)) (scramble_undone start is_start)
      ∙ add_round_key_undone (key_of 0 ctx) s v

  first_block :
      (n : ℕ) (prev plain : List ℕ)
      → IsState prev
      → AllBytes plain
      → length plain ≡ suc n * 16
      → IsState (xor_block (take 16 plain) prev)
  first_block n prev plain p b e =
      xor_block-IsState (take 16 plain) prev
        (omega (arith, length-take 16 plain), All-take (λ x. x < 256) 16 plain b) p

  -- The blocks of a message, `n` of them.
  length-cbc_encrypt_blocks :
      (n : ℕ) (prev plain : List ℕ)
      → IsState prev
      → AllBytes plain
      → length plain ≡ n * 16
      → length (cbc_encrypt_blocks ctx n prev plain) ≡ n * 16
  unfolding cbc_encrypt_blocks
  length-cbc_encrypt_blocks zero prev plain p b e = refl
  length-cbc_encrypt_blocks (suc n) prev plain p b e =
      let block = xor_block (take 16 plain) prev in
      let out = aes_encrypt_block ctx block in
      let is_out = encrypt_block-IsState block (first_block n prev plain p b e) in
      omega (
        arith,
        length-append out (cbc_encrypt_blocks ctx n out (drop 16 plain)),
        is_out.0,
        length-cbc_encrypt_blocks n out (drop 16 plain) is_out (All-drop (λ x. x < 256) 16 plain b)
            (omega (arith, length-drop 16 plain)),
      )

  cbc_blocks_undone :
      (n : ℕ) (prev plain : List ℕ)
      → IsState prev
      → AllBytes plain
      → length plain ≡ n * 16
      → cbc_decrypt_blocks inv_table ctx n prev (cbc_encrypt_blocks ctx n prev plain) ≡ plain
  unfolding cbc_encrypt_blocks cbc_decrypt_blocks
  cbc_blocks_undone zero prev [] p b e = refl
  cbc_blocks_undone zero prev (x ∷ plain) p b e = absurd (omega arith)
  cbc_blocks_undone (suc n) prev plain p b e =
      let front = take 16 plain in
      let block = xor_block front prev in
      let out = aes_encrypt_block ctx block in
      let is_block = first_block n prev plain p b e in
      let is_out = encrypt_block-IsState block is_block in
      let rest = cbc_encrypt_blocks ctx n out (drop 16 plain) in
      ap₂
        (λ (c r : List ℕ).
          xor_block (aes_decrypt_block inv_table ctx c) prev
          ++ cbc_decrypt_blocks inv_table ctx n c r)
        (take_front out rest 16 is_out.0) (drop_front out rest 16 is_out.0)
      ∙ ap₂ (λ (f r : List ℕ). f ++ r)
          (ap (λ (t : List ℕ). xor_block t prev) (decrypt_block-encrypt_block block is_block)
            ∙ xor_block_undone front prev (omega (arith, length-take 16 plain, p.0)))
          (cbc_blocks_undone n out (drop 16 plain) is_out (All-drop (λ x. x < 256) 16 plain b)
            (omega (arith, length-drop 16 plain)))
      ∙ take-append-drop 16 plain

-- The table of the program is unset or built.
abbrev pub ValidTables : Tables → Type 0
ValidTables t = (t ≡ initial_tables) ⊎ (t ≡ aes_build_inv_sbox initial_tables)

ensure_tables_lem :
    (t : Tables) → ValidTables t → ensure_tables t ≡ aes_build_inv_sbox initial_tables
unfolding aes_build_inv_sbox
ensure_tables_lem t (inl e) = ap ensure_tables e
ensure_tables_lem t (inr e) = ap ensure_tables e

-- Whatever the key is: the bytes of whole blocks, encrypted with an initial vector of 16 bytes and then
-- decrypted with the same key and vector, come back; the table is then built, and the text is as long
-- as the message.
pub cbc_decrypt-encrypt :
    (t : Tables) (key iv plaintext : List ℕ)
    → ValidTables t
    → IsState iv
    → AllBytes plaintext
    → length plaintext % 16 ≡ 0
    → let encrypted = aes128_cbc_encrypt t key iv plaintext in
      (aes128_cbc_decrypt encrypted.0 key iv encrypted.1
        ≡ (aes_build_inv_sbox initial_tables, plaintext))
      × (length encrypted.1 ≡ length plaintext)
unfolding aes128_cbc_encrypt aes128_cbc_decrypt
cbc_decrypt-encrypt t key iv plaintext valid v b whole =
    let ctx = aes_key_expansion key in
    let n = (length plaintext + 15) / 16 in
    let encrypted = cbc_encrypt_blocks ctx n iv plaintext in
    let len : length plaintext ≡ n * 16 = omega arith in
    let out_len : length encrypted ≡ n * 16 =
      length-cbc_encrypt_blocks ctx n iv plaintext v b len in
    let built = aes_build_inv_sbox initial_tables in
    let again : ensure_tables (ensure_tables t) ≡ built =
      ap ensure_tables (ensure_tables_lem t valid) ∙ ensure_tables_lem built (inr refl) in
    (
      ap₂ (λ (u : Tables) (k : ℕ). (u, cbc_decrypt_blocks u.inv_sbox ctx k iv encrypted)) again
            (ap (λ (l : ℕ). (l + 15) / 16) (out_len ∙ sym len))
          ∙ ap (λ (o : List ℕ). (built, o)) (cbc_blocks_undone ctx n iv plaintext v b len),
      out_len ∙ sym len,
    )
