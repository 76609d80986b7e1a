-- ===== src/Rsa/Tests.antt =====
-- Runs of the model of rsa.c, and each theorem at an input.
use aioperatingsystem.Common.{
  ℕ, ◌^◌, ◌%◌, ◌≡◌, ◌<◌, ◌↔◌, refl, List, [], ◌∷◌, true, false, some, length, replicate, arith,
}
use aioperatingsystem.Bignum.{Bignum, bignum_words, bn_zero}
use aioperatingsystem.Bignum.Value.{IsWords, bn_zero-IsWords}
use aioperatingsystem.Bignum.Bytes.ToBytes.{be_value}
use aioperatingsystem.Rsa.{
  padding_bytes, check_rest, skip_ff, starts_as, check_decoded, rsa_verify_pkcs1_sha256,
  rsa_encrypt_pkcs1,
}
use aioperatingsystem.Rsa.Verify.{encoded}
use aioperatingsystem.Rsa.Accept.{replicate-IsBytes, rsa_verify_pkcs1_sha256_lem}
use aioperatingsystem.Rsa.Padding.{unpad, rsa_encrypt_pkcs1_lem}

abbrev clean : ℕ → ℕ → Bignum
clean k i = bn_zero

clean-IsWords : (k i : ℕ) → IsWords bignum_words (clean k i)
clean-IsWords k i = bn_zero-IsWords bignum_words (omega arith)

abbrev hash_of_sevens : List ℕ
hash_of_sevens = replicate 32 7

padding_run : padding_bytes 3 0 0xA5A5A5A5 ≡ 157 ∷ 220 ∷ 30 ∷ []
unfolding padding_bytes
padding_run = refl

good_block : check_decoded hash_of_sevens (encoded 70 hash_of_sevens) ≡ true
unfolding check_decoded check_rest skip_ff starts_as
good_block = refl

other_hash : check_decoded (replicate 32 8) (encoded 70 hash_of_sevens) ≡ false
unfolding check_decoded check_rest skip_ff starts_as
other_hash = refl

rsa_verify_pkcs1_sha256_lem_example :
    (rsa_verify_pkcs1_sha256 clean
        (200 ∷ replicate 63 17)
        (1 ∷ 0 ∷ 1 ∷ [])
        (replicate 64 9)
        hash_of_sevens
      ≡ true)
    ↔ (be_value (replicate 64 9) ^ be_value (1 ∷ 0 ∷ 1 ∷ []) % be_value (200 ∷ replicate 63 17)
        ≡ be_value (encoded 64 hash_of_sevens))
rsa_verify_pkcs1_sha256_lem_example =
    rsa_verify_pkcs1_sha256_lem clean (1 ∷ 0 ∷ 1 ∷ []) (replicate 64 9) hash_of_sevens 200
      (replicate 63 17) clean-IsWords (omega arith, (omega arith, (omega arith, tt)))
      (replicate-IsBytes 64 9 (omega arith)) (replicate-IsBytes 32 7 (omega arith))
      (omega arith, replicate-IsBytes 63 17 (omega arith)) (omega arith) refl refl (omega arith)
      (omega arith) (omega arith)

rsa_encrypt_pkcs1_lem_example :
    (out block : List ℕ) × (rsa_encrypt_pkcs1 clean 5
        (200 ∷ replicate 63 17)
        (3 ∷ [])
        (replicate 48 1)
        64
      ≡ some out)
    × (length block ≡ 64)
    × (be_value out ≡ be_value block ^ be_value (3 ∷ []) % be_value (200 ∷ replicate 63 17))
    × (be_value block < be_value (200 ∷ replicate 63 17))
    × (unpad block ≡ replicate 48 1)
rsa_encrypt_pkcs1_lem_example =
    rsa_encrypt_pkcs1_lem clean 5 (3 ∷ []) (replicate 48 1) 200 (replicate 63 17) clean-IsWords
      (omega arith, tt) (replicate-IsBytes 48 1 (omega arith))
      (omega arith, replicate-IsBytes 63 17 (omega arith)) (omega arith) (omega arith) (omega arith)
      (omega arith)
