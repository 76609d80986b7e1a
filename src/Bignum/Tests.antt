-- ===== src/Bignum/Tests.antt =====
-- Runs of the model of bignum.c, and each theorem at an input.
use Prim.Native.Nat.{compare}
use aioperatingsystem.Common.{ℕ, ◌+◌, ◌*◌, ◌^◌, ◌%◌, ◌≡◌, ◌<◌, List, [], ◌∷◌, some, arith, get_or}
use aioperatingsystem.Bignum.{Bignum, bignum_words, bn_zero, bn_mulmod_w, bn_cmp_w, add_reduce}
use aioperatingsystem.Bignum.Value.{value, IsWords, bn_zero-IsWords}
use aioperatingsystem.Bignum.Leak.{add_reduce_leak}
use aioperatingsystem.Bignum.Mulmod.{bn_mulmod_w-value}
use aioperatingsystem.Bignum.Compare.{bn_cmp_w-value}
use aioperatingsystem.Bignum.Bytes.{bignum_modexp_bytes, bignum_mulmod_bytes}
use aioperatingsystem.Bignum.Bytes.ToBytes.{be_value}
use aioperatingsystem.Bignum.Bytes.Api.{bignum_modexp_bytes-value, bignum_mulmod_bytes-value}

abbrev clear_junk : ℕ → ℕ → Bignum
clear_junk k i = bn_zero

clear_junk-IsWords : (k i : ℕ) → IsWords bignum_words (clear_junk k i)
clear_junk-IsWords k i = bn_zero-IsWords bignum_words (omega arith)

small_IsWords : (n : ℕ) → n < 2 ^ 32 → IsWords 1 (n ∷ [])
small_IsWords n h = (h, tt)

bn_cmp_w-value_example :
    bn_cmp_w (5 ∷ 7 ∷ []) (6 ∷ 7 ∷ []) 2 ≡ compare (5 + 2 ^ 32 * 7) (6 + 2 ^ 32 * 7)
bn_cmp_w-value_example = bn_cmp_w-value 2 (5 ∷ 7 ∷ []) (6 ∷ 7 ∷ []) (omega arith) (omega arith)

bn_mulmod_w-value_example :
    IsWords 1 (bn_mulmod_w (clear_junk 0) (497 ∷ []) 1 (400 ∷ []) (9 ∷ []))
    × (value 1 (bn_mulmod_w (clear_junk 0) (497 ∷ []) 1 (400 ∷ []) (9 ∷ [])) ≡ 400 * 9 % 497)
bn_mulmod_w-value_example =
    bn_mulmod_w-value (clear_junk 0) (497 ∷ []) 1 (small_IsWords 497 (omega arith)) (omega arith)
      (λ i. bn_zero-IsWords 1 (omega arith)) (400 ∷ []) (9 ∷ []) (small_IsWords 400 (omega arith))
      (small_IsWords 9 (omega arith)) (omega arith) (omega arith)

bignum_modexp_bytes-value_example :
    (out : List ℕ) × (bignum_modexp_bytes clear_junk (4 ∷ []) (13 ∷ []) (1 ∷ 241 ∷ []) 2 ≡ some out)
    × (be_value out ≡ 4 ^ 13 % 497)
bignum_modexp_bytes-value_example =
    bignum_modexp_bytes-value clear_junk (4 ∷ []) (13 ∷ []) 1 (241 ∷ []) clear_junk-IsWords
      (omega arith) (omega arith) (omega arith) (omega arith) (omega arith) (omega arith)
      (omega arith) (omega arith)

bignum_mulmod_bytes-value_example :
    (out : List ℕ) × (bignum_mulmod_bytes (clear_junk 0) (200 ∷ []) (99 ∷ []) (1 ∷ 241 ∷ []) 2
      ≡ some out)
    × (be_value out ≡ 200 * 99 % 497)
bignum_mulmod_bytes-value_example =
    bignum_mulmod_bytes-value (clear_junk 0) (200 ∷ []) (99 ∷ []) 1 (241 ∷ [])
      (clear_junk-IsWords 0) (omega arith) (omega arith) (omega arith) (omega arith) (omega arith)
      (omega arith) (omega arith) (omega arith)

-- The words above the modulus's own show what the stack held.
abbrev dirty : ℕ → Bignum
dirty i = 170 ∷ 170 ∷ []

add_reduce_leak_example :
    get_or (add_reduce (dirty 0) (7 ∷ 0 ∷ []) 1 (3 ∷ 0 ∷ []) (2 ∷ 0 ∷ [])) 1 0 ≡ 170
add_reduce_leak_example =
    add_reduce_leak (7 ∷ 0 ∷ []) 1 1 (dirty 0) (3 ∷ 0 ∷ []) (2 ∷ 0 ∷ []) (omega arith)
