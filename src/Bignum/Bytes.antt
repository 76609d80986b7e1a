-- ===== src/Bignum/Bytes.antt =====
-- kernel/bignum.c: bytes in and out, and the entry points on byte buffers. A buffer is the list of
-- its bytes, so its length parameter is the length of that list; `none` is the return of false.
pub mod FromBytes
pub mod ToBytes
pub mod Modulus
pub mod Unique
pub mod Api
use Prim.Native.Nat.{bit_or}
use mathlib.Core.List.{reverse}
use aioperatingsystem.Common.{
  ℕ, zero, suc, ◌+◌, ◌*◌, ◌/◌, ◌%◌, ◌-◌, Bool, true, false, ◌||◌, Option, none, some, List, [], ◌∷◌,
  ltb, ◌==◌, if◌then◌else◌, u8, u32, ◌<<<◌, ◌>>>◌, get_or, set, length,
}
use aioperatingsystem.Bignum.{
  Bignum, bignum_words, bn_zero, bn_cmp, is_ge, bn_is_zero, bn_sub, bn_add, bn_mulmod_w,
}
use aioperatingsystem.Bignum.Value.{value}
use aioperatingsystem.Bignum.Exp.{bn_bit_length, bn_sig_words, reduce_below, bn_modexp}

-- The loop of `bn_from_bytes` over the bytes from the last one back.
pub from_bytes_loop : List ℕ → ℕ → ℕ → Bignum → Bignum
from_bytes_loop [] word_index shift a = a
from_bytes_loop (byte ∷ bytes) word_index shift a =
    let written = set a word_index (bit_or (get_or a word_index 0) (u32 (byte <<< shift))) in
    let rest =
      from_bytes_loop bytes (if shift + 8 == 32 then word_index + 1 else word_index)
        (if shift + 8 == 32 then 0 else shift + 8) written in
    if ltb word_index bignum_words then rest else a

pub bn_from_bytes : List ℕ → Bignum
bn_from_bytes bytes = from_bytes_loop (reverse bytes) 0 0 bn_zero

-- The byte that `bn_to_bytes` takes at `pos` bytes from the end.
pub byte_of : Bignum → ℕ → ℕ
byte_of a pos =
    if ltb (pos / 4) bignum_words then u8 (get_or a (pos / 4) 0 >>> (pos % 4 * 8)) else 0

-- `out_len` bytes, the first of which is `out_len - 1` bytes from the end.
pub bn_to_bytes : Bignum → ℕ → List ℕ
bn_to_bytes a zero = []
bn_to_bytes a (suc pos) = byte_of a pos ∷ bn_to_bytes a pos

-- The tests of lengths with which every entry point begins, one buffer at a time.
abbrev pub too_long : ℕ → Bool
too_long len = ltb (bignum_words * 4) len

-- `junk` is what the stack holds in the calls of `bn_mulmod_w` (see there).
pub bignum_modexp_bytes : (ℕ → ℕ → Bignum) → List ℕ → List ℕ → List ℕ → ℕ → Option (List ℕ)
bignum_modexp_bytes junk message exponent modulus out_len =
    if too_long (length message)
      || too_long (length exponent)
      || too_long (length modulus)
      || too_long out_len
    then none
    else (let m = bn_from_bytes modulus in
        let base = bn_from_bytes message in
        let exp = bn_from_bytes exponent in
        if bn_is_zero m then none else some (bn_to_bytes (bn_modexp junk base exp m) out_len))

-- `while (bn_cmp(&a, &m) >= 0) bn_sub(&a, &a, &m);`
abbrev reduce_full : Bignum → Bignum → Bignum
reduce_full m a = reduce_below m bignum_words a

-- `sum` is what the struct `sum` holds before.
unfoldable pub bignum_addmod_bytes : Bignum → List ℕ → List ℕ → List ℕ → ℕ → Option (List ℕ)
bignum_addmod_bytes sum a b modulus out_len =
    if too_long (length a) || too_long (length b) || too_long (length modulus) || too_long out_len
    then none
    else (let m = bn_from_bytes modulus in
        if bn_is_zero m
        then none
        else (let ba = reduce_full m (bn_from_bytes a) in
            let bb = reduce_full m (bn_from_bytes b) in
            let total = bn_add sum ba bb in
            some (
              bn_to_bytes (if is_ge (bn_cmp total m) then bn_sub total total m else total)
                out_len)))

-- `diff` and `tmp` are what those structs hold before.
unfoldable pub bignum_submod_bytes :
    Bignum → Bignum → List ℕ → List ℕ → List ℕ → ℕ → Option (List ℕ)
bignum_submod_bytes diff tmp a b modulus out_len =
    if too_long (length a) || too_long (length b) || too_long (length modulus) || too_long out_len
    then none
    else (let m = bn_from_bytes modulus in
        if bn_is_zero m
        then none
        else (let ba = reduce_full m (bn_from_bytes a) in
            let bb = reduce_full m (bn_from_bytes b) in
            some (
              bn_to_bytes
                (if is_ge (bn_cmp ba bb)
                  then bn_sub diff ba bb
                  else bn_sub diff (bn_add tmp ba m) bb)
                out_len)))

pub bignum_mulmod_bytes : (ℕ → Bignum) → List ℕ → List ℕ → List ℕ → ℕ → Option (List ℕ)
bignum_mulmod_bytes junk a b modulus out_len =
    if too_long (length a) || too_long (length b) || too_long (length modulus) || too_long out_len
    then none
    else (let m = bn_from_bytes modulus in
        if bn_is_zero m
        then none
        else (let words = bn_sig_words (bn_bit_length m) in
            let ba = reduce_below m words (bn_from_bytes a) in
            let bb = reduce_below m words (bn_from_bytes b) in
            some (bn_to_bytes (bn_mulmod_w junk m words ba bb) out_len)))

-- `exp` is what the struct `exp` holds before.
unfoldable pub bignum_invmod_bytes :
    (ℕ → ℕ → Bignum) → Bignum → List ℕ → List ℕ → ℕ → Option (List ℕ)
bignum_invmod_bytes junk exp a modulus out_len =
    if too_long (length a) || too_long (length modulus) || too_long out_len
    then none
    else (let m = bn_from_bytes modulus in
        let base = bn_from_bytes a in
        if bn_is_zero m
        then none
        else (let less_two = bn_sub exp m (set bn_zero 0 2) in
            some (bn_to_bytes (bn_modexp junk base less_two m) out_len)))
