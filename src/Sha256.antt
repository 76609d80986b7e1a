-- ===== src/Sha256.antt =====
-- kernel/sha256.c: the compression function on 32-bit words, the padding of the last blocks and the
-- digest. `~e` is the difference to the word of ones.
pub mod Padding
mod Tests
use aioperatingsystem.Common.{
  ◌≡◌, refl, ℕ, zero, suc, ◌+◌, ◌-◌, ◌*◌, ◌/◌, ◌%◌, ◌^◌, List, [], ◌∷◌, ◌++◌, leb, if◌then◌else◌,
  get_or, take, drop, length, replicate, u8, u32, ◌<<<◌, ◌>>>◌,
}
use Prim.Native.Nat.{bit_and, bit_or, bit_xor}

abbrev pub sha256_k : List ℕ
sha256_k =
    0x428a2f98 ∷ 0x71374491 ∷ 0xb5c0fbcf ∷ 0xe9b5dba5 ∷ 0x3956c25b ∷ 0x59f111f1 ∷ 0x923f82a4
    ∷ 0xab1c5ed5 ∷ 0xd807aa98 ∷ 0x12835b01 ∷ 0x243185be ∷ 0x550c7dc3 ∷ 0x72be5d74 ∷ 0x80deb1fe
    ∷ 0x9bdc06a7 ∷ 0xc19bf174 ∷ 0xe49b69c1 ∷ 0xefbe4786 ∷ 0x0fc19dc6 ∷ 0x240ca1cc ∷ 0x2de92c6f
    ∷ 0x4a7484aa ∷ 0x5cb0a9dc ∷ 0x76f988da ∷ 0x983e5152 ∷ 0xa831c66d ∷ 0xb00327c8 ∷ 0xbf597fc7
    ∷ 0xc6e00bf3 ∷ 0xd5a79147 ∷ 0x06ca6351 ∷ 0x14292967 ∷ 0x27b70a85 ∷ 0x2e1b2138 ∷ 0x4d2c6dfc
    ∷ 0x53380d13 ∷ 0x650a7354 ∷ 0x766a0abb ∷ 0x81c2c92e ∷ 0x92722c85 ∷ 0xa2bfe8a1 ∷ 0xa81a664b
    ∷ 0xc24b8b70 ∷ 0xc76c51a3 ∷ 0xd192e819 ∷ 0xd6990624 ∷ 0xf40e3585 ∷ 0x106aa070 ∷ 0x19a4c116
    ∷ 0x1e376c08 ∷ 0x2748774c ∷ 0x34b0bcb5 ∷ 0x391c0cb3 ∷ 0x4ed8aa4a ∷ 0x5b9cca4f ∷ 0x682e6ff3
    ∷ 0x748f82ee ∷ 0x78a5636f ∷ 0x84c87814 ∷ 0x8cc70208 ∷ 0x90befffa ∷ 0xa4506ceb ∷ 0xbef9a3f7
    ∷ 0xc67178f2 ∷ []

abbrev pub rotr32 : ℕ → ℕ → ℕ
rotr32 x n = bit_or (x >>> n) (u32 (x <<< (32 - n)))

abbrev xor3 : ℕ → ℕ → ℕ → ℕ
xor3 a b c = bit_xor (bit_xor a b) c

-- Four bytes from byte `i` on, the first of them the highest.
abbrev pub word_at : List ℕ → ℕ → ℕ
word_at block i =
    bit_or
      (bit_or (bit_or (get_or block i 0 <<< 24) (get_or block (i + 1) 0 <<< 16))
        (get_or block (i + 2) 0 <<< 8))
      (get_or block (i + 3) 0)

-- `w[0]` to `w[15]`, `n` words from word `i` on.
unfoldable pub block_words : (n i : ℕ) → List ℕ → List ℕ
block_words zero i block = []
block_words (suc n) i block = word_at block (i * 4) ∷ block_words n (i + 1) block

-- `w[16]` to `w[63]`, `n` words from word `i` on.
unfoldable pub extend_words : (n i : ℕ) → List ℕ → List ℕ
extend_words zero i w = w
extend_words (suc n) i w =
    let w15 = get_or w (i - 15) 0 in
    let w2 = get_or w (i - 2) 0 in
    let s0 = xor3 (rotr32 w15 7) (rotr32 w15 18) (w15 >>> 3) in
    let s1 = xor3 (rotr32 w2 17) (rotr32 w2 19) (w2 >>> 10) in
    extend_words n (i + 1) (w ++ (u32 (get_or w (i - 16) 0 + s0 + get_or w (i - 7) 0 + s1) ∷ []))

-- The eight words of a state or of the working variables.
pub record State : Type 0 where
  pub a : ℕ
  pub b : ℕ
  pub c : ℕ
  pub d : ℕ
  pub e : ℕ
  pub f : ℕ
  pub g : ℕ
  pub h : ℕ

unfoldable pub sha256_round : State → (k w : ℕ) → State
sha256_round s k w =
    let s1 = xor3 (rotr32 s.e 6) (rotr32 s.e 11) (rotr32 s.e 25) in
    let ch = bit_xor (bit_and s.e s.f) (bit_and (2 ^ 32 - 1 - s.e) s.g) in
    let temp1 = u32 (s.h + s1 + ch + k + w) in
    let s0 = xor3 (rotr32 s.a 2) (rotr32 s.a 13) (rotr32 s.a 22) in
    let maj = xor3 (bit_and s.a s.b) (bit_and s.a s.c) (bit_and s.b s.c) in
    let temp2 = u32 (s0 + maj) in
    record {
      h = s.g;
      g = s.f;
      f = s.e;
      e = u32 (s.d + temp1);
      d = s.c;
      c = s.b;
      b = s.a;
      a = u32 (temp1 + temp2);
    }

-- The rounds, one for each constant and word.
unfoldable pub sha256_rounds : State → (ks ws : List ℕ) → State
sha256_rounds s [] ws = s
sha256_rounds s (k ∷ ks) [] = s
sha256_rounds s (k ∷ ks) (w ∷ ws) = sha256_rounds (sha256_round s k w) ks ws

unfoldable pub sha256_transform : State → (block : List ℕ) → State
sha256_transform s block =
    let t = sha256_rounds s sha256_k (extend_words 48 16 (block_words 16 0 block)) in
    record {
      a = u32 (s.a + t.a);
      b = u32 (s.b + t.b);
      c = u32 (s.c + t.c);
      d = u32 (s.d + t.d);
      e = u32 (s.e + t.e);
      f = u32 (s.f + t.f);
      g = u32 (s.g + t.g);
      h = u32 (s.h + t.h);
    }

abbrev pub initial_state : State
initial_state = record {
  a = 0x6a09e667;
  b = 0xbb67ae85;
  c = 0x3c6ef372;
  d = 0xa54ff53a;
  e = 0x510e527f;
  f = 0x9b05688c;
  g = 0x1f83d9ab;
  h = 0x5be0cd19;
}

-- The first `n` blocks of the bytes.
pub transform_blocks : (n : ℕ) → List ℕ → State → State
transform_blocks zero bytes s = s
transform_blocks (suc n) bytes s =
    transform_blocks n (drop 64 bytes) (sha256_transform s (take 64 bytes))

-- `n` bytes of a number, the highest of them first.
pub big_endian : (n value : ℕ) → List ℕ
big_endian zero value = []
big_endian (suc n) value = u8 (value / 2 ^ (8 * n)) ∷ big_endian n value

abbrev pub word_bytes : ℕ → List ℕ
word_bytes w = big_endian 4 w

pub digest : State → List ℕ
digest s =
    word_bytes s.a
    ++ word_bytes s.b
    ++ word_bytes s.c
    ++ word_bytes s.d
    ++ word_bytes s.e
    ++ word_bytes s.f
    ++ word_bytes s.g
    ++ word_bytes s.h

abbrev pub pad_to : (after_marker : ℕ) → ℕ
pad_to after_marker = if leb after_marker 56 then 56 else 120

-- The last one or two blocks: what is left of the bytes, the marker, zeros and the length in bits.
pub tail_of : (rest : List ℕ) → (len : ℕ) → List ℕ
tail_of rest len =
    let after_marker = length rest + 1 in
    rest ++ (0x80 ∷ replicate (pad_to after_marker - after_marker) 0 ++ big_endian 8 (len * 8))

pub sha256 : (bytes : List ℕ) → List ℕ
sha256 bytes =
    let len = length bytes in
    let full_blocks = len / 64 in
    let rest = drop (full_blocks * 64) bytes in
    digest (
      transform_blocks ((pad_to (length rest + 1) + 8) / 64) (tail_of rest len)
        (transform_blocks full_blocks bytes initial_state))

length-digest : (s : State) → length (digest s) ≡ 32
unfolding digest big_endian
length-digest s = refl

pub length-sha256 : (bytes : List ℕ) → length (sha256 bytes) ≡ 32
unfolding sha256
length-sha256 bytes = length-digest _
