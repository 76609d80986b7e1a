-- ===== src/Hmac.antt =====
-- kernel/hmac.c: HMAC-SHA256 and the TLS 1.2 key expansion. The fixed buffers of the code are long enough
-- for its callers; their bounds are not modelled.
pub mod Prf
mod Tests
use aioperatingsystem.Common.{
  ℕ, zero, suc, ◌-◌, min, List, [], ◌++◌, map, ltb, ◌==◌, if◌then◌else◌, take, length, replicate,
  u8,
}
use Prim.Native.Nat.{bit_xor}
use aioperatingsystem.Sha256.{sha256}

-- A long key is hashed first.
unfoldable pub key_block : List ℕ → List ℕ
key_block key =
    if ltb 64 (length key)
    then sha256 key ++ replicate 32 0
    else key ++ replicate (64 - length key) 0

abbrev pub xor_pad : ℕ → List ℕ → List ℕ
xor_pad pad block = map (λ b. u8 (bit_xor b pad)) block

pub hmac_sha256 : (key bytes : List ℕ) → List ℕ
hmac_sha256 key bytes =
    sha256 (xor_pad 0x5c (key_block key) ++ sha256 (xor_pad 0x36 (key_block key) ++ bytes))

-- The loop of `tls_prf` with the bytes that are still wanted; each round gives one at least.
pub prf_loop : (fuel : ℕ) → (secret label_seed a : List ℕ) → (left : ℕ) → List ℕ
prf_loop zero secret label_seed a left = []
prf_loop (suc fuel) secret label_seed a left =
    let chunk = hmac_sha256 secret (a ++ label_seed) in
    let rest = prf_loop fuel secret label_seed (hmac_sha256 secret a) (left - min left 32) in
    if left == 0 then [] else take (min left 32) chunk ++ rest

pub tls_prf : (secret label seed : List ℕ) → (out_len : ℕ) → List ℕ
tls_prf secret label seed out_len =
    let label_seed = label ++ seed in
    prf_loop out_len secret label_seed (hmac_sha256 secret label_seed) out_len
