-- ===== src/Hmac/Tests.antt =====
-- A key expansion of 48 bytes, a master secret's length.
use aioperatingsystem.Common.{ℕ, ◌≡◌, List, [], ◌∷◌, ◌++◌, arith, take}
use aioperatingsystem.Hmac.{hmac_sha256, tls_prf}
use aioperatingsystem.Hmac.Prf.{p_hash, tls_prf_lem}

abbrev secret_bytes : List ℕ
secret_bytes = 3 ∷ 3 ∷ 7 ∷ 9 ∷ []

abbrev label_bytes : List ℕ
label_bytes = b'm' ∷ b's' ∷ []

abbrev seed_bytes : List ℕ
seed_bytes = 1 ∷ 2 ∷ []

tls_prf_lem_example :
    tls_prf secret_bytes label_bytes seed_bytes 48
    ≡ take 48 (
        p_hash 2 secret_bytes
          (label_bytes ++ seed_bytes)
          (hmac_sha256 secret_bytes (label_bytes ++ seed_bytes)))
tls_prf_lem_example = tls_prf_lem secret_bytes label_bytes seed_bytes 48 2 (omega arith)
