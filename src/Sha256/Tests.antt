-- ===== src/Sha256/Tests.antt =====
-- The published test vector, and a message that needs two blocks of padding.
use aioperatingsystem.Common.{◌/◌, ◌%◌, ◌≡◌, refl, [], ◌∷◌, length, replicate}
use aioperatingsystem.Sha256.{
  tail_of, sha256_transform, sha256_rounds, sha256_round, block_words, extend_words, big_endian,
  initial_state, transform_blocks, digest, sha256,
}
use aioperatingsystem.Sha256.Padding.{padded, sha256_lem}

abc_digest :
    sha256 (b'a' ∷ b'b' ∷ b'c' ∷ [])
    ≡ 186 ∷ 120 ∷ 22 ∷ 191 ∷ 143 ∷ 1 ∷ 207 ∷ 234 ∷ 65 ∷ 65 ∷ 64 ∷ 222 ∷ 93 ∷ 174 ∷ 34 ∷ 35 ∷ 176 ∷ 3
      ∷ 97 ∷ 163 ∷ 150 ∷ 23 ∷ 122 ∷ 156 ∷ 180 ∷ 16 ∷ 255 ∷ 97 ∷ 242 ∷ 0 ∷ 21 ∷ 173 ∷ []
unfolding sha256 tail_of transform_blocks sha256_transform sha256_rounds sha256_round block_words
    extend_words digest big_endian
abc_digest = refl

sha256_lem_example :
    (sha256 (replicate 60 1)
      ≡ digest (
          transform_blocks
            (length (padded (replicate 60 1)) / 64)
            (padded (replicate 60 1))
            initial_state))
    × (length (padded (replicate 60 1)) % 64 ≡ 0)
sha256_lem_example = sha256_lem (replicate 60 1)
