-- ===== src/Inflate/Blocks/Bounds.antt =====
-- The loop over the symbols of a block of kernel/inflate.c ends, and stays inside its buffer.
use aioperatingsystem.Common.{
  ℕ, ◌+◌, ◌-◌, ◌^◌, ◌≤◌, ◌<◌, ◌≡◌, Bool, ◌&&◌, List, [], ◌∷◌, ◌++◌, length, leb, get_or,
}
use aioperatingsystem.Inflate.{length_base, length_extra_bits}
use aioperatingsystem.Inflate.Blocks.{
  SymbolResult, malformed, end_of_block, go_on, BlockOutcome, no_fuel, failed, done,
}

-- `t` is `s` with `n` bytes more, each the one that stands `distance` bytes before it.
abbrev pub IsRepeated : (s t : List ℕ) → (distance n : ℕ) → Type 0
IsRepeated s t distance n =
    (length t ≡ length s + n)
    × ((k : ℕ) → k < length s → get_or t k 0 ≡ get_or s k 0)
    × ((k : ℕ) → length s ≤ k → k < length s + n → get_or t k 0 ≡ get_or t (k - distance) 0)

-- What decoding may write behind `out`: bytes, and repetitions of what was written up to their start, none of
-- which begins before the output, in a buffer of `out_max` bytes.
pub data Writes (out_max : ℕ) (out : List ℕ) : List ℕ → Type 0 where
  nothing : Writes out_max out out
  literal :
      {s : List ℕ}
      → Writes out_max out s
      → (c : ℕ) → c < 256
      → length s < out_max
      → Writes out_max out (s ++ (c ∷ []))
  repetition :
      {s : List ℕ}
      → Writes out_max out s
      → (t : List ℕ) → (distance n : ℕ) → 1 ≤ distance
      → distance ≤ length s
      → 1 ≤ n
      → IsRepeated s t distance n
      → length t ≤ out_max
      → Writes out_max out t

-- A symbol that goes on writes at least one byte.
abbrev Grows : (out_max : ℕ) → (start out : List ℕ) → SymbolResult → Type 0
Grows out_max start out (malformed out') = Writes out_max start out' × (length out' ≤ out_max)
Grows out_max start out (end_of_block br) = Writes out_max start out
Grows out_max start out (go_on out' br) =
    (length out < length out') × (length out' ≤ out_max) × Writes out_max start out'

-- The loop answers, and what is in the buffer then was written as it may be.
abbrev pub Fits : (out_max : ℕ) → (start : List ℕ) → BlockOutcome → Type 0
Fits out_max start no_fuel = ⊥
Fits out_max start (failed out) = Writes out_max start out × (length out ≤ out_max)
Fits out_max start (done out br) = Writes out_max start out × (length out ≤ out_max)

abbrev length_ok : ℕ → Bool
length_ok i =
    leb 1 (get_or length_base i 0)
    && leb (get_or length_base i 0) 258
    && leb (2 ^ get_or length_extra_bits i 0) 32
