-- ===== src/Fat16/Names.antt =====
-- 8.3 names: a file name as a C string without its NUL, and the 11 bytes of a directory entry.
use aioperatingsystem.Common.{
  ℕ, zero, suc, ◌+◌, ◌-◌, Bool, true, ◌&&◌, List, [], ◌∷◌, ◌++◌, Option, none, some, leb, ◌==◌,
  if◌then◌else◌, set, take, drop, replicate,
}

abbrev pub to_upper : ℕ → ℕ
to_upper c = if leb b'a' c && leb c b'z' then c - 32 else c

-- The base name loop, from out11[j], with the part of the name it leaves.
unfoldable pub base_loop : ℕ → List ℕ → List ℕ → ℕ → List ℕ × List ℕ
base_loop zero name out j = (out, name)
base_loop (suc left) [] out j = (out, [])
base_loop (suc left) (c ∷ name) out j =
    let rest = base_loop left name (set out j (to_upper c)) (j + 1) in
    if c == b'.' then (out, c ∷ name) else rest

-- The extension loop.
unfoldable pub ext_loop : ℕ → List ℕ → List ℕ → ℕ → List ℕ × List ℕ
ext_loop zero name out k = (out, name)
ext_loop (suc left) [] out k = (out, [])
ext_loop (suc left) (c ∷ name) out k = ext_loop left name (set out (8 + k) (to_upper c)) (k + 1)

abbrev pub ext_result : List ℕ × List ℕ → Option (List ℕ)
ext_result (out, []) = some out
ext_result (out, c ∷ name) = none

-- What follows the base name: nothing, or a dot and at most three characters.
abbrev pub after_base : List ℕ × List ℕ → Option (List ℕ)
after_base (out, []) = some out
after_base (out, c ∷ name) = if c == b'.' then ext_result (ext_loop 3 name out 0) else none

unfoldable pub name_to_83 : List ℕ → Option (List ℕ)
name_to_83 name = after_base (base_loop 8 name (replicate 11 32) 0)

-- The bytes up to the first space.
unfoldable pub until_space : List ℕ → List ℕ
until_space [] = []
until_space (c ∷ cs) = let rest = until_space cs in if c == 32 then [] else c ∷ rest

unfoldable pub name_from_83 : List ℕ → List ℕ
name_from_83 in11 =
    let ext = take 3 (drop 8 in11) in
    until_space (take 8 in11) ++ (if starts_with_space ext then [] else b'.' ∷ until_space ext)
  where
    starts_with_space : List ℕ → Bool
    starts_with_space [] = true
    starts_with_space (c ∷ cs) = c == 32
