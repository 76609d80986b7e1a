-- ===== src/Strings.antt =====
-- kernel/string.c. The functions that write have one store of bytes, and a pointer is an index into it, so
-- source and destination may overlap. The comparisons of texts and the splitting have the bytes before the zero.
pub mod Move
pub mod Copies
pub mod Order
pub mod Tokens
mod Tests
use aioperatingsystem.Common.Integers.{ℤ, pos, sub_nat}
use aioperatingsystem.Common.{
  ℕ, zero, suc, ◌+◌, ◌-◌, Bool, true, false, Option, none, some, List, [], ◌∷◌, ltb, ◌==◌,
  if◌then◌else◌, get_or, set, u8,
}

-- From the lowest address up.
pub memcpy : List ℕ → (dst src n : ℕ) → List ℕ
memcpy m dst src zero = m
memcpy m dst src (suc n) = memcpy (set m dst (get_or m src 0)) (dst + 1) (src + 1) n

-- From the highest address down.
pub copy_down : List ℕ → (dst src n : ℕ) → List ℕ
copy_down m dst src zero = m
copy_down m dst src (suc n) = copy_down (set m (dst + n) (get_or m (src + n) 0)) dst src n

pub memmove : List ℕ → (dst src n : ℕ) → List ℕ
memmove m dst src n =
    if ltb dst src then memcpy m dst src n else (if ltb src dst then copy_down m dst src n else m)

unfoldable pub memset : List ℕ → (dst val n : ℕ) → List ℕ
memset m dst val zero = m
memset m dst val (suc n) = memset (set m dst (u8 val)) (dst + 1) val n

-- The loop ends at a zero; `none` is that there was none in as many rounds as there is fuel.
unfoldable pub strlen : (fuel : ℕ) → List ℕ → (str : ℕ) → Option ℕ
strlen zero m str = none
strlen (suc fuel) m str =
    let rest = strlen fuel m (str + 1) in
    if get_or m str 0 == 0 then some 0 else elim rest [ none ↦ none | some len ↦ some (suc len) ]

-- The store that `strcpy` leaves.
unfoldable pub strcpy : (fuel : ℕ) → List ℕ → (dst src : ℕ) → Option (List ℕ)
strcpy zero m dst src = none
strcpy (suc fuel) m dst src =
    let c = get_or m src 0 in
    let m' = set m dst c in
    let rest = strcpy fuel m' (dst + 1) (src + 1) in if c == 0 then some m' else rest

-- First to the end of the text at `dst`.
unfoldable pub strcat : (fuel : ℕ) → List ℕ → (dst src : ℕ) → Option (List ℕ)
strcat fuel m dst src = elim (strlen fuel m dst) [
  | none ↦ none
  | some len ↦ strcpy fuel m (dst + len) src
]

unfoldable pub memcmp : List ℕ → (a b n : ℕ) → ℤ
memcmp m a b zero = pos 0
memcmp m a b (suc n) =
    let rest = memcmp m (a + 1) (b + 1) n in
    if get_or m a 0 == get_or m b 0 then rest else sub_nat (get_or m a 0) (get_or m b 0)

unfoldable pub strcmp : (a b : List ℕ) → ℤ
strcmp [] [] = pos 0
strcmp [] (d ∷ b) = sub_nat 0 d
strcmp (c ∷ a) [] = sub_nat c 0
strcmp (c ∷ a) (d ∷ b) = let rest = strcmp a b in if c == d then rest else sub_nat c d

unfoldable pub strncmp : (a b : List ℕ) → (n : ℕ) → ℤ
strncmp a b zero = pos 0
strncmp [] [] (suc n) = pos 0
strncmp [] (d ∷ b) (suc n) = sub_nat 0 d
strncmp (c ∷ a) [] (suc n) = sub_nat c 0
strncmp (c ∷ a) (d ∷ b) (suc n) = let rest = strncmp a b n in if c == d then rest else sub_nat c d

-- `while (*start == delim) start++;`
unfoldable pub skip_delims : (delim : ℕ) → List ℕ → List ℕ
skip_delims delim [] = []
skip_delims delim (c ∷ s) = let rest = skip_delims delim s in if c == delim then rest else c ∷ s

-- The bytes up to a delimiter, and what `*saveptr` is left at behind it.
unfoldable pub token_end : (delim : ℕ) → List ℕ → List ℕ × Option (List ℕ)
token_end delim [] = ([], none)
token_end delim (c ∷ s) =
    let rest = token_end delim s in if c == delim then ([], some s) else (c ∷ rest.0, rest.1)

abbrev pub token_of : (delim : ℕ) → List ℕ → Option (List ℕ) × Option (List ℕ)
token_of delim [] = (none, none)
token_of delim (c ∷ s) = let r = token_end delim (c ∷ s) in (some r.0, r.1)

-- The token that is returned and the new `*saveptr`, where `start` is `str`, or `*saveptr` for a null `str`.
unfoldable pub strtok_simple :
    (start : Option (List ℕ)) → (delim : ℕ) → Option (List ℕ) × Option (List ℕ)
strtok_simple none delim = (none, none)
strtok_simple (some s) delim = token_of delim (skip_delims delim s)
