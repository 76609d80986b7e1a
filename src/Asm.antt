-- ===== src/Asm.antt =====
-- kernel/asm.c: the assembler. A C string is the list of its characters before the NUL; a 32-bit number is
-- its bit pattern, and the sums of `local_parse_int` are taken to wrap.
pub mod Tokens
pub mod Encode
pub mod Decode
pub mod Fields
pub mod Bytes
pub mod Reading
pub mod RoundTrip
pub mod Run
pub mod Assemble
pub mod Steps
pub mod Valid
pub mod Lines
pub mod Jumps
pub mod Answers
mod Tests
use aioperatingsystem.Common.{
  ℕ, zero, suc, ◌+◌, ◌-◌, ◌*◌, ◌/◌, ◌%◌, ◌^◌, List, [], ◌∷◌, ◌++◌, Bool, true, false, ◌&&◌, ◌||◌,
  not, Option, none, some, ltb, leb, ◌==◌, ◌!=◌, if◌then◌else◌, get_or, take, drop, length, codes,
  str_eq,
}

-- At most `n` characters.
unfoldable pub local_strncpy : (src : List ℕ) → (n : ℕ) → List ℕ
local_strncpy src n = take n src

unfoldable pub hex_digit : ℕ → Option ℕ
hex_digit c =
    if leb b'0' c && leb c b'9'
    then some (c - b'0')
    else if leb b'a' c && leb c b'f'
    then some (c - b'a' + 10)
    else if leb b'A' c && leb c b'F'
    then some (c - b'A' + 10)
    else none

unfoldable pub parse_hex : (val : ℕ) → List ℕ → ℕ
parse_hex val [] = val
parse_hex val (c ∷ s) = elim (hex_digit c) [
  | some digit ↦ parse_hex ((val * 16 + digit) % 2 ^ 32) s
  | none ↦ val
]

unfoldable pub parse_decimal : (val : ℕ) → List ℕ → ℕ
parse_decimal val [] = val
parse_decimal val (c ∷ s) = elim (leb b'0' c && leb c b'9') [
  | true ↦ parse_decimal ((val * 10 + (c - b'0')) % 2 ^ 32) s
  | false ↦ val
]

-- The number after the sign.
unfoldable pub parse_digits : List ℕ → ℕ
parse_digits s =
    if (get_or s 0 0 == b'0') && ((get_or s 1 0 == b'x') || (get_or s 1 0 == b'X'))
    then parse_hex 0 (drop 2 s)
    else parse_decimal 0 s

-- The `int32_t` as a number below 2 ^ 32.
unfoldable pub local_parse_int : List ℕ → ℕ
local_parse_int s =
    if get_or s 0 0 == b'-' then (2 ^ 32 - parse_digits (drop 1 s)) % 2 ^ 32 else parse_digits s

abbrev pub is_blank : ℕ → Bool
is_blank c = (c == b' ') || (c == 9)

abbrev pub is_trailing : ℕ → Bool
is_trailing c = (c == b' ') || (c == 9) || (c == 13) || (c == 10)

unfoldable pub trim_front : List ℕ → List ℕ
trim_front [] = []
trim_front (c ∷ s) = elim (is_blank c) [ true ↦ trim_front s | false ↦ c ∷ s ]

-- What is kept of a string when its end is cut.
unfoldable pub trim_back : List ℕ → List ℕ
trim_back [] = []
trim_back (c ∷ s) = elim (trim_back s) [
  | [] ↦ (if is_trailing c then [] else c ∷ [])
  | d ∷ kept ↦ c ∷ d ∷ kept
]

unfoldable pub trim : List ℕ → List ℕ
trim s = trim_back (trim_front s)

abbrev pub register_names : List (List ℕ)
register_names =
    codes "rax"
    ∷ codes "rcx"
    ∷ codes "rdx"
    ∷ codes "rbx"
    ∷ codes "rsp"
    ∷ codes "rbp"
    ∷ codes "rsi"
    ∷ codes "rdi"
    ∷ codes "r8"
    ∷ codes "r9"
    ∷ codes "r10"
    ∷ codes "r11"
    ∷ codes "r12"
    ∷ codes "r13"
    ∷ codes "r14"
    ∷ codes "r15"
    ∷ []

-- The first of the names that is the given one, counted from `i`.
unfoldable pub index_of : List (List ℕ) → (i : ℕ) → (name : List ℕ) → Option ℕ
index_of [] i name = none
index_of (n ∷ names) i name =
    let rest = index_of names (i + 1) name in if str_eq name n then some i else rest

-- `none` is -1.
unfoldable pub reg_number : List ℕ → Option ℕ
reg_number name = index_of register_names 0 name

-- The characters before the first `c`, and those after it if there is one.
unfoldable pub split_at : (c : ℕ) → List ℕ → List ℕ × Option (List ℕ)
split_at c [] = ([], none)
split_at c (d ∷ s) = elim (d == c) [
  | true ↦ ([], some s)
  | false ↦ (let r = split_at c s in (d ∷ r.0, r.1))
]

-- A register and a displacement.
unfoldable pub parse_mem_operand : List ℕ → Option (ℕ × ℕ)
parse_mem_operand arg =
    let len = length arg in
    let parts = split_at b'+' (local_strncpy (drop 1 arg) (len - 2)) in
    let disp : ℕ = elim parts.1 [ none ↦ 0 | some number ↦ local_parse_int number ] in
    if get_or arg 0 0 != b'['
    then none
    else if ltb len 3 || (get_or arg (len - 1) 0 != b']')
    then none
    else if leb 32 (len - 2)
    then none
    else elim (reg_number parts.0) [ none ↦ none | some reg ↦ some (reg, disp) ]
