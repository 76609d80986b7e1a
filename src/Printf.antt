-- ===== src/Printf.antt =====
-- kernel/printf.c: numbers as digits, and the scanner of format strings. What reaches the console is the
-- list of the bytes written.
pub mod Digits
pub mod Ends
mod Tests
use aioperatingsystem.Common.{
  ℕ, zero, suc, ◌+◌, ◌-◌, ◌*◌, ◌/◌, ◌%◌, ◌^◌, Bool, true, false, List, [], ◌∷◌, ◌++◌, Option, none,
  some, ltb, leb, ◌==◌, ◌||◌, if◌then◌else◌, get_or, u32, u64,
}

abbrev pub lower_digits : List ℕ
lower_digits =
    b'0' ∷ b'1' ∷ b'2' ∷ b'3' ∷ b'4' ∷ b'5' ∷ b'6' ∷ b'7' ∷ b'8' ∷ b'9' ∷ b'a' ∷ b'b' ∷ b'c' ∷ b'd'
    ∷ b'e' ∷ b'f' ∷ []

abbrev pub upper_digits : List ℕ
upper_digits =
    b'0' ∷ b'1' ∷ b'2' ∷ b'3' ∷ b'4' ∷ b'5' ∷ b'6' ∷ b'7' ∷ b'8' ∷ b'9' ∷ b'A' ∷ b'B' ∷ b'C' ∷ b'D'
    ∷ b'E' ∷ b'F' ∷ []

abbrev pub digit : Bool → ℕ → ℕ
digit upper d = get_or (if upper then upper_digits else lower_digits) d 0

-- The buffer with its last character first, which is the order it is written out in.
pub digit_loop : (fuel value base : ℕ) → Bool → List ℕ → List ℕ
digit_loop zero value base upper buf = buf
digit_loop (suc fuel) value base upper buf =
    let rest = digit_loop fuel (value / base) base upper (digit upper (value % base) ∷ buf) in
    if ltb 0 value then rest else buf

-- A round halves the value at least, so 64 rounds are enough.
pub print_uint64 : (value base : ℕ) → Bool → List ℕ
print_uint64 value base upper = if value == 0 then b'0' ∷ [] else digit_loop 64 value base upper []

-- `value` is the 64 bits of an `int64_t`.
pub print_int64 : (value : ℕ) → List ℕ
print_int64 value =
    if leb (2 ^ 63) value
    then b'-' ∷ print_uint64 (2 ^ 64 - value) 10 false
    else print_uint64 value 10 false

-- An argument: 64 bits of an integer, or a pointer to a string, which may be null.
pub data Arg : Type 0 where
  int_arg : ℕ → Arg
  string_arg : Option (List ℕ) → Arg

-- What `va_arg` takes. An argument that is not there, or of the other kind, reads as 0.
abbrev pub next_int : List Arg → ℕ × List Arg
next_int [] = (0, [])
next_int (int_arg n ∷ args) = (n, args)
next_int (string_arg s ∷ args) = (0, args)

abbrev pub null_text : List ℕ
null_text = b'(' ∷ b'n' ∷ b'u' ∷ b'l' ∷ b'l' ∷ b')' ∷ []

abbrev pub next_string : List Arg → List ℕ × List Arg
next_string [] = (null_text, [])
next_string (int_arg n ∷ args) = (null_text, args)
next_string (string_arg none ∷ args) = (null_text, args)
next_string (string_arg (some s) ∷ args) = (s, args)

-- `(int64_t)va_arg(args, int)`, as 64 bits.
abbrev pub extend_sign : ℕ → ℕ
extend_sign n = if leb (2 ^ 31) (u32 n) then u32 n + (2 ^ 64 - 2 ^ 32) else u32 n

-- What a directive with the conversion character `c` writes, and the arguments that are left.
pub convert : Bool → (c : ℕ) → List Arg → List ℕ × List Arg
convert is_64 c args =
    let (n, rest) = next_int args in
    let unsigned = if is_64 then u64 n else u32 n in
    if (c == b'd') || (c == b'i')
    then (print_int64 (if is_64 then u64 n else extend_sign n), rest)
    else (if c == b'u'
        then (print_uint64 unsigned 10 false, rest)
        else (if c == b'x'
            then (print_uint64 unsigned 16 false, rest)
            else (if c == b'X'
                then (print_uint64 unsigned 16 true, rest)
                else (if c == b'c'
                    then (n % 2 ^ 8 ∷ [], rest)
                    else (if c == b's'
                        then next_string args
                        else (if c == b'%' then (b'%' ∷ [], args) else (
                          b'%' ∷ (if is_64 then b'l' ∷ b'l' ∷ [] else []) ++ (c ∷ []),
                          args,
                        )))))))

-- Where the scanner stands: before a character, after `%`, after `%l`, or after `%ll`.
pub data Scan : Type 0 where
  plain : Scan
  percent : Scan
  long_once : Scan
  long_twice : Scan

-- A run that meets the NUL before a character, or one that has used up the memory that is modelled.
pub data Printed : Type 0 where
  finished : List ℕ → Printed
  ran_off : List ℕ → Printed

abbrev pub directive : List ℕ × List Arg → List ℕ → (List ℕ → List Arg → Printed) → Printed
directive (written, args) out rest = rest (out ++ written) args

-- `mem` is the memory from the next character on: the rest of the format, its NUL, and what stands behind.
-- The loop looks for the NUL only before a character; a NUL behind `%`, `%l` or `%ll` is a conversion.
pub scan : Scan → (mem : List ℕ) → List Arg → List ℕ → Printed
scan s [] args out = ran_off out
scan plain (c ∷ mem) args out =
    let start = scan percent mem args out in
    let copied = scan plain mem args (out ++ (c ∷ [])) in
    if c == 0 then finished out else if c == b'%' then start else copied
scan percent (c ∷ mem) args out =
    let long = scan long_once mem args out in
    let short = directive (convert false c args) out (λ out' args'. scan plain mem args' out') in
    if c == b'l' then long else short
scan long_once (c ∷ mem) args out =
    let twice = scan long_twice mem args out in
    let once = directive (convert true c args) out (λ out' args'. scan plain mem args' out') in
    if c == b'l' then twice else once
scan long_twice (c ∷ mem) args out =
    directive (convert true c args) out (λ out' args'. scan plain mem args' out')

pub kprintf : (mem : List ℕ) → List Arg → Printed
kprintf mem args = scan plain mem args []
