-- ===== src/Printf/Tests.antt =====
-- Numbers and formats printed.
use aioperatingsystem.Common.{◌≡◌, refl, inr, true, List, [], ◌∷◌, ◌++◌, All, arith}
use aioperatingsystem.Printf.{
  int_arg, digit_loop, print_uint64, print_int64, convert, finished, scan, kprintf,
}
use aioperatingsystem.Printf.Ends.{Piece, IsPiece, format_of, text_of, args_left, kprintf_lem}
use aioperatingsystem.Printf.Digits.{read, read-print_uint64}

-- kprintf("%d%", -2), with the text "!" behind the NUL.
overrun :
    kprintf (b'%' ∷ b'd' ∷ b'%' ∷ 0 ∷ b'!' ∷ 0 ∷ []) (int_arg 0xfffffffe ∷ [])
    ≡ finished (b'-' ∷ b'2' ∷ b'%' ∷ 0 ∷ b'!' ∷ [])
unfolding kprintf scan convert print_int64 print_uint64 digit_loop
overrun = refl

-- The format "a%d" or "a%d%", with "%x" behind its NUL.
abbrev parts : List Piece
parts = Piece.copied b'a' ∷ Piece.short b'd' ∷ []

abbrev more_parts : List Piece
more_parts = Piece.short b'x' ∷ []

parts-IsPiece : All IsPiece parts
parts-IsPiece = (
  ((λ e. omega (arith, e)), (λ e. omega (arith, e))),
  (((λ e. omega (arith, e)), (λ e. omega (arith, e))), tt),
)

more_parts-IsPiece : All IsPiece more_parts
more_parts-IsPiece = (((λ e. omega (arith, e)), (λ e. omega (arith, e))), tt)

read-print_uint64_example : read 16 0 (print_uint64 0xbeef 16 true) ≡ 0xbeef
read-print_uint64_example = read-print_uint64 0xbeef 16 true (inr refl) (omega arith)

kprintf_lem_example :
    (kprintf (format_of parts ++ (0 ∷ 7 ∷ [])) (int_arg 7 ∷ int_arg 8 ∷ [])
      ≡ finished (text_of parts (int_arg 7 ∷ int_arg 8 ∷ [])))
    × (kprintf
          (format_of parts ++ (b'%' ∷ 0 ∷ (format_of more_parts ++ (0 ∷ 7 ∷ []))))
          (int_arg 7 ∷ int_arg 8 ∷ [])
        ≡ finished (
            (text_of parts (int_arg 7 ∷ int_arg 8 ∷ []) ++ (b'%' ∷ 0 ∷ []))
            ++ text_of more_parts (args_left parts (int_arg 7 ∷ int_arg 8 ∷ []))))
kprintf_lem_example =
    kprintf_lem parts more_parts (int_arg 7 ∷ int_arg 8 ∷ []) (7 ∷ []) parts-IsPiece
      more_parts-IsPiece
