-- ===== src/Printf/Ends.antt =====
-- What kernel/printf.c prints for a format, and where it stops.
use aioperatingsystem.Common.{
  ℕ, ◌≡◌, ◌≢◌, refl, sym, ap, ◌∙◌, true, false, List, [], ◌∷◌, ◌++◌, All, arith, ◌==◌,
}
use mathlib.Core.List.{append-nil, append_assoc}
use aioperatingsystem.Printf.{Arg, plain, finished, convert, scan, kprintf}

-- The parts of a format: a character that is copied, or a conversion character with no `l` before it,
-- one, or two.
pub data Piece : Type 0 where
  copied : (c : ℕ) → Piece
  short : (c : ℕ) → Piece
  long : (c : ℕ) → Piece
  long_long : (c : ℕ) → Piece

abbrev pub characters : Piece → List ℕ
characters (Piece.copied c) = c ∷ []
characters (Piece.short c) = b'%' ∷ c ∷ []
characters (Piece.long c) = b'%' ∷ b'l' ∷ c ∷ []
characters (Piece.long_long c) = b'%' ∷ b'l' ∷ b'l' ∷ c ∷ []

abbrev pub format_of : List Piece → List ℕ
format_of [] = []
format_of (p ∷ ps) = characters p ++ format_of ps

abbrev pub IsPiece : Piece → Type 0
IsPiece (Piece.copied c) = (c ≢ 0) × (c ≢ b'%')
IsPiece (Piece.short c) = (c ≢ 0) × (c ≢ b'l')
IsPiece (Piece.long c) = (c ≢ 0) × (c ≢ b'l')
IsPiece (Piece.long_long c) = c ≢ 0

-- What a part prints, and the arguments behind the one that it takes.
abbrev pub printed : Piece → List Arg → List ℕ × List Arg
printed (Piece.copied c) args = (c ∷ [], args)
printed (Piece.short c) args = convert false c args
printed (Piece.long c) args = convert true c args
printed (Piece.long_long c) args = convert true c args

abbrev pub text_of : List Piece → List Arg → List ℕ
text_of [] args = []
text_of (p ∷ ps) args = (printed p args).0 ++ text_of ps (printed p args).1

abbrev pub args_left : List Piece → List Arg → List Arg
args_left [] args = args
args_left (p ∷ ps) args = args_left ps (printed p args).1

not_eq : (a b : ℕ) → a ≢ b → (a == b) ≡ false
not_eq a b h = ground arith

piece_lem :
    (p : Piece) (mem : List ℕ) (args : List Arg) (out : List ℕ)
    → IsPiece p
    → scan plain (characters p ++ mem) args out
      ≡ scan plain mem (printed p args).1 (out ++ (printed p args).0)
unfolding scan
piece_lem (Piece.copied c) mem args out h = rw (not_eq c 0 h.0, not_eq c b'%' h.1) refl
piece_lem (Piece.short c) mem args out h = rw (not_eq c b'l' h.1) refl
piece_lem (Piece.long c) mem args out h = rw (not_eq c b'l' h.1) refl
piece_lem (Piece.long_long c) mem args out h = refl

pieces_lem :
    (ps : List Piece) (mem : List ℕ) (args : List Arg) (out : List ℕ)
    → All IsPiece ps
    → scan plain (format_of ps ++ mem) args out
      ≡ scan plain mem (args_left ps args) (out ++ text_of ps args)
pieces_lem [] mem args out h = ap (scan plain mem args) (sym (append-nil out))
pieces_lem (p ∷ ps) mem args out (here, h) =
    let r = printed p args in
    ap (λ (t : List ℕ). scan plain t args out) (append_assoc (characters p) (format_of ps) mem)
    ∙ piece_lem p (format_of ps ++ mem) args out here
    ∙ pieces_lem ps mem r.1 (out ++ r.0) h
    ∙ ap (scan plain mem (args_left ps r.1)) (append_assoc out r.0 (text_of ps r.1))

-- For a format of whole parts, whatever the arguments are and whatever stands in memory behind its NUL:
-- `kprintf` prints what the parts print, in order, and stops at the NUL. With one more `%` before the
-- NUL, and a text of whole parts with its own NUL behind that: it prints a `%` and the NUL after the parts,
-- goes on with the text and the arguments that are left, and stops at the second NUL.
pub kprintf_lem :
    (ps qs : List Piece) (args : List Arg) (behind : List ℕ)
    → All IsPiece ps
    → All IsPiece qs
    → (kprintf (format_of ps ++ (0 ∷ behind)) args ≡ finished (text_of ps args))
      × (kprintf (format_of ps ++ (b'%' ∷ 0 ∷ (format_of qs ++ (0 ∷ behind)))) args
          ≡ finished ((text_of ps args ++ (b'%' ∷ 0 ∷ [])) ++ text_of qs (args_left ps args)))
unfolding kprintf scan convert
kprintf_lem ps qs args behind hp hq = (
  pieces_lem ps (0 ∷ behind) args [] hp,
  pieces_lem ps (b'%' ∷ 0 ∷ (format_of qs ++ (0 ∷ behind))) args [] hp
      ∙ pieces_lem qs (0 ∷ behind) (args_left ps args) (text_of ps args ++ (b'%' ∷ 0 ∷ [])) hq,
)
