-- ===== src/X509/Der.antt =====
-- kernel/x509.c against DER: values as they are written, and what the reader makes of them.
use aioperatingsystem.Common.{
  ℕ, zero, suc, ◌+◌, ◌/◌, ◌%◌, ◌≡◌, refl, sym, ap, ◌∙◌, List, [], ◌∷◌, ◌++◌, ltb, if◌then◌else◌,
  get_or, drop, drop_front, length, arith,
}
use mathlib.Core.List.{append_assoc}

-- The length of a value, in the form that DER asks for; of less than 2 ^ 24 bytes here.
unfoldable pub der_length : ℕ → List ℕ
der_length n =
    if ltb n 128
    then n ∷ []
    else if ltb n 256
    then 0x81 ∷ n ∷ []
    else if ltb n 65536
    then 0x82 ∷ n / 256 ∷ n % 256 ∷ []
    else 0x83 ∷ n / 65536 ∷ n / 256 % 256 ∷ n % 256 ∷ []

abbrev pub der : (tag : ℕ) → (content : List ℕ) → List ℕ
der tag content = tag ∷ (der_length (length content) ++ content)

-- The bytes stand at a position.
abbrev pub StandsAt : List ℕ → ℕ → List ℕ → Type 0
StandsAt bytes pos piece = (rest : List ℕ) × (drop pos bytes ≡ piece ++ rest)

suc_plus : (a b : ℕ) → suc a + b ≡ suc (a + b)
suc_plus a b = omega arith

get_or-drop : (bytes : List ℕ) (pos i : ℕ) → get_or bytes (pos + i) 0 ≡ get_or (drop pos bytes) i 0
get_or-drop [] zero i = refl
get_or-drop [] (suc pos) i = refl
get_or-drop (b ∷ bytes) zero i = ap (λ (t : ℕ). get_or (b ∷ bytes) t 0) (zero_plus i)
  where
    zero_plus : (k : ℕ) → 0 + k ≡ k
    zero_plus k = omega arith
get_or-drop (b ∷ bytes) (suc pos) i =
    ap (λ (t : ℕ). get_or (b ∷ bytes) t 0) (suc_plus pos i) ∙ get_or-drop bytes pos i

pub at_get :
    (bytes : List ℕ) (pos i b : ℕ) (piece : List ℕ)
    → StandsAt bytes pos piece
    → ((rest : List ℕ) → get_or (piece ++ rest) i 0 ≡ b)
    → get_or bytes (pos + i) 0 ≡ b
at_get bytes pos i b piece (rest, e) g = get_or-drop bytes pos i ∙ ap (λ t. get_or t i 0) e ∙ g rest

drop_nil : (n : ℕ) → drop {A = ℕ} n [] ≡ []
drop_nil zero = refl
drop_nil (suc n) = refl

drop-drop : (n m : ℕ) (xs : List ℕ) → drop n (drop m xs) ≡ drop (m + n) xs
drop-drop n zero xs = ap (λ (t : ℕ). drop t xs) (zero_plus n)
  where
    zero_plus : (k : ℕ) → k ≡ 0 + k
    zero_plus k = omega arith
drop-drop n (suc m) [] = drop_nil n ∙ sym (drop_nil (suc m + n))
drop-drop n (suc m) (x ∷ xs) =
    drop-drop n m xs ∙ sym (ap (λ (t : ℕ). drop t (x ∷ xs)) (suc_plus m n))

pub at_left :
    (bytes : List ℕ) (pos : ℕ) (a b : List ℕ) → StandsAt bytes pos (a ++ b) → StandsAt bytes pos a
at_left bytes pos a b (rest, e) = (b ++ rest, e ∙ append_assoc a b rest)

pub at_right :
    (bytes : List ℕ) (pos : ℕ) (a b : List ℕ)
    → StandsAt bytes pos (a ++ b)
    → StandsAt bytes (pos + length a) b
at_right bytes pos a b (rest, e) = (
  rest,
  sym (drop-drop (length a) pos bytes)
      ∙ ap (drop (length a)) (e ∙ append_assoc a b rest)
      ∙ drop_front a (b ++ rest) (length a) refl,
)

-- How many bytes the header has.
abbrev pub header_len : ℕ → ℕ
header_len n = 1 + length (der_length n)

-- The byte at a position that is given by a sum.
pub at_index :
    (bytes : List ℕ) (pos i p b : ℕ) (piece : List ℕ)
    → StandsAt bytes pos piece
    → p ≡ pos + i
    → ((rest : List ℕ) → get_or (piece ++ rest) i 0 ≡ b)
    → get_or bytes p 0 ≡ b
at_index bytes pos i p b piece at e g =
    ap (λ (t : ℕ). get_or bytes t 0) e ∙ at_get bytes pos i b piece at g
