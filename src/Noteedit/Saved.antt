-- ===== src/Noteedit/Saved.antt =====
-- What kernel/noteedit.c saves.
use aioperatingsystem.Common.{
  ℕ, zero, suc, ◌+◌, ◌*◌, ◌≤◌, ◌<◌, ◌≡◌, refl, sym, ◌∙◌, ap, true, false, List, [], ◌∷◌, ◌++◌,
  arith, length, length-append, ltb, leb, ◌==◌, if◌then◌else◌,
}
use aioperatingsystem.Noteedit.{NoteBuffer, line_at, save_loop, note_bytes}
use aioperatingsystem.Noteedit.Lines.{Short}
use aioperatingsystem.Noteedit.Valid.{IsValid}

-- The text of `n` lines from line `i` on, with a line feed between two of them.
unfoldable pub text : List (List ℕ) → (i n : ℕ) → List ℕ
text lines i zero = []
text lines i (suc n) = (line_at lines i ++ (if n == 0 then [] else 10 ∷ [])) ++ text lines (i + 1) n

append_assoc : (a b c : List ℕ) → (a ++ b) ++ c ≡ a ++ (b ++ c)
append_assoc [] b c = refl
append_assoc (x ∷ xs) b c = ap (λ t. x ∷ t) (append_assoc xs b c)

append_nil : (a : List ℕ) → a ++ [] ≡ a
append_nil [] = refl
append_nil (x ∷ xs) = ap (λ t. x ∷ t) (append_nil xs)

end_le : (n : ℕ) → length {A = ℕ} (if n == 0 then [] else 10 ∷ []) ≤ 1
end_le n = ground arith

round :
    (lines : List (List ℕ)) (i n : ℕ) (out : List ℕ)
    → length out < 32766
    → length out + length (line_at lines i) < 32766
    → save_loop lines i (suc n) out
      ≡ save_loop lines (i + 1) n (out ++ (line_at lines i ++ (if n == 0 then [] else 10 ∷ [])))
unfolding save_loop
round lines i n out low fits =
    let first : ltb (length out) 32766 ≡ true = less (length out) 32766 low in
    let whole : leb 32766 (length out + length (line_at lines i)) ≡ false =
      not_le 32766 (length out + length (line_at lines i)) fits in
    rw (first, whole)
      (ap (λ (t : List ℕ). save_loop lines (i + 1) n t)
        (append_assoc out (line_at lines i) (if n == 0 then [] else 10 ∷ [])))
  where
    less : (a b : ℕ) → a < b → ltb a b ≡ true
    less a b h = ground arith

    not_le : (a b : ℕ) → b < a → leb a b ≡ false
    not_le a b h = ground arith

save_loop_lem :
    (n i : ℕ) (lines : List (List ℕ)) (out : List ℕ)
    → Short lines
    → length out + n * 100 < 32766
    → save_loop lines i n out ≡ out ++ text lines i n
unfolding save_loop text
save_loop_lem zero i lines out h low = sym (append_nil out)
save_loop_lem (suc n) i lines out h low =
    let line = line_at lines i in
    let piece = line ++ (if n == 0 then [] else 10 ∷ []) in
    let size : length (out ++ piece) ≤ length out + 100 = omega (
      arith,
      length-append out piece,
      length-append line (if n == 0 then [] else 10 ∷ []),
      end_le n,
      h i,
    ) in
    round lines i n out (omega arith) (omega (arith, h i))
    ∙ save_loop_lem n (i + 1) lines (out ++ piece) h (omega (arith, size))
    ∙ append_assoc out piece (text lines (i + 1) n)

-- Saving a well-formed buffer writes all of it: the lines in use with a line feed between two, nothing
-- cut by the limit on the size of a file.
pub note_bytes-text : (nb : NoteBuffer) → IsValid nb → note_bytes nb ≡ text nb.lines 0 nb.line_count
unfolding note_bytes
note_bytes-text nb v = save_loop_lem nb.line_count 0 nb.lines [] v.short (omega (arith, v.count_in))
