-- ===== src/Noteedit/Tests.antt =====
-- A buffer of two lines with the cursor in the second.
use aioperatingsystem.Common.{
  ℕ, zero, suc, ◌<◌, ◌≡◌, true, false, List, [], ◌∷◌, arith, length, length-replicate, replicate,
}
use aioperatingsystem.Noteedit.{NoteBuffer, line_at, note_handle_key, note_bytes}
use aioperatingsystem.Noteedit.Lines.{Short}
use aioperatingsystem.Noteedit.Valid.{IsValid, note_handle_key-IsValid}
use aioperatingsystem.Noteedit.Undo.{note_handle_key_undo}
use aioperatingsystem.Noteedit.Saved.{text, note_bytes-text}

abbrev two_lines : NoteBuffer
two_lines = record {
  lines = (b'h' ∷ b'i' ∷ []) ∷ (b'o' ∷ b'k' ∷ []) ∷ replicate 198 [];
  line_count = 2;
  cur_line = 1;
  cur_col = 1;
  dirty = false;
}

empty_short : (n i : ℕ) → length (line_at (replicate n []) i) < 100
empty_short zero i = omega arith
empty_short (suc n) zero = omega arith
empty_short (suc n) (suc i) = empty_short n i

two-Short : Short two_lines.lines
two-Short zero = omega arith
two-Short (suc zero) = omega arith
two-Short (suc (suc i)) = empty_short 198 i

two_lines-IsValid : IsValid two_lines
two_lines-IsValid = record {
  storage = omega (arith, length-replicate {A = List ℕ} 198 []);
  short = two-Short;
  count_in = omega arith;
  line_in = omega arith;
  col_in = omega arith;
}

note_handle_key-IsValid_example : IsValid (note_handle_key two_lines 10).1
note_handle_key-IsValid_example = note_handle_key-IsValid two_lines 10 two_lines-IsValid

note_handle_key_undo_example :
    note_handle_key (note_handle_key two_lines b'x').1 8 ≡ (true, record two_lines { dirty = true })
note_handle_key_undo_example =
    note_handle_key_undo two_lines b'x' two_lines-IsValid (omega arith) (omega arith) (omega arith)

note_bytes-text_example : note_bytes two_lines ≡ text two_lines.lines 0 2
note_bytes-text_example = note_bytes-text two_lines two_lines-IsValid
