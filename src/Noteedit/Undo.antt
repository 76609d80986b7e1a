-- ===== src/Noteedit/Undo.antt =====
-- Backspace takes a typed character back, in kernel/noteedit.c.
use aioperatingsystem.Common.{
  ℕ, ◌+◌, ◌-◌, ◌≤◌, ◌<◌, ◌≡◌, refl, ◌∙◌, ap, Bool, true, List, arith, length, ltb, set,
}
use aioperatingsystem.Noteedit.{
  NoteBuffer, line_at, remove_at, insert_at, backspace, type_char, note_handle_key,
}
use aioperatingsystem.Noteedit.Lines.{undo}
use aioperatingsystem.Noteedit.Valid.{IsValid}

printable_key : (nb : NoteBuffer) (c : ℕ) → 32 ≤ c → c < 127 → note_handle_key nb c ≡ type_char nb c
unfolding note_handle_key
printable_key nb c low high = ground arith

backspace_key : (nb : NoteBuffer) → note_handle_key nb 8 ≡ backspace nb
unfolding note_handle_key
backspace_key nb = refl

-- The buffer after a character has been typed.
abbrev typed : NoteBuffer → ℕ → NoteBuffer
typed nb c = record nb {
  lines = set nb.lines nb.cur_line (insert_at (line_at nb.lines nb.cur_line) nb.cur_col c);
  cur_col = nb.cur_col + 1;
  dirty = true;
}

type_char_lem :
    (nb : NoteBuffer) (c : ℕ)
    → length (line_at nb.lines nb.cur_line) < 99
    → type_char nb c ≡ (true, typed nb c)
unfolding type_char
type_char_lem nb c room = ground arith

-- The buffer after Backspace inside of a line.
abbrev erased : NoteBuffer → ℕ → NoteBuffer
erased nb col = record nb {
  lines = set nb.lines nb.cur_line (remove_at (line_at nb.lines nb.cur_line) col);
  cur_col = col;
  dirty = true;
}

backspace_lem :
    (nb : NoteBuffer) (col : ℕ) → nb.cur_col ≡ col + 1 → backspace nb ≡ (true, erased nb col)
unfolding backspace
backspace_lem nb col e =
    let inside : ltb 0 nb.cur_col ≡ true = positive nb.cur_col col e in
    let here : nb.cur_col - 1 ≡ col = omega (arith, e) in
    rw inside (ap (λ (t : ℕ). (true, erased nb t)) here)
  where
    positive : (a b : ℕ) → a ≡ b + 1 → ltb 0 a ≡ true
    positive a b h = ground arith

-- In a well-formed buffer whose line has room, a printable character followed by Backspace gives back
-- the text and the cursor, and leaves the buffer marked as changed; both keys ask for a redraw.
pub note_handle_key_undo :
    (nb : NoteBuffer) (c : ℕ)
    → IsValid nb
    → length (line_at nb.lines nb.cur_line) < 99
    → 32 ≤ c
    → c < 127
    → note_handle_key (note_handle_key nb c).1 8 ≡ (true, record nb { dirty = true })
note_handle_key_undo nb c v room low high =
    ap (λ (r : Bool × NoteBuffer). note_handle_key r.1 8)
      (printable_key nb c low high ∙ type_char_lem nb c room)
    ∙ backspace_key (typed nb c)
    ∙ backspace_lem (typed nb c) nb.cur_col refl
    ∙ ap (λ (ls : List (List ℕ)). (true, record nb { lines = ls; dirty = true }))
        (undo nb.lines nb.cur_line nb.cur_col c (omega (arith, v.storage, v.line_in, v.count_in))
          v.col_in)
