-- ===== src/Noteedit.antt =====
-- kernel/noteedit.c: the text buffer behind both editors.
--
-- A line is the string that its 100 bytes hold: what stands after the NUL is not modelled, and the
-- loops that move characters up to the NUL are functions on strings. All 200 lines are kept, those
-- from `line_count` on too.
pub mod Lines
pub mod Valid
pub mod Undo
pub mod Saved
mod Tests
use aioperatingsystem.Common.{
  ℕ, zero, suc, ◌+◌, ◌-◌, ◌/◌, Bool, true, false, ◌&&◌, List, [], ◌∷◌, ◌++◌, ltb, leb, ◌==◌,
  if◌then◌else◌, get_or, set, take, drop, length, replicate,
}

abbrev pub note_max_lines : ℕ
note_max_lines = 200

abbrev pub note_max_line_len : ℕ
note_max_line_len = 100

pub record NoteBuffer : Type 0 where
  pub lines : List (List ℕ)
  pub line_count : ℕ
  pub cur_line : ℕ
  pub cur_col : ℕ
  pub dirty : Bool

abbrev pub line_at : List (List ℕ) → ℕ → List ℕ
line_at lines i = get_or lines i []

-- The `n` lines from line `first` on move down by one, the last of them first.
pub push_down : List (List ℕ) → (first n : ℕ) → List (List ℕ)
push_down lines first zero = lines
push_down lines first (suc n) =
    push_down (set lines (first + suc n) (line_at lines (first + n))) first n

-- The `n` lines after line `i` move up by one.
pub pull_up : List (List ℕ) → (i n : ℕ) → List (List ℕ)
pull_up lines i zero = lines
pull_up lines i (suc n) = pull_up (set lines i (line_at lines (i + 1))) (i + 1) n

pub remove_at : List ℕ → ℕ → List ℕ
remove_at [] i = []
remove_at (c ∷ cs) zero = cs
remove_at (c ∷ cs) (suc i) = c ∷ remove_at cs i

pub insert_at : List ℕ → ℕ → ℕ → List ℕ
insert_at [] i c = c ∷ []
insert_at (d ∷ ds) zero c = c ∷ d ∷ ds
insert_at (d ∷ ds) (suc i) c = d ∷ insert_at ds i c

-- Enter.
pub split_line : NoteBuffer → Bool × NoteBuffer
split_line nb =
    if leb note_max_lines nb.line_count
    then (false, nb)
    else (let moved = push_down nb.lines (nb.cur_line + 1) (nb.line_count - (nb.cur_line + 1)) in
        let cur = line_at moved nb.cur_line in
        (
          true,
          record nb {
            lines =
                set (set moved (nb.cur_line + 1) (drop nb.cur_col cur)) nb.cur_line
                  (take nb.cur_col cur);
            line_count = nb.line_count + 1;
            cur_line = nb.cur_line + 1;
            cur_col = 0;
            dirty = true;
          },
        ))

-- Backspace at the start of a line.
pub merge_lines : NoteBuffer → Bool × NoteBuffer
merge_lines nb =
    let prev = line_at nb.lines (nb.cur_line - 1) in
    let this = line_at nb.lines nb.cur_line in
    if ltb (length prev + length this) note_max_line_len
    then (
      true,
      record nb {
        lines =
            pull_up (set nb.lines (nb.cur_line - 1) (prev ++ this)) nb.cur_line
              (nb.line_count - 1 - nb.cur_line);
        line_count = nb.line_count - 1;
        cur_line = nb.cur_line - 1;
        cur_col = length prev;
        dirty = true;
      },
    )
    else (false, nb)

pub backspace : NoteBuffer → Bool × NoteBuffer
backspace nb =
    if ltb 0 nb.cur_col
    then (
      true,
      record nb {
        lines =
            set nb.lines nb.cur_line (remove_at (line_at nb.lines nb.cur_line) (nb.cur_col - 1));
        cur_col = nb.cur_col - 1;
        dirty = true;
      },
    )
    else (if ltb 0 nb.cur_line then merge_lines nb else (false, nb))

pub arrow_left : NoteBuffer → NoteBuffer
arrow_left nb =
    if ltb 0 nb.cur_col
    then record nb { cur_col = nb.cur_col - 1 }
    else (if ltb 0 nb.cur_line
        then record nb {
          cur_line = nb.cur_line - 1;
          cur_col = length (line_at nb.lines (nb.cur_line - 1));
        }
        else nb)

pub arrow_right : NoteBuffer → NoteBuffer
arrow_right nb =
    if ltb nb.cur_col (length (line_at nb.lines nb.cur_line))
    then record nb { cur_col = nb.cur_col + 1 }
    else (if ltb nb.cur_line (nb.line_count - 1)
        then record nb { cur_line = nb.cur_line + 1; cur_col = 0 }
        else nb)

-- The cursor on another line, no further right than the line is long.
abbrev pub at_line : NoteBuffer → ℕ → NoteBuffer
at_line nb i =
    let len = length (line_at nb.lines i) in
    record nb { cur_line = i; cur_col = if ltb len nb.cur_col then len else nb.cur_col }

pub arrow_up : NoteBuffer → NoteBuffer
arrow_up nb = if ltb 0 nb.cur_line then at_line nb (nb.cur_line - 1) else nb

pub arrow_down : NoteBuffer → NoteBuffer
arrow_down nb = if ltb nb.cur_line (nb.line_count - 1) then at_line nb (nb.cur_line + 1) else nb

pub type_char : NoteBuffer → ℕ → Bool × NoteBuffer
type_char nb c =
    if ltb (length (line_at nb.lines nb.cur_line)) (note_max_line_len - 1)
    then (
      true,
      record nb {
        lines = set nb.lines nb.cur_line (insert_at (line_at nb.lines nb.cur_line) nb.cur_col c);
        cur_col = nb.cur_col + 1;
        dirty = true;
      },
    )
    else (false, nb)

-- The keys 255 to 252 are the arrows up, down, left and right.
pub note_handle_key : NoteBuffer → ℕ → Bool × NoteBuffer
note_handle_key nb c =
    if c == 10
    then split_line nb
    else (if c == 8
        then backspace nb
        else (if c == 253
            then (true, arrow_left nb)
            else (if c == 252
                then (true, arrow_right nb)
                else (if c == 255
                    then (true, arrow_up nb)
                    else (if c == 254
                        then (true, arrow_down nb)
                        else (if leb 32 c && ltb c 127 then type_char nb c else (false, nb)))))))

-- The loop of `note_load` over the bytes of the file, with the lines read so far, and where it ends.
-- A file is text: a byte 0 in it is outside of the model.
unfoldable pub load_loop : List ℕ → (line col : ℕ) → List (List ℕ) → List (List ℕ) × ℕ × ℕ
load_loop [] line col lines = (lines, line, col)
load_loop (c ∷ bytes) line col lines =
    let next_line = load_loop bytes (line + 1) 0 lines in
    let kept = load_loop bytes line (col + 1) (set lines line (line_at lines line ++ (c ∷ []))) in
    let dropped = load_loop bytes line col lines in
    if ltb line note_max_lines
    then (if c == 10
        then next_line
        else (if ltb col (note_max_line_len - 1) then kept else dropped))
    else (lines, line, col)

-- The buffer for the bytes that were read of the file. A NUL written past the last line is left out.
unfoldable pub note_load : List ℕ → NoteBuffer
note_load bytes =
    let (lines, line, col) = load_loop bytes 0 0 (replicate note_max_lines []) in
    record { lines = lines; line_count = line + 1; cur_line = line; cur_col = col; dirty = false }

abbrev pub save_limit : ℕ
save_limit = 32766

-- The loop of `note_save`, `n` lines from line `i` on, with what is in `out`.
pub save_loop : List (List ℕ) → (i n : ℕ) → List ℕ → List ℕ
save_loop lines i zero out = out
save_loop lines i (suc n) out =
    let text = line_at lines i in
    let kept =
      if leb save_limit (length out + length text)
      then take (save_limit - length out) text
      else text in
    let more = save_loop lines (i + 1) n (out ++ kept ++ (if n == 0 then [] else 10 ∷ [])) in
    if ltb (length out) save_limit then more else out

-- The bytes that `note_save` hands to the file system.
pub note_bytes : NoteBuffer → List ℕ
note_bytes nb = save_loop nb.lines 0 nb.line_count []

-- `ok` is whether the file system wrote them.
unfoldable pub note_save : NoteBuffer → Bool → Bool × NoteBuffer
note_save nb ok = (ok, if ok then record nb { dirty = false } else nb)

-- The digits of a number, with a round for each.
unfoldable pub digits_loop : (fuel n digits : ℕ) → ℕ
digits_loop zero n digits = digits
digits_loop (suc fuel) n digits =
    let more = digits_loop fuel (n / 10) (digits + 1) in if leb 10 n then more else digits

unfoldable pub note_line_number_digits : NoteBuffer → ℕ
note_line_number_digits nb = digits_loop nb.line_count nb.line_count 1
