-- ===== src/Noteedit/Valid.antt =====
-- Every key keeps the buffer of kernel/noteedit.c well formed.
use aioperatingsystem.Common.{
  not_leb, ℕ, ◌+◌, ◌-◌, ◌≤◌, ◌<◌, ◌≡◌, refl, ◌∙◌, ap, Bool, true, false, List, [], ◌++◌, arith, ltb,
  leb, ◌==◌, ◌&&◌, if◌then◌else◌, set, take, drop, length, length-set, length-append, length-take,
  length-drop, get_or-set_self,
}
use aioperatingsystem.Noteedit.{
  NoteBuffer, line_at, push_down, pull_up, remove_at, insert_at, split_line, merge_lines, backspace,
  arrow_left, arrow_right, at_line, arrow_up, arrow_down, type_char, note_handle_key,
}
use aioperatingsystem.Noteedit.Lines.{
  Short, set-Short, push_down_lem, pull_up_lem, pull_up-before, length-remove_at, length-insert_at,
}

pub record IsValid (nb : NoteBuffer) : Type 0 where
  pub storage : length nb.lines ≡ 200
  pub short : Short nb.lines
  pub count_in : nb.line_count ≤ 200
  pub line_in : nb.cur_line < nb.line_count
  pub col_in : nb.cur_col ≤ length (line_at nb.lines nb.cur_line)

if_IsValid :
    (b : Bool) (m n : NoteBuffer)
    → (b ≡ true → IsValid m)
    → (b ≡ false → IsValid n)
    → IsValid (if b then m else n)
if_IsValid true m n h g = h refl
if_IsValid false m n h g = g refl

abbrev Answers : Bool × NoteBuffer → Type 0
Answers r = IsValid r.1

if_Answers :
    (b : Bool) (m n : Bool × NoteBuffer)
    → (b ≡ true → Answers m)
    → (b ≡ false → Answers n)
    → Answers (if b then m else n)
if_Answers true m n h g = h refl
if_Answers false m n h g = g refl

is_less : (a b : ℕ) → ltb a b ≡ true → a < b
is_less a b h = ground arith

split_line-IsValid : (nb : NoteBuffer) → IsValid nb → Answers (split_line nb)
unfolding split_line
split_line-IsValid nb v =
    let n = nb.line_count - (nb.cur_line + 1) in
    let (same, short) = push_down_lem n (nb.cur_line + 1) nb.lines v.short in
    let moved = push_down nb.lines (nb.cur_line + 1) n in
    let cur = line_at moved nb.cur_line in
    let below = drop nb.cur_col cur in
    let short_below : Short (set moved (nb.cur_line + 1) below) =
      set-Short moved (nb.cur_line + 1) below short
        (omega (arith, length-drop nb.cur_col cur, short nb.cur_line)) in
    if_Answers (leb 200 nb.line_count) _ _ (λ full. v)
      (λ room. record {
        storage =
            length-set (set moved (nb.cur_line + 1) below) nb.cur_line (take nb.cur_col cur)
            ∙ length-set moved (nb.cur_line + 1) below
            ∙ same
            ∙ v.storage;
        short =
            set-Short (set moved (nb.cur_line + 1) below) nb.cur_line (take nb.cur_col cur)
              short_below (omega (arith, length-take nb.cur_col cur, short nb.cur_line));
        count_in = omega (arith, not_leb 200 nb.line_count room);
        line_in = omega (arith, v.line_in);
        col_in = omega arith;
      })

-- A buffer with one line replaced and the cursor in it.
edit_line :
    (nb : NoteBuffer) (line : List ℕ) (col : ℕ)
    → IsValid nb
    → length line < 100
    → col ≤ length line
    → IsValid (record nb { lines = set nb.lines nb.cur_line line; cur_col = col; dirty = true })
edit_line nb line col v short inside =
    let there : line_at (set nb.lines nb.cur_line line) nb.cur_line ≡ line =
      get_or-set_self nb.lines nb.cur_line line []
        (omega (arith, v.storage, v.line_in, v.count_in)) in
    record {
      storage = length-set nb.lines nb.cur_line line ∙ v.storage;
      short = set-Short nb.lines nb.cur_line line v.short short;
      count_in = v.count_in;
      line_in = v.line_in;
      col_in = omega (arith, inside, ap length there);
    }

merge_lines-IsValid : (nb : NoteBuffer) → IsValid nb → 0 < nb.cur_line → Answers (merge_lines nb)
unfolding merge_lines
merge_lines-IsValid nb v later =
    let prev = line_at nb.lines (nb.cur_line - 1) in
    let this = line_at nb.lines nb.cur_line in
    let joined = set nb.lines (nb.cur_line - 1) (prev ++ this) in
    let n = nb.line_count - 1 - nb.cur_line in
    if_Answers (ltb (length prev + length this) 100) _ _
      (λ fits.
        let both : length (prev ++ this) ≡ length prev + length this = length-append prev this in
        let up = pull_up_lem n nb.cur_line joined (
          set-Short nb.lines (nb.cur_line - 1) (prev ++ this) v.short
            (omega (arith, both, is_less (length prev + length this) 100 fits))) in
        let there : line_at (pull_up joined nb.cur_line n) (nb.cur_line - 1) ≡ prev ++ this =
          pull_up-before n nb.cur_line (nb.cur_line - 1) joined (omega arith)
          ∙ get_or-set_self nb.lines (nb.cur_line - 1) (prev ++ this) []
              (omega (arith, v.storage, v.line_in, v.count_in)) in
        record {
          storage = up.0 ∙ length-set nb.lines (nb.cur_line - 1) (prev ++ this) ∙ v.storage;
          short = up.1;
          count_in = omega (arith, v.count_in);
          line_in = omega (arith, v.line_in);
          col_in = omega (arith, ap length there, both);
        })
      (λ full. v)

backspace-IsValid : (nb : NoteBuffer) → IsValid nb → Answers (backspace nb)
unfolding backspace
backspace-IsValid nb v =
    let line = line_at nb.lines nb.cur_line in
    if_Answers (ltb 0 nb.cur_col) _ _
      (λ inside.
        let before = is_less 0 nb.cur_col inside in
        let shorter = length-remove_at line (nb.cur_col - 1) (omega (arith, v.col_in)) in
        edit_line nb (remove_at line (nb.cur_col - 1)) (nb.cur_col - 1) v
          (omega (arith, shorter, v.short nb.cur_line)) (omega (arith, shorter, v.col_in)))
      (λ start.
        if_Answers (ltb 0 nb.cur_line) _ _
          (λ later. merge_lines-IsValid nb v (is_less 0 nb.cur_line later)) (λ first. v))

type_char-IsValid : (nb : NoteBuffer) (c : ℕ) → IsValid nb → Answers (type_char nb c)
unfolding type_char
type_char-IsValid nb c v =
    let line = line_at nb.lines nb.cur_line in
    let longer = length-insert_at line nb.cur_col c in
    if_Answers (ltb (length line) 99) _ _
      (λ room.
        edit_line nb (insert_at line nb.cur_col c) (nb.cur_col + 1) v
          (omega (arith, longer, is_less (length line) 99 room)) (omega (arith, longer, v.col_in)))
      (λ full. v)

-- The cursor moves to a place in the text.
move_cursor :
    (nb : NoteBuffer) (i col : ℕ)
    → IsValid nb
    → i < nb.line_count
    → col ≤ length (line_at nb.lines i)
    → IsValid (record nb { cur_line = i; cur_col = col })
move_cursor nb i col v line_in col_in = record {
  storage = v.storage;
  short = v.short;
  count_in = v.count_in;
  line_in = line_in;
  col_in = col_in;
}

at_line-IsValid :
    (nb : NoteBuffer) (i : ℕ) → IsValid nb → i < nb.line_count → IsValid (at_line nb i)
at_line-IsValid nb i v h = move_cursor nb i _ v h (clamped (length (line_at nb.lines i)) nb.cur_col)
  where
    clamped : (len col : ℕ) → (if ltb len col then len else col) ≤ len
    clamped len col = ground arith

arrow_left-IsValid : (nb : NoteBuffer) → IsValid nb → IsValid (arrow_left nb)
unfolding arrow_left
arrow_left-IsValid nb v =
    if_IsValid (ltb 0 nb.cur_col) _ _
      (λ inside. move_cursor nb nb.cur_line (nb.cur_col - 1) v v.line_in (omega (arith, v.col_in)))
      (λ start.
        if_IsValid (ltb 0 nb.cur_line) _ _
          (λ later.
            move_cursor nb (nb.cur_line - 1) (length (line_at nb.lines (nb.cur_line - 1))) v
              (omega (arith, v.line_in)) (omega arith))
          (λ first. v))

arrow_right-IsValid : (nb : NoteBuffer) → IsValid nb → IsValid (arrow_right nb)
unfolding arrow_right
arrow_right-IsValid nb v =
    if_IsValid (ltb nb.cur_col (length (line_at nb.lines nb.cur_line))) _ _
      (λ inside.
        move_cursor nb nb.cur_line (nb.cur_col + 1) v v.line_in
          (omega (arith, is_less nb.cur_col (length (line_at nb.lines nb.cur_line)) inside)))
      (λ end.
        if_IsValid (ltb nb.cur_line (nb.line_count - 1)) _ _
          (λ more.
            move_cursor nb (nb.cur_line + 1) 0 v
              (omega (arith, is_less nb.cur_line (nb.line_count - 1) more)) (omega arith))
          (λ last. v))

arrow_up-IsValid : (nb : NoteBuffer) → IsValid nb → IsValid (arrow_up nb)
unfolding arrow_up
arrow_up-IsValid nb v =
    if_IsValid (ltb 0 nb.cur_line) _ _
      (λ later. at_line-IsValid nb (nb.cur_line - 1) v (omega (arith, v.line_in))) (λ first. v)

arrow_down-IsValid : (nb : NoteBuffer) → IsValid nb → IsValid (arrow_down nb)
unfolding arrow_down
arrow_down-IsValid nb v =
    if_IsValid (ltb nb.cur_line (nb.line_count - 1)) _ _
      (λ more.
        at_line-IsValid nb (nb.cur_line + 1) v
          (omega (arith, is_less nb.cur_line (nb.line_count - 1) more)))
      (λ last. v)

-- Every key keeps a well-formed buffer so: 200 lines of less than 100 characters, the cursor on one of
-- the lines in use and no further right than that line is long.
pub note_handle_key-IsValid :
    (nb : NoteBuffer) (c : ℕ) → IsValid nb → IsValid (note_handle_key nb c).1
unfolding note_handle_key
note_handle_key-IsValid nb c v =
    if_Answers (c == 10) _ _ (λ e. split_line-IsValid nb v)
      (λ e.
        if_Answers (c == 8) _ _ (λ e. backspace-IsValid nb v)
          (λ e.
            if_Answers (c == 253) _ _ (λ e. arrow_left-IsValid nb v)
              (λ e.
                if_Answers (c == 252) _ _ (λ e. arrow_right-IsValid nb v)
                  (λ e.
                    if_Answers (c == 255) _ _ (λ e. arrow_up-IsValid nb v)
                      (λ e.
                        if_Answers (c == 254) _ _ (λ e. arrow_down-IsValid nb v)
                          (λ e.
                            if_Answers (leb 32 c && ltb c 127) _ _ (λ e. type_char-IsValid nb c v)
                              (λ e. v)))))))
