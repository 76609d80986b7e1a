-- ===== src/Noteedit/Lines.antt =====
-- The loops of kernel/noteedit.c over lines and characters.
use aioperatingsystem.Common.{
  ℕ, zero, suc, ◌+◌, ◌≤◌, ◌<◌, ◌≡◌, refl, ◌∙◌, ap, List, [], ◌∷◌, arith, set, length, length-set,
  get_or-set_self, get_or-set_ne,
}
use aioperatingsystem.Noteedit.{line_at, push_down, pull_up, remove_at, insert_at}

-- No line is longer than its bytes allow.
abbrev pub Short : List (List ℕ) → Type 0
Short lines = (i : ℕ) → length (line_at lines i) < 100

pub set-Short :
    (lines : List (List ℕ)) (i : ℕ) (line : List ℕ)
    → Short lines
    → length line < 100
    → Short (set lines i line)
set-Short [] i line h short j = h j
set-Short (l ∷ ls) zero line h short zero = short
set-Short (l ∷ ls) zero line h short (suc j) = h (suc j)
set-Short (l ∷ ls) (suc i) line h short zero = h 0
set-Short (l ∷ ls) (suc i) line h short (suc j) = set-Short ls i line (λ k. h (suc k)) short j

abbrev pub Kept : List (List ℕ) → List (List ℕ) → Type 0
Kept lines lines' = (length lines' ≡ length lines) × Short lines'

pub push_down_lem :
    (n first : ℕ) (lines : List (List ℕ)) → Short lines → Kept lines (push_down lines first n)
unfolding push_down
push_down_lem zero first lines h = (refl, h)
push_down_lem (suc n) first lines h =
    let line = line_at lines (first + n) in
    let rest =
      push_down_lem n first (set lines (first + suc n) line)
        (set-Short lines (first + suc n) line h (h (first + n))) in
    (rest.0 ∙ length-set lines (first + suc n) line, rest.1)

pub pull_up_lem : (n i : ℕ) (lines : List (List ℕ)) → Short lines → Kept lines (pull_up lines i n)
unfolding pull_up
pull_up_lem zero i lines h = (refl, h)
pull_up_lem (suc n) i lines h =
    let line = line_at lines (i + 1) in
    let rest = pull_up_lem n (i + 1) (set lines i line) (set-Short lines i line h (h (i + 1))) in
    (rest.0 ∙ length-set lines i line, rest.1)

-- Lines before `i` stay.
pub pull_up-before :
    (n i j : ℕ) (lines : List (List ℕ)) → j < i → line_at (pull_up lines i n) j ≡ line_at lines j
unfolding pull_up
pull_up-before zero i j lines h = refl
pull_up-before (suc n) i j lines h =
    pull_up-before n (i + 1) j (set lines i (line_at lines (i + 1))) (omega arith)
    ∙ get_or-set_ne lines i j (line_at lines (i + 1)) [] (λ e. omega arith)

pub length-remove_at :
    (line : List ℕ) (i : ℕ) → i < length line → length (remove_at line i) + 1 ≡ length line
unfolding remove_at
length-remove_at [] i h = absurd (omega arith)
length-remove_at (c ∷ cs) zero h = omega arith
length-remove_at (c ∷ cs) (suc i) h = omega (arith, length-remove_at cs i (omega arith))

pub length-insert_at : (line : List ℕ) (i c : ℕ) → length (insert_at line i c) ≡ length line + 1
unfolding insert_at
length-insert_at [] i c = omega arith
length-insert_at (d ∷ ds) zero c = omega arith
length-insert_at (d ∷ ds) (suc i) c = omega (arith, length-insert_at ds i c)

remove_at-insert_at :
    (line : List ℕ) (i c : ℕ) → i ≤ length line → remove_at (insert_at line i c) i ≡ line
unfolding remove_at insert_at
remove_at-insert_at [] zero c h = refl
remove_at-insert_at [] (suc i) c h = absurd (omega arith)
remove_at-insert_at (d ∷ ds) zero c h = refl
remove_at-insert_at (d ∷ ds) (suc i) c h =
    ap (λ t. d ∷ t) (remove_at-insert_at ds i c (omega arith))

set-set : (lines : List (List ℕ)) (i : ℕ) (a b : List ℕ) → set (set lines i a) i b ≡ set lines i b
set-set [] i a b = refl
set-set (l ∷ ls) zero a b = refl
set-set (l ∷ ls) (suc i) a b = ap (λ t. l ∷ t) (set-set ls i a b)

set-line_at : (lines : List (List ℕ)) (i : ℕ) → set lines i (line_at lines i) ≡ lines
set-line_at [] i = refl
set-line_at (l ∷ ls) zero = refl
set-line_at (l ∷ ls) (suc i) = ap (λ t. l ∷ t) (set-line_at ls i)

-- An insertion that is taken back.
pub undo :
    (lines : List (List ℕ)) (i col c : ℕ)
    → i < length lines
    → col ≤ length (line_at lines i)
    → let typed = set lines i (insert_at (line_at lines i) col c) in
      set typed i (remove_at (line_at typed i) col) ≡ lines
undo lines i col c there inside =
    let line = line_at lines i in
    ap (λ (t : List ℕ). set (set lines i (insert_at line col c)) i (remove_at t col))
      (get_or-set_self lines i (insert_at line col c) [] there)
    ∙ ap (λ (t : List ℕ). set (set lines i (insert_at line col c)) i t)
        (remove_at-insert_at line col c inside)
    ∙ set-set lines i (insert_at line col c) line
    ∙ set-line_at lines i
