-- ===== src/Asm/Lines.antt =====
-- kernel/asm.c: the loop over the lines of a source.
use aioperatingsystem.Common.{
  ℕ, zero, suc, ◌+◌, ◌≤◌, ◌≡◌, refl, ap, ◌∙◌, List, [], ◌∷◌, Bool, true, false, some, ◌==◌, length,
  if◌then◌else◌, ltb, ap₂, arith,
}
use aioperatingsystem.Asm.Encode.{AssemblerState, code_len, Message}
use aioperatingsystem.Asm.Assemble.{
  assemble_line, read_line, skip_newline, assemble_lines, empty_assembler, patch_jumps, Patched,
  Outcome, finish, link,
}
use aioperatingsystem.Asm.Steps.{Keeps, Keeps-trans, Keeps-refl}
use aioperatingsystem.Asm.Valid.{IsValid, Good, empty_assembler-IsValid, assemble_line-Good}

read_line_rest : (room : ℕ) (s : List ℕ) → length (read_line room s).1 ≤ length s
unfolding read_line
read_line_rest room [] = omega arith
read_line_rest zero (c ∷ s) = omega arith
read_line_rest (suc room) (c ∷ s) = by_test (c == 10) (read_line_rest room s)
  where
    by_test :
        (t : Bool)
        → length (read_line room s).1 ≤ length s
        → length
            (elim t as (λ t. List ℕ × List ℕ) [
              | true ↦ ([], c ∷ s)
              | false ↦ (c ∷ (read_line room s).0, (read_line room s).1)
            ]).1
          ≤ suc (length s)
    by_test true h = omega arith
    by_test false h = omega arith

length-skip_newline : (s : List ℕ) → length (skip_newline s) ≤ length s
length-skip_newline [] = omega arith
length-skip_newline (c ∷ s) = by_test (c == 10)
  where
    by_test : (t : Bool) → length (if t then s else c ∷ s) ≤ suc (length s)
    by_test true = omega arith
    by_test false = omega arith

-- A line takes a character at least.
read_line_less :
    (room c : ℕ) (s : List ℕ) → length (skip_newline (read_line (suc room) (c ∷ s)).1) ≤ length s
unfolding read_line
read_line_less room c s = by_test (c == 10) refl
  where
    by_test :
        (t : Bool)
        → (c == 10) ≡ t
        → length (
            skip_newline
              (elim t as (λ t. List ℕ × List ℕ) [
                | true ↦ ([], c ∷ s)
                | false ↦ (c ∷ (read_line room s).0, (read_line room s).1)
              ]).1)
          ≤ length s
    by_test true e = omega (arith, ap (λ t. length (if t then s else c ∷ s)) e)
    by_test false e = omega (arith, length-skip_newline (read_line room s).1, read_line_rest room s)

-- What the loop ends in.
Finished : (fuel : ℕ) → List ℕ → (n : ℕ) → AssemblerState → Type 0
Finished fuel s n st =
    (st' : AssemblerState) × (assemble_lines fuel s n st ≡ some st') × Good st st'

assemble_lines_lem :
    (fuel : ℕ) (s : List ℕ) (n : ℕ) (st : AssemblerState)
    → length s ≤ fuel
    → IsValid st
    → Finished fuel s n st
unfolding assemble_lines Finished
assemble_lines_lem zero [] n st h v = (st, refl, (v, Keeps-refl st))
assemble_lines_lem (suc fuel) [] n st h v = (st, refl, (v, Keeps-refl st))
assemble_lines_lem zero (c ∷ s) n st h v = absurd (omega arith)
assemble_lines_lem (suc fuel) (c ∷ s) n st h v =
    let r = read_line 95 (c ∷ s) in
    let next = assemble_line st r.0 (n + 1) in
    let good = assemble_line-Good st v r.0 (n + 1) in
    let rest =
      assemble_lines_lem fuel (skip_newline r.1) (n + 1) next (omega (arith, read_line_less 94 c s))
        good.0 in
    (rest.0, rest.1, (rest.2.0, Keeps-trans st next rest.0 good.1 rest.2.1))

-- The loop over the lines ends on every source with a round for each character, and the state it ends in
-- keeps the bounds: at most 65536 bytes of code, 128 labels that stand in the code and fit their 32 bytes,
-- and 512 jumps, each with its displacement in the last byte before the next instruction, or at the end of
-- a code that is full, one behind the other.
pub assemble_lines-IsValid :
    (source : List ℕ)
    → (st : AssemblerState) × (assemble_lines (length source) source 0 empty_assembler ≡ some st)
      × IsValid st
unfolding Finished
assemble_lines-IsValid source =
    let r =
      assemble_lines_lem (length source) source 0 empty_assembler (omega arith)
        empty_assembler-IsValid in
    (r.0, r.1, r.2.0)

-- Once a state within the bounds has failed, whatever lines follow and whatever the capacity is, the loop
-- ends and the assembler refuses the source with the message and the line number that this state holds.
pub first_error :
    (st : AssemblerState) (s : List ℕ) (n out_capacity : ℕ)
    → IsValid st
    → st.failed ≡ true
    → (st' : AssemblerState) × (assemble_lines (length s) s n st ≡ some st')
      × (link st' out_capacity ≡ Outcome.refused st.error st.error_line)
unfolding Finished link finish
first_error st s n out_capacity v failed =
    let r = assemble_lines_lem (length s) s n st (omega arith) v in
    let st' = r.0 in
    let keeps : Keeps st st' = r.2.1 in
    let failed' : st'.failed ≡ true = keeps.failed failed in
    (
      st',
      r.1,
      ap
            (λ t. elim t [
              | true ↦ finish st' out_capacity
              | false ↦ elim (patch_jumps st'.fixups st') [
                | Patched.patched done ↦ finish done out_capacity
                | Patched.overrun ↦ Outcome.overwritten
              ]
            ])
            failed'
          ∙ ap
              (λ t.
                if t
                then Outcome.refused st'.error st'.error_line
                else if ltb out_capacity (code_len st')
                then Outcome.refused Message.program_too_large 0
                else Outcome.assembled st'.code)
              failed'
          ∙ ap₂ Outcome.refused (keeps.error failed) (keeps.error_line failed),
    )
