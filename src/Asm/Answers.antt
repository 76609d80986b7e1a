-- ===== src/Asm/Answers.antt =====
-- kernel/asm.c: what the assembler answers for a whole source.
use aioperatingsystem.Common.{
  ℕ, ◌≤◌, min, ◌≡◌, ◌≢◌, refl, sym, ap, ◌∙◌, subst, List, [], ◌∷◌, Bool, true, false, Option, none,
  some, ltb, not_ltb, length, length-set, get_or, set, All, if◌then◌else◌, inl, inr, arith,
}
use aioperatingsystem.Asm.Encode.{JumpFixup, Message, AssemblerState, code_len, fail}
use aioperatingsystem.Asm.Assemble.{
  find_label, displacement, assemble_lines, empty_assembler, Patched, patch_jumps, Outcome, finish,
  link, asm_assemble,
}
use aioperatingsystem.Asm.Valid.{IsFixup, IsValid}
use aioperatingsystem.Asm.Lines.{assemble_lines-IsValid}
use aioperatingsystem.Asm.Jumps.{Jumps, patch_jumps_lem}

-- What it takes to be accepted.
record IsAccepted (st : AssemblerState) (out_capacity : ℕ) (code : List ℕ) : Type 0 where
  sound : st.failed ≡ false
  same : st.code ≡ code
  small : code_len st ≤ out_capacity

assembled_injective : (a b : List ℕ) → Outcome.assembled a ≡ Outcome.assembled b → a ≡ b
assembled_injective a b e = cc

finish_lem :
    (st : AssemblerState) (out_capacity : ℕ) (code : List ℕ)
    → finish st out_capacity ≡ Outcome.assembled code
    → IsAccepted st out_capacity code
unfolding finish
finish_lem st out_capacity code e = by_tests st.failed (ltb out_capacity (code_len st)) refl refl e
  where
    by_tests :
        (f t : Bool)
        → st.failed ≡ f
        → ltb out_capacity (code_len st) ≡ t
        → (if f
            then Outcome.refused st.error st.error_line
            else if t
            then Outcome.refused Message.program_too_large 0
            else Outcome.assembled st.code)
          ≡ Outcome.assembled code
        → IsAccepted st out_capacity code
    by_tests true t p q h = absurd (ground arith)
    by_tests false true p q h = absurd (ground arith)
    by_tests false false p q h = record {
      sound = p;
      same = assembled_injective st.code code h;
      small = not_ltb out_capacity (code_len st) q;
    }

never_overwritten :
    (st : AssemblerState) (out_capacity : ℕ) → finish st out_capacity ≡ Outcome.overwritten → ⊥
unfolding finish
never_overwritten st out_capacity e = by_tests st.failed (ltb out_capacity (code_len st)) e
  where
    by_tests :
        (f t : Bool)
        → (if f
            then Outcome.refused st.error st.error_line
            else if t
            then Outcome.refused Message.program_too_large 0
            else Outcome.assembled st.code)
          ≡ Outcome.overwritten
        → ⊥
    by_tests true t h = ground arith
    by_tests false true h = ground arith
    by_tests false false h = ground arith

-- The first displacement that does not fit the code stands at its very end.
overrun_lem :
    (fs : List JumpFixup) (st : AssemblerState)
    → All (IsFixup (code_len st)) fs
    → code_len st ≤ 65536
    → patch_jumps fs st ≡ Patched.overrun
    → code_len st ≡ 65536
unfolding patch_jumps
overrun_lem [] st v fits e = absurd (ground arith)
overrun_lem (fx ∷ fs) st (v, vs) fits e = by_label (find_label st.labels fx.label) e (λ rel h.
    sym (length-set st.code fx.patch_offset rel)
    ∙ overrun_lem fs (record st { code = set st.code fx.patch_offset rel })
        (subst (λ (k : ℕ). All (IsFixup k) fs) (sym (length-set st.code fx.patch_offset rel)) vs)
        (omega (arith, length-set st.code fx.patch_offset rel)) h)
  where
    Later : Type 0
    Later =
        (rel : ℕ)
        → patch_jumps fs (record st { code = set st.code fx.patch_offset rel }) ≡ Patched.overrun
        → code_len st ≡ 65536

    full : ltb fx.patch_offset 65536 ≡ false → IsFixup (code_len st) fx → code_len st ≡ 65536
    full t (inl (a, b)) = omega (arith, not_ltb fx.patch_offset 65536 t)
    full t (inr (a, b, c)) = c

    by_room :
        (rel : ℕ) (t : Bool)
        → ltb fx.patch_offset 65536 ≡ t
        → elim t [
          | true ↦ patch_jumps fs (record st { code = set st.code fx.patch_offset rel })
          | false ↦ Patched.overrun
        ]
          ≡ Patched.overrun
        → Later
        → code_len st ≡ 65536
    by_room rel true t h ih = ih rel h
    by_room rel false t h ih = full t v

    by_range :
        (d : Option ℕ)
        → elim d [
          | none ↦ Patched.patched (fail st fx.line_number Message.jump_too_far)
          | some rel ↦ elim (ltb fx.patch_offset 65536) [
            | true ↦ patch_jumps fs (record st { code = set st.code fx.patch_offset rel })
            | false ↦ Patched.overrun
          ]
        ]
          ≡ Patched.overrun
        → Later
        → code_len st ≡ 65536
    by_range none h ih = absurd (ground arith)
    by_range (some rel) h ih = by_room rel (ltb fx.patch_offset 65536) refl h ih

    by_label :
        (t : Option ℕ)
        → elim t [
          | none ↦ Patched.patched (fail st fx.line_number Message.undefined_label)
          | some target ↦ elim (displacement target fx.next_instr_offset) [
            | none ↦ Patched.patched (fail st fx.line_number Message.jump_too_far)
            | some rel ↦ elim (ltb fx.patch_offset 65536) [
              | true ↦ patch_jumps fs (record st { code = set st.code fx.patch_offset rel })
              | false ↦ Patched.overrun
            ]
          ]
        ]
          ≡ Patched.overrun
        → Later
        → code_len st ≡ 65536
    by_label none h ih = absurd (ground arith)
    by_label (some target) h ih = by_range (displacement target fx.next_instr_offset) h ih

-- What is said of an answer, with the state after the lines.
abbrev pub IsAnswer : (st : AssemblerState) (out_capacity : ℕ) → Outcome → Type 0
IsAnswer st out_capacity (Outcome.assembled code) =
    (length code ≡ code_len st)
    × (length code ≤ min out_capacity 65536)
    × All (Jumps st.labels code) st.fixups
    × ((i : ℕ)
        → All (λ (fx : JumpFixup). fx.patch_offset ≢ i) st.fixups
        → get_or code i 0 ≡ get_or st.code i 0)
IsAnswer st out_capacity (Outcome.refused msg line) = Unit
IsAnswer st out_capacity Outcome.overwritten = code_len st ≡ 65536

patched-IsAnswer :
    (st done : AssemblerState) (out_capacity : ℕ)
    → IsValid st
    → patch_jumps st.fixups st ≡ Patched.patched done
    → IsAnswer st out_capacity (finish done out_capacity)
patched-IsAnswer st done out_capacity v e = by_outcome (finish done out_capacity) refl
  where
    by_outcome : (o : Outcome) → finish done out_capacity ≡ o → IsAnswer st out_capacity o
    by_outcome (Outcome.assembled code) f =
        let ok = finish_lem done out_capacity code f in
        let p = patch_jumps_lem st.fixups 0 st done v.ordered v.fixups_in v.fits e ok.sound in
        (
          ap length (sym ok.same) ∙ p.len,
          omega (arith, ap length ok.same, ok.small, p.len, v.fits),
          subst (λ (c : List ℕ). All (Jumps st.labels c) st.fixups) ok.same p.jumps,
          (λ i h. ap (λ (c : List ℕ). get_or c i 0) (sym ok.same) ∙ p.others i h),
        )
    by_outcome (Outcome.refused msg line) f = tt
    by_outcome Outcome.overwritten f = absurd (never_overwritten done out_capacity f)

not_both : (b : Bool) → b ≡ true → b ≡ false → ⊥
not_both b p q = ground (arith, p, q)

failed-IsAnswer :
    (st : AssemblerState) (out_capacity : ℕ)
    → st.failed ≡ true
    → IsAnswer st out_capacity (finish st out_capacity)
failed-IsAnswer st out_capacity e = by_outcome (finish st out_capacity) refl
  where
    by_outcome : (o : Outcome) → finish st out_capacity ≡ o → IsAnswer st out_capacity o
    by_outcome (Outcome.assembled code) f =
        let ok = finish_lem st out_capacity code f in absurd (not_both st.failed e ok.sound)
    by_outcome (Outcome.refused msg line) f = tt
    by_outcome Outcome.overwritten f = absurd (never_overwritten st out_capacity f)

link-IsAnswer :
    (st : AssemblerState) (out_capacity : ℕ)
    → IsValid st
    → IsAnswer st out_capacity (link st out_capacity)
unfolding link
link-IsAnswer st out_capacity v = by_flag st.failed refl
  where
    by_pass :
        (p : Patched)
        → patch_jumps st.fixups st ≡ p
        → IsAnswer st out_capacity (elim p [
          | Patched.patched done ↦ finish done out_capacity
          | Patched.overrun ↦ Outcome.overwritten
        ])
    by_pass (Patched.patched done) e = patched-IsAnswer st done out_capacity v e
    by_pass Patched.overrun e = overrun_lem st.fixups st v.fixups_in v.fits e

    by_flag :
        (t : Bool)
        → st.failed ≡ t
        → IsAnswer st out_capacity (elim t [
          | true ↦ finish st out_capacity
          | false ↦ elim (patch_jumps st.fixups st) [
            | Patched.patched done ↦ finish done out_capacity
            | Patched.overrun ↦ Outcome.overwritten
          ]
        ])
    by_flag true e = failed-IsAnswer st out_capacity e
    by_flag false e = by_pass (patch_jumps st.fixups st) refl

-- The assembler answers on every source, with a round of fuel for each character. Where the answer is a
-- program, it is as long as the code that the lines gave and fits the capacity and the code buffer; every
-- jump that was noted goes to the first label of its name, by the displacement that its last byte gives as
-- a number with a sign; and all other bytes are those that the lines gave. The write that would fall behind
-- the code buffer, on its length, can only come up when the buffer is full.
pub asm_assemble_lem :
    (source : List ℕ) (out_capacity : ℕ)
    → (st : AssemblerState) × (answer : Outcome) × (assemble_lines
          (length source)
          source
          0
          empty_assembler
        ≡ some st)
      × (asm_assemble (length source) source out_capacity ≡ some answer)
      × IsAnswer st out_capacity answer
unfolding asm_assemble
asm_assemble_lem source out_capacity =
    let r = assemble_lines-IsValid source in
    let st = r.0 in
    (
      st,
      link st out_capacity,
      r.1,
      ap
          (λ (o : Option AssemblerState). elim o [
            | none ↦ none
            | some s ↦ some (link s out_capacity)
          ])
          r.1,
      link-IsAnswer st out_capacity r.2,
    )
