-- ===== src/Asm/Valid.antt =====
-- kernel/asm.c: the bounds of the assembler's arrays and the order of its jumps, line by line.
use aioperatingsystem.Common.{
  ℕ, suc, ◌≤◌, min, ◌≡◌, refl, sym, ap, subst, List, [], ◌∷◌, ◌++◌, Bool, true, false, Option, none,
  some, ltb, leb, ltb→lt, not_ltb, not_leb, ◌!=◌, if◌then◌else◌, length, length-append, All, arith,
  ◌⊎◌, inl, inr, codes, str_eq, take, length-take,
}
use aioperatingsystem.Asm.{local_strncpy}
use aioperatingsystem.Asm.Tokens.{LineTokens, tokenize_line}
use aioperatingsystem.Asm.Encode.{
  Label, JumpFixup, Message, AssemblerState, code_len, emit_byte, fail,
}
use aioperatingsystem.Asm.Assemble.{
  find_label, add_label, jump_opcode_for, assemble_jump, assemble_plain, assemble_line,
  empty_assembler,
}
use aioperatingsystem.Asm.Steps.{
  Keeps, Keeps-refl, Step, Step-trans, emit_byte-Step, fail-Step, assemble_plain-Step,
}

-- A label stands in the code, and its name in 32 bytes with the NUL.
abbrev pub IsLabel : (len : ℕ) → Label → Type 0
IsLabel len l = (l.offset ≤ len) × (length l.name ≤ 31)

-- The displacement is the byte before the next instruction, or there was no room for it.
abbrev pub IsFixup : (len : ℕ) → JumpFixup → Type 0
IsFixup len fx =
    ((fx.next_instr_offset ≡ suc fx.patch_offset) × (fx.next_instr_offset ≤ len))
    ⊎ ((fx.patch_offset ≡ 65536) × (fx.next_instr_offset ≡ 65536) × (len ≡ 65536))

-- The displacements stand one behind the other, from `lo` on.
abbrev pub InOrder : (lo : ℕ) → List JumpFixup → Type 0
InOrder lo [] = Unit
InOrder lo (fx ∷ fixups) = (lo ≤ fx.patch_offset) × InOrder (min (suc fx.patch_offset) 65536) fixups

pub record IsValid (st : AssemblerState) : Type 0 where
  pub fits : code_len st ≤ 65536
  pub label_count : length st.labels ≤ 128
  pub labels_in : All (IsLabel (code_len st)) st.labels
  pub fixup_count : length st.fixups ≤ 512
  pub fixups_in : All (IsFixup (code_len st)) st.fixups
  pub ordered : InOrder 0 st.fixups

pub empty_assembler-IsValid : IsValid empty_assembler
empty_assembler-IsValid = record {
  fits = omega arith;
  label_count = omega arith;
  labels_in = tt;
  fixup_count = omega arith;
  fixups_in = tt;
  ordered = tt;
}

-- More code keeps what is in bounds.
labels_carry :
    (len len' : ℕ) (ls : List Label) → len ≤ len' → All (IsLabel len) ls → All (IsLabel len') ls
labels_carry len len' [] h p = tt
labels_carry len len' (l ∷ ls) h ((a, b), p) = ((omega arith, b), labels_carry len len' ls h p)

IsFixup-longer :
    (len len' : ℕ) (fx : JumpFixup) → len ≤ len' → len' ≤ 65536 → IsFixup len fx → IsFixup len' fx
IsFixup-longer len len' fx h k (inl (a, b)) = inl (a, omega arith)
IsFixup-longer len len' fx h k (inr (a, b, c)) = inr (a, b, omega arith)

fixups_carry :
    (len len' : ℕ) (fs : List JumpFixup)
    → len ≤ len'
    → len' ≤ 65536
    → All (IsFixup len) fs
    → All (IsFixup len') fs
fixups_carry len len' [] h k p = tt
fixups_carry len len' (fx ∷ fs) h k (a, p) =
    (IsFixup-longer len len' fx h k a, fixups_carry len len' fs h k p)

Step-IsValid : (st st' : AssemblerState) → Step st st' → IsValid st → IsValid st'
Step-IsValid st st' p v =
    let fits' = p.fits v.fits in
    record {
      fits = fits';
      label_count = omega (arith, ap length p.labels, v.label_count);
      labels_in =
          subst (All (IsLabel (code_len st'))) (sym p.labels)
            (labels_carry (code_len st) (code_len st') st.labels p.longer v.labels_in);
      fixup_count = omega (arith, ap length p.fixups, v.fixup_count);
      fixups_in =
          subst (All (IsFixup (code_len st'))) (sym p.fixups)
            (fixups_carry (code_len st) (code_len st') st.fixups p.longer fits' v.fixups_in);
      ordered = subst (InOrder 0) (sym p.fixups) v.ordered;
    }

All-append :
    {A : Type 0} (P : A → Type 0) (xs : List A) (y : A) → All P xs → P y → All P (xs ++ (y ∷ []))
All-append P [] y p q = (q, tt)
All-append P (x ∷ xs) y (a, p) q = (a, All-append P xs y p q)

-- A jump is placed at the end of the code, behind the others.
ordered_append :
    (lo len : ℕ) (fs : List JumpFixup) (fx : JumpFixup)
    → lo ≤ len
    → len ≤ 65536
    → len ≤ fx.patch_offset
    → All (IsFixup len) fs
    → InOrder lo fs
    → InOrder lo (fs ++ (fx ∷ []))
ordered_append lo len [] fx h k m p o = (omega arith, tt)
ordered_append lo len (f ∷ fs) fx h k m (inl (a, b), p) (l, o) =
    (l, ordered_append (min (suc f.patch_offset) 65536) len fs fx (omega arith) k m p o)
ordered_append lo len (f ∷ fs) fx h k m (inr (a, b, c), p) (l, o) =
    (l, ordered_append (min (suc f.patch_offset) 65536) len fs fx (omega arith) k m p o)

-- A good successor: the bounds hold again, and the first error stays.
abbrev pub Good : (st st' : AssemblerState) → Type 0
Good st st' = IsValid st' × Keeps st st'

Step-Good : (st st' : AssemblerState) → IsValid st → Step st st' → Good st st'
Step-Good st st' v p = (Step-IsValid st st' p v, p.keeps)

if-Good :
    (st : AssemblerState) (t : Bool) (a b : AssemblerState)
    → (t ≡ true → Good st a)
    → (t ≡ false → Good st b)
    → Good st (if t then a else b)
if-Good st true a b p q = p refl
if-Good st false a b p q = q refl

option-Good :
    (st : AssemblerState) (A : Type 0) (o : Option A) (d : AssemblerState) (f : A → AssemblerState)
    → Good st d
    → ((a : A) → Good st (f a))
    → Good st (elim o [ none ↦ d | some a ↦ f a ])
option-Good st A none d f p q = p
option-Good st A (some a) d f p q = q a

emitted_zero :
    (s : AssemblerState)
    → code_len s ≤ 65536
    → ((code_len (emit_byte s 0x00) ≡ suc (code_len s))
        × (code_len (emit_byte s 0x00) ≤ code_len (emit_byte s 0x00)))
      ⊎ ((code_len s ≡ 65536)
          × (code_len (emit_byte s 0x00) ≡ 65536)
          × (code_len (emit_byte s 0x00) ≡ 65536))
unfolding emit_byte
emitted_zero s h = by_test (ltb (code_len s) 65536) refl
  where
    by_test :
        (t : Bool)
        → ltb (code_len s) 65536 ≡ t
        → let len = length (if t then s.code ++ (0x00 ∷ []) else s.code) in
          ((len ≡ suc (code_len s)) × (len ≤ len))
          ⊎ ((code_len s ≡ 65536) × (len ≡ 65536) × (len ≡ 65536))
    by_test true e = inl (omega (arith, length-append s.code (0x00 ∷ [])), omega arith)
    by_test false e =
        let full : code_len s ≡ 65536 = omega (arith, not_ltb (code_len s) 65536 e) in
        inr (full, full, full)

module _ (st : AssemblerState) (v : IsValid st) where
  refuse : (n : ℕ) (msg : Message) → Good st (fail st n msg)
  refuse n msg = Step-Good st (fail st n msg) v (fail-Step st n msg)

  add_label-Good : (name : List ℕ) (n : ℕ) → Good st (add_label st name (code_len st) n)
  unfolding add_label local_strncpy
  add_label-Good name n =
      let new : Label = record { name = take 31 name; offset = code_len st } in
      option-Good st ℕ (find_label st.labels name) _ _
        (if-Good st (leb 128 (length st.labels)) _ _ (λ e. refuse n Message.too_many_labels)
          (λ e. (
            record {
              fits = v.fits;
              label_count =
                  omega
                    (arith, not_leb 128 (length st.labels) e, length-append st.labels (new ∷ []));
              labels_in =
                  All-append (IsLabel (code_len st)) st.labels new v.labels_in
                    (omega arith, omega (arith, length-take 31 name));
              fixup_count = v.fixup_count;
              fixups_in = v.fixups_in;
              ordered = v.ordered;
            },
            record { failed = λ h. h; error = λ h. refl; error_line = λ h. refl },
          )))
        (λ found. refuse n Message.duplicate_label)

  assemble_jump-Good : (tok : LineTokens) (opcode n : ℕ) → Good st (assemble_jump st tok opcode n)
  unfolding assemble_jump
  assemble_jump-Good tok opcode n =
      let st1 = emit_byte st opcode in
      let st2 = emit_byte st1 0x00 in
      let p1 = emit_byte-Step st opcode in
      let p2 = Step-trans st st1 st2 p1 (emit_byte-Step st1 0x00) in
      let v2 = Step-IsValid st st2 p2 v in
      let new : JumpFixup = record {
        patch_offset = code_len st1;
        label = local_strncpy tok.arg1 31;
        next_instr_offset = code_len st2;
        line_number = n;
      } in
      if-Good st (tok.arg_count != 1) _ _ (λ e. refuse n Message.jump_needs_label)
        (λ e.
          if-Good st (ltb (length st2.fixups) 512)
            (record st2 { fixups = st2.fixups ++ (new ∷ []) }) st2
            (λ t. (
              record {
                fits = v2.fits;
                label_count = v2.label_count;
                labels_in = v2.labels_in;
                fixup_count =
                    omega (
                      arith,
                      ltb→lt (length st2.fixups) 512 t,
                      length-append st2.fixups (new ∷ []),
                    );
                fixups_in =
                    All-append (IsFixup (code_len st2)) st2.fixups new v2.fixups_in
                      (emitted_zero st1 (p1.fits v.fits));
                ordered =
                    subst (λ (fs : List JumpFixup). InOrder 0 (fs ++ (new ∷ []))) (sym p2.fixups)
                      (ordered_append 0 (code_len st) st.fixups new (omega arith) v.fits p1.longer
                        v.fixups_in v.ordered);
              },
              record {
                failed = p2.keeps.failed;
                error = p2.keeps.error;
                error_line = p2.keeps.error_line;
              },
            ))
            (λ t. (v2, p2.keeps)))

  pub assemble_line-Good : (line : List ℕ) (n : ℕ) → Good st (assemble_line st line n)
  unfolding assemble_line
  assemble_line-Good line n =
      option-Good st LineTokens (tokenize_line line) _ _ (v, Keeps-refl st)
        (λ tok.
          if-Good st (str_eq tok.op (codes ":")) _ _ (λ e. add_label-Good tok.arg1 n)
            (λ e.
              option-Good st ℕ (jump_opcode_for tok.op) _ _
                (Step-Good st (assemble_plain st tok n) v (assemble_plain-Step st tok n))
                (λ opcode. assemble_jump-Good tok opcode n)))
