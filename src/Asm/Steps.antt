-- ===== src/Asm/Steps.antt =====
-- kernel/asm.c: what the instructions add to the state.
use aioperatingsystem.Common.{
  ℕ, zero, suc, ◌+◌, ◌<◌, ◌≤◌, ◌≡◌, refl, ◌∙◌, [], ◌∷◌, ◌++◌, Bool, true, false, ◌||◌, Option, none,
  some, ltb, leb, ltb→lt, ◌==◌, ◌!=◌, if◌then◌else◌, length, length-append, arith, codes, str_eq,
}
use Prim.Native.Nat.{bit_and}
use aioperatingsystem.Asm.{reg_number, parse_mem_operand}
use aioperatingsystem.Asm.Tokens.{LineTokens}
use aioperatingsystem.Asm.Encode.{
  Message, AssemblerState, code_len, emit_byte, emit_imm32, emit_bytes_from, emit_imm64, fail,
  enc_mov_reg_imm64, enc_mov_reg_reg, enc_alu_reg_reg, enc_alu_reg_imm32, enc_push_pop, enc_mov_mem,
}
use aioperatingsystem.Asm.Assemble.{
  assemble_mov_reg, assemble_mov, assemble_alu, assemble_push_pop, assemble_plain,
}

-- The first error stays.
pub record Keeps (st st' : AssemblerState) : Type 0 where
  pub failed : st.failed ≡ true → st'.failed ≡ true
  pub error : st.failed ≡ true → st'.error ≡ st.error
  pub error_line : st.failed ≡ true → st'.error_line ≡ st.error_line

-- What an operation does that is no label and no jump: more code or an error.
pub record Step (st st' : AssemblerState) : Type 0 where
  pub labels : st'.labels ≡ st.labels
  pub fixups : st'.fixups ≡ st.fixups
  pub longer : code_len st ≤ code_len st'
  pub fits : code_len st ≤ 65536 → code_len st' ≤ 65536
  pub keeps : Keeps st st'

pub Keeps-trans : (a b c : AssemblerState) → Keeps a b → Keeps b c → Keeps a c
Keeps-trans a b c p q = record {
  failed = λ h. q.failed (p.failed h);
  error = λ h. q.error (p.failed h) ∙ p.error h;
  error_line = λ h. q.error_line (p.failed h) ∙ p.error_line h;
}

pub Step-trans : (a b c : AssemblerState) → Step a b → Step b c → Step a c
Step-trans a b c p q = record {
  labels = q.labels ∙ p.labels;
  fixups = q.fixups ∙ p.fixups;
  longer = omega (arith, p.longer, q.longer);
  fits = λ h. q.fits (p.fits h);
  keeps = Keeps-trans a b c p.keeps q.keeps;
}

pub Keeps-refl : (st : AssemblerState) → Keeps st st
Keeps-refl st = record { failed = λ h. h; error = λ h. refl; error_line = λ h. refl }

pub emit_byte-Step : (st : AssemblerState) (b : ℕ) → Step st (emit_byte st b)
unfolding emit_byte
emit_byte-Step st b = record {
  labels = refl;
  fixups = refl;
  longer = by_room (ltb (code_len st) 65536);
  fits = λ h. by_test (ltb (code_len st) 65536) (λ t. ltb→lt (code_len st) 65536 t) h;
  keeps = record { failed = λ h. h; error = λ h. refl; error_line = λ h. refl };
}
  where
    by_room : (t : Bool) → code_len st ≤ length (if t then st.code ++ (b ∷ []) else st.code)
    by_room true = omega (arith, length-append st.code (b ∷ []))
    by_room false = omega arith

    by_test :
        (t : Bool)
        → (t ≡ true → code_len st < 65536)
        → code_len st ≤ 65536
        → length (if t then st.code ++ (b ∷ []) else st.code) ≤ 65536
    by_test true e h = omega (arith, e refl, length-append st.code (b ∷ []))
    by_test false e h = h

Step-refl : (st : AssemblerState) → Step st st
Step-refl st = record {
  labels = refl;
  fixups = refl;
  longer = omega arith;
  fits = λ h. h;
  keeps = Keeps-refl st;
}

pub fail-Step : (st : AssemblerState) (n : ℕ) (msg : Message) → Step st (fail st n msg)
unfolding fail
fail-Step st n msg = by_flag st.failed refl
  where
    new : AssemblerState
    new = record st { error = msg; error_line = n; failed = true }

    by_flag : (t : Bool) → st.failed ≡ t → Step st (if t then st else new)
    by_flag true e = Step-refl st
    by_flag false e = record {
      labels = refl;
      fixups = refl;
      longer = omega arith;
      fits = λ h. h;
      keeps = record { failed = λ h. refl; error = λ h. cc; error_line = λ h. cc };
    }

-- Operations in a row, and by cases.
emit-Step : (st st' : AssemblerState) (b : ℕ) → Step st st' → Step st (emit_byte st' b)
emit-Step st st' b p = Step-trans st st' (emit_byte st' b) p (emit_byte-Step st' b)

if-Step :
    (st : AssemblerState) (t : Bool) (a b : AssemblerState)
    → Step st a
    → Step st b
    → Step st (if t then a else b)
if-Step st true a b p q = p
if-Step st false a b p q = q

option-Step :
    (st : AssemblerState) (A : Type 0) (o : Option A) (d : AssemblerState) (f : A → AssemblerState)
    → Step st d
    → ((a : A) → Step st (f a))
    → Step st (elim o [ none ↦ d | some a ↦ f a ])
option-Step st A none d f p q = p
option-Step st A (some a) d f p q = q a

emit_imm32-Step : (st st' : AssemblerState) (v : ℕ) → Step st st' → Step st (emit_imm32 st' v)
unfolding emit_imm32
emit_imm32-Step st st' v p =
    emit-Step st _ _ (emit-Step st _ _ (emit-Step st _ _ (emit-Step st st' _ p)))

emit_bytes_from-Step :
    (n i : ℕ) (st st' : AssemblerState) (v : ℕ) → Step st st' → Step st (emit_bytes_from n i st' v)
unfolding emit_bytes_from
emit_bytes_from-Step zero i st st' v p = p
emit_bytes_from-Step (suc n) i st st' v p =
    emit_bytes_from-Step n (i + 1) st _ v (emit-Step st st' _ p)

enc_mov_reg_imm64-Step :
    (st : AssemblerState) (dst imm : ℕ) → Step st (enc_mov_reg_imm64 st dst imm)
unfolding enc_mov_reg_imm64 emit_imm64
enc_mov_reg_imm64-Step st dst imm =
    emit_bytes_from-Step 8 0 st _ imm (emit-Step st _ _ (emit-Step st st _ (Step-refl st)))

three-Step :
    (st : AssemblerState) (a b c : ℕ) → Step st (emit_byte (emit_byte (emit_byte st a) b) c)
three-Step st a b c = emit-Step st _ c (emit-Step st _ b (emit-Step st st a (Step-refl st)))

enc_alu_reg_imm32-Step :
    (st : AssemblerState) (ext dst imm : ℕ) → Step st (enc_alu_reg_imm32 st ext dst imm)
unfolding enc_alu_reg_imm32
enc_alu_reg_imm32-Step st ext dst imm = emit_imm32-Step st _ imm (three-Step st _ _ _)

enc_push_pop-Step : (st : AssemblerState) (op reg : ℕ) → Step st (enc_push_pop st op reg)
unfolding enc_push_pop
enc_push_pop-Step st op reg =
    emit-Step st _ _ (if-Step st (leb 8 reg) _ _ (emit-Step st st _ (Step-refl st)) (Step-refl st))

enc_mov_mem-Step :
    (st : AssemblerState) (load : Bool) (reg base disp : ℕ)
    → Step st (enc_mov_mem st load reg base disp)
unfolding enc_mov_mem
enc_mov_mem-Step st load reg base disp =
    let head = three-Step st _ _ _ in
    emit_imm32-Step st _ disp (if-Step st (bit_and base 7 == 4) _ _ (emit-Step st _ _ head) head)

-- The instructions.
assemble_mov_reg-Step :
    (st : AssemblerState) (tok : LineTokens) (n : ℕ) → Step st (assemble_mov_reg st tok n)
unfolding assemble_mov_reg enc_mov_reg_reg
assemble_mov_reg-Step st tok n =
    option-Step st ℕ (reg_number tok.arg1) _ _ (fail-Step st n Message.unknown_destination) (λ dst.
      option-Step st ℕ (reg_number tok.arg2) _ _ (enc_mov_reg_imm64-Step st dst _)
        (λ src. three-Step st _ _ _))

assemble_mov-Step :
    (st : AssemblerState) (tok : LineTokens) (n : ℕ) → Step st (assemble_mov st tok n)
unfolding assemble_mov
assemble_mov-Step st tok n =
    if-Step st (tok.arg_count != 2) _ _ (fail-Step st n Message.mov_needs_two) (
      option-Step st (ℕ × ℕ) (parse_mem_operand tok.arg1) _ _
        (option-Step st (ℕ × ℕ) (parse_mem_operand tok.arg2) _ _ (assemble_mov_reg-Step st tok n)
          (λ m.
            option-Step st ℕ (reg_number tok.arg1) _ _
              (fail-Step st n Message.needs_register_destination)
              (λ dst. enc_mov_mem-Step st true dst m.0 m.1)))
        (λ m.
          option-Step st ℕ (reg_number tok.arg2) _ _ (fail-Step st n Message.needs_register_source)
            (λ src. enc_mov_mem-Step st false src m.0 m.1)))

assemble_alu-Step :
    (st : AssemblerState) (tok : LineTokens) (n : ℕ) → Step st (assemble_alu st tok n)
unfolding assemble_alu enc_alu_reg_reg
assemble_alu-Step st tok n =
    if-Step st (tok.arg_count != 2) _ _ (fail-Step st n Message.expected_two) (
      option-Step st ℕ (reg_number tok.arg1) _ _ (fail-Step st n Message.unknown_destination)
        (λ dst.
          option-Step st ℕ (reg_number tok.arg2) _ _ (enc_alu_reg_imm32-Step st _ dst _)
            (λ src. three-Step st _ _ _)))

assemble_push_pop-Step :
    (st : AssemblerState) (tok : LineTokens) (op n : ℕ) → Step st (assemble_push_pop st tok op n)
unfolding assemble_push_pop
assemble_push_pop-Step st tok op n =
    option-Step st ℕ (reg_number tok.arg1) _ _ (fail-Step st n Message.unknown_register)
      (λ reg. enc_push_pop-Step st op reg)

pub assemble_plain-Step :
    (st : AssemblerState) (tok : LineTokens) (n : ℕ) → Step st (assemble_plain st tok n)
unfolding assemble_plain
assemble_plain-Step st tok n =
    if-Step st (str_eq tok.op (codes "mov")) _ _ (assemble_mov-Step st tok n) (
      if-Step st
        (str_eq tok.op (codes "add") || str_eq tok.op (codes "sub") || str_eq tok.op (codes "cmp"))
        _ _ (assemble_alu-Step st tok n)
        (if-Step st (str_eq tok.op (codes "push")) _ _ (assemble_push_pop-Step st tok 0x50 n) (
          if-Step st (str_eq tok.op (codes "pop")) _ _ (assemble_push_pop-Step st tok 0x58 n) (
            if-Step st (str_eq tok.op (codes "int80") || str_eq tok.op (codes "syscall")) _ _
              (emit-Step st _ _ (emit-Step st st _ (Step-refl st)))
              (if-Step st (str_eq tok.op (codes "ret")) _ _ (emit-Step st st _ (Step-refl st))
                (fail-Step st n Message.unknown_instruction))))))
