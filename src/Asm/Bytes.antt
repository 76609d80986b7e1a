-- ===== src/Asm/Bytes.antt =====
-- kernel/asm.c: the bytes that the encoders write.
use aioperatingsystem.Common.{
  ℕ, zero, suc, ◌+◌, ◌*◌, ◌^◌, ◌<◌, ◌≤◌, ◌≡◌, sym, ap, ◌∙◌, List, [], ◌∷◌, ◌++◌, Bool, true, false,
  some, ◌==◌, if◌then◌else◌, length, length-append, u8, ◌>>>◌, arith, ltb, leb, lt→ltb,
}
use Prim.Native.Nat.{bit_and}
use mathlib.Core.List.{append_assoc, append-nil}
use aioperatingsystem.Asm.Encode.{
  AssemblerState, code_len, emit_byte, emit_imm32, emit_bytes_from, emit_imm64, rex_of, rex_b,
  modrm, enc_mov_reg_imm64, enc_mov_reg_reg, enc_alu_reg_reg, enc_alu_reg_imm32, enc_push_pop,
  enc_mov_mem,
}
use aioperatingsystem.Asm.Decode.{Alu, Instr, encode, read_number}

-- `st` is `st0` with more bytes.
abbrev pub Emitted : AssemblerState → AssemblerState → List ℕ → Type 0
Emitted st0 st bytes = st.code ≡ st0.code ++ bytes

abbrev pub imm32_bytes : ℕ → List ℕ
imm32_bytes v = u8 v ∷ u8 (v >>> 8) ∷ u8 (v >>> 16) ∷ u8 (v >>> 24) ∷ []

abbrev pub bytes_from : (n i v : ℕ) → List ℕ
bytes_from zero i v = []
bytes_from (suc n) i v = u8 (v >>> (i * 8)) ∷ bytes_from n (i + 1) v

pub read_imm32 :
    (v : ℕ) (rest : List ℕ) → v < 2 ^ 32 → read_number 4 (imm32_bytes v ++ rest) ≡ some (v, rest)
unfolding read_number
read_imm32 v rest h = ap (λ (t : ℕ). some (t, rest)) (omega arith)

pub read_imm64 :
    (v : ℕ) (rest : List ℕ) → v < 2 ^ 64 → read_number 8 (bytes_from 8 0 v ++ rest) ≡ some (v, rest)
unfolding read_number
read_imm64 v rest h = ap (λ (t : ℕ). some (t, rest)) (omega arith)

module _ (st0 : AssemblerState) (room : code_len st0 + 14 ≤ 65536) where
  emit_byte_lem :
      (st : AssemblerState) (bytes : List ℕ) (b : ℕ)
      → Emitted st0 st bytes
      → length bytes < 14
      → Emitted st0 (emit_byte st b) (bytes ++ (b ∷ []))
  unfolding emit_byte
  emit_byte_lem st bytes b e short =
      let fits : ltb (code_len st) 65536 ≡ true =
        lt→ltb (code_len st) 65536 (omega (arith, ap length e, length-append st0.code bytes)) in
      ap (λ t. if t then st.code ++ (b ∷ []) else st.code) fits
      ∙ ap (λ c. c ++ (b ∷ [])) e
      ∙ append_assoc st0.code bytes (b ∷ [])

  emit_imm32_lem :
      (st : AssemblerState) (bytes : List ℕ) (v : ℕ)
      → Emitted st0 st bytes
      → length bytes < 10
      → Emitted st0 (emit_imm32 st v) (bytes ++ imm32_bytes v)
  unfolding emit_imm32
  emit_imm32_lem st bytes v e short =
      let b0 : List ℕ = bytes ++ (u8 v ∷ []) in
      let b1 : List ℕ = b0 ++ (u8 (v >>> 8) ∷ []) in
      let b2 : List ℕ = b1 ++ (u8 (v >>> 16) ∷ []) in
      let l0 : length b0 ≡ length bytes + 1 = length-append bytes (u8 v ∷ []) in
      let l1 : length b1 ≡ length b0 + 1 = length-append b0 (u8 (v >>> 8) ∷ []) in
      let l2 : length b2 ≡ length b1 + 1 = length-append b1 (u8 (v >>> 16) ∷ []) in
      let s0 = emit_byte st (u8 v) in
      let s1 = emit_byte s0 (u8 (v >>> 8)) in
      let s2 = emit_byte s1 (u8 (v >>> 16)) in
      let e0 = emit_byte_lem st bytes (u8 v) e (omega arith) in
      let e1 = emit_byte_lem s0 b0 (u8 (v >>> 8)) e0 (omega arith) in
      let e2 = emit_byte_lem s1 b1 (u8 (v >>> 16)) e1 (omega arith) in
      emit_byte_lem s2 b2 (u8 (v >>> 24)) e2 (omega arith)
      ∙ ap (λ t. st0.code ++ t)
          (append_assoc b1 (u8 (v >>> 16) ∷ []) (u8 (v >>> 24) ∷ [])
            ∙ append_assoc b0 (u8 (v >>> 8) ∷ []) (u8 (v >>> 16) ∷ u8 (v >>> 24) ∷ [])
            ∙ append_assoc bytes (u8 v ∷ []) (u8 (v >>> 8) ∷ u8 (v >>> 16) ∷ u8 (v >>> 24) ∷ []))

  emit_bytes_from_lem :
      (n i : ℕ) (st : AssemblerState) (bytes : List ℕ) (v : ℕ)
      → Emitted st0 st bytes
      → length bytes + n ≤ 14
      → Emitted st0 (emit_bytes_from n i st v) (bytes ++ bytes_from n i v)
  unfolding emit_bytes_from
  emit_bytes_from_lem zero i st bytes v e short =
      e ∙ ap (λ t. st0.code ++ t) (sym (append-nil bytes))
  emit_bytes_from_lem (suc n) i st bytes v e short =
      let b : ℕ = u8 (v >>> (i * 8)) in
      emit_bytes_from_lem n (i + 1) (emit_byte st b) (bytes ++ (b ∷ [])) v
        (emit_byte_lem st bytes b e (omega arith)) (omega (arith, length-append bytes (b ∷ [])))
      ∙ ap (λ t. st0.code ++ t) (append_assoc bytes (b ∷ []) (bytes_from n (i + 1) v))

-- The bytes of an instruction.
abbrev pub alu_opcode : Alu → ℕ
alu_opcode Alu.add = 0x01
alu_opcode Alu.sub = 0x29
alu_opcode Alu.cmp = 0x39

abbrev pub alu_digit : Alu → ℕ
alu_digit Alu.add = 0
alu_digit Alu.sub = 5
alu_digit Alu.cmp = 7

abbrev pub memory_bytes : (op reg base disp : ℕ) → List ℕ
memory_bytes op reg base disp =
    rex_of reg base
    ∷ op
    ∷ modrm 0x80 reg base
    ∷ (if bit_and base 7 == 4 then 0x24 ∷ imm32_bytes disp else imm32_bytes disp)

abbrev pub stack_bytes : (op reg : ℕ) → List ℕ
stack_bytes op reg =
    if leb 8 reg then 0x41 ∷ u8 (op + bit_and reg 7) ∷ [] else u8 (op + bit_and reg 7) ∷ []

abbrev pub bytes_of : Instr → List ℕ
bytes_of (Instr.mov_imm dst imm) = rex_b dst ∷ u8 (0xB8 + bit_and dst 7) ∷ bytes_from 8 0 imm
bytes_of (Instr.mov_reg dst src) = rex_of src dst ∷ 0x89 ∷ modrm 0xC0 src dst ∷ []
bytes_of (Instr.alu_reg op dst src) = rex_of src dst ∷ alu_opcode op ∷ modrm 0xC0 src dst ∷ []
bytes_of (Instr.alu_imm op dst imm) =
    rex_b dst ∷ 0x81 ∷ modrm 0xC0 (alu_digit op) dst ∷ imm32_bytes imm
bytes_of (Instr.push reg) = stack_bytes 0x50 reg
bytes_of (Instr.pop reg) = stack_bytes 0x58 reg
bytes_of (Instr.load dst base disp) = memory_bytes 0x8B dst base disp
bytes_of (Instr.store base disp src) = memory_bytes 0x89 src base disp

module _ (st : AssemblerState) (room : code_len st + 14 ≤ 65536) where
  start : Emitted st st []
  start = sym (append-nil st.code)

  two_bytes : (a b : ℕ) → Emitted st (emit_byte (emit_byte st a) b) (a ∷ b ∷ [])
  two_bytes a b =
      emit_byte_lem st room (emit_byte st a) (a ∷ []) b
        (emit_byte_lem st room st [] a start (omega arith)) (omega arith)

  three_bytes :
      (a b c : ℕ) → Emitted st (emit_byte (emit_byte (emit_byte st a) b) c) (a ∷ b ∷ c ∷ [])
  three_bytes a b c =
      emit_byte_lem st room (emit_byte (emit_byte st a) b) (a ∷ b ∷ []) c (two_bytes a b)
        (omega arith)

  three_bytes_imm32 :
      (a b c v : ℕ)
      → Emitted st
          (emit_imm32 (emit_byte (emit_byte (emit_byte st a) b) c) v)
          (a ∷ b ∷ c ∷ imm32_bytes v)
  three_bytes_imm32 a b c v =
      emit_imm32_lem st room (emit_byte (emit_byte (emit_byte st a) b) c) (a ∷ b ∷ c ∷ []) v
        (three_bytes a b c) (omega arith)

  -- With a SIB byte or without.
  memory_lem :
      (a b c v : ℕ) (sib : Bool)
      → let head = emit_byte (emit_byte (emit_byte st a) b) c in
        Emitted st
          (emit_imm32 (if sib then emit_byte head 0x24 else head) v)
          (a ∷ b ∷ c ∷ (if sib then 0x24 ∷ imm32_bytes v else imm32_bytes v))
  memory_lem a b c v true =
      let head = emit_byte (emit_byte (emit_byte st a) b) c in
      emit_imm32_lem st room (emit_byte head 0x24) (a ∷ b ∷ c ∷ 0x24 ∷ []) v
        (emit_byte_lem st room head (a ∷ b ∷ c ∷ []) 0x24 (three_bytes a b c) (omega arith))
        (omega arith)
  memory_lem a b c v false = three_bytes_imm32 a b c v

  -- With a prefix or without.
  stack_lem :
      (b : ℕ) (wide : Bool)
      → Emitted st
          (emit_byte (if wide then emit_byte st 0x41 else st) b)
          (if wide then 0x41 ∷ b ∷ [] else b ∷ [])
  stack_lem b true = two_bytes 0x41 b
  stack_lem b false = emit_byte_lem st room st [] b start (omega arith)

  pub encode_bytes : (i : Instr) → Emitted st (encode st i) (bytes_of i)
  unfolding encode enc_mov_reg_imm64 enc_mov_reg_reg enc_alu_reg_reg enc_alu_reg_imm32 enc_mov_mem
      enc_push_pop emit_imm64
  encode_bytes (Instr.mov_imm dst imm) =
      emit_bytes_from_lem st room 8 0
        (emit_byte (emit_byte st (rex_b dst)) (u8 (0xB8 + bit_and dst 7)))
        (rex_b dst ∷ u8 (0xB8 + bit_and dst 7) ∷ []) imm
        (two_bytes (rex_b dst) (u8 (0xB8 + bit_and dst 7))) (omega arith)
  encode_bytes (Instr.mov_reg dst src) = three_bytes (rex_of src dst) 0x89 (modrm 0xC0 src dst)
  encode_bytes (Instr.alu_reg Alu.add dst src) =
      three_bytes (rex_of src dst) 0x01 (modrm 0xC0 src dst)
  encode_bytes (Instr.alu_reg Alu.sub dst src) =
      three_bytes (rex_of src dst) 0x29 (modrm 0xC0 src dst)
  encode_bytes (Instr.alu_reg Alu.cmp dst src) =
      three_bytes (rex_of src dst) 0x39 (modrm 0xC0 src dst)
  encode_bytes (Instr.alu_imm Alu.add dst imm) =
      three_bytes_imm32 (rex_b dst) 0x81 (modrm 0xC0 0 dst) imm
  encode_bytes (Instr.alu_imm Alu.sub dst imm) =
      three_bytes_imm32 (rex_b dst) 0x81 (modrm 0xC0 5 dst) imm
  encode_bytes (Instr.alu_imm Alu.cmp dst imm) =
      three_bytes_imm32 (rex_b dst) 0x81 (modrm 0xC0 7 dst) imm
  encode_bytes (Instr.push reg) = stack_lem (u8 (0x50 + bit_and reg 7)) (leb 8 reg)
  encode_bytes (Instr.pop reg) = stack_lem (u8 (0x58 + bit_and reg 7)) (leb 8 reg)
  encode_bytes (Instr.load dst base disp) =
      memory_lem (rex_of dst base) 0x8B (modrm 0x80 dst base) disp (bit_and base 7 == 4)
  encode_bytes (Instr.store base disp src) =
      memory_lem (rex_of src base) 0x89 (modrm 0x80 src base) disp (bit_and base 7 == 4)
