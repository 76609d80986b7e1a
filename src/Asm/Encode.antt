-- ===== src/Asm/Encode.antt =====
-- kernel/asm.c: the state of the assembler, and the encoders. The code is the list of its `code_len` bytes.
use aioperatingsystem.Common.{
  ℕ, zero, suc, ◌+◌, ◌*◌, List, [], ◌∷◌, ◌++◌, Bool, true, ltb, leb, ◌==◌, if◌then◌else◌, length,
  u8, ◌<<<◌, ◌>>>◌,
}
use Prim.Native.Nat.{bit_or, bit_and}

pub record Label : Type 0 where
  pub name : List ℕ
  pub offset : ℕ

pub record JumpFixup : Type 0 where
  pub patch_offset : ℕ
  pub label : List ℕ
  pub next_instr_offset : ℕ
  pub line_number : ℕ

-- The messages of the assembler, and where there is none yet.
pub data Message : Type 0 where
  no_message : Message
  duplicate_label : Message
  too_many_labels : Message
  jump_needs_label : Message
  mov_needs_two : Message
  needs_register_source : Message
  needs_register_destination : Message
  unknown_destination : Message
  expected_two : Message
  unknown_register : Message
  unknown_instruction : Message
  undefined_label : Message
  jump_too_far : Message
  program_too_large : Message

pub record AssemblerState : Type 0 where
  pub code : List ℕ
  pub labels : List Label
  pub fixups : List JumpFixup
  pub error : Message
  pub error_line : ℕ
  pub failed : Bool

abbrev pub code_buf_size : ℕ
code_buf_size = 65536

abbrev pub code_len : AssemblerState → ℕ
code_len st = length st.code

-- A full buffer drops the byte.
unfoldable pub emit_byte : AssemblerState → ℕ → AssemblerState
emit_byte st b = record st {
  code = if ltb (code_len st) code_buf_size then st.code ++ (b ∷ []) else st.code;
}

unfoldable pub emit_imm32 : AssemblerState → ℕ → AssemblerState
emit_imm32 st v =
    emit_byte (emit_byte (emit_byte (emit_byte st (u8 v)) (u8 (v >>> 8))) (u8 (v >>> 16)))
      (u8 (v >>> 24))

-- `n` bytes from byte `i` on.
unfoldable pub emit_bytes_from : (n i : ℕ) → AssemblerState → ℕ → AssemblerState
emit_bytes_from zero i st v = st
emit_bytes_from (suc n) i st v = emit_bytes_from n (i + 1) (emit_byte st (u8 (v >>> (i * 8)))) v

unfoldable pub emit_imm64 : AssemblerState → ℕ → AssemblerState
emit_imm64 st v = emit_bytes_from 8 0 st v

-- The first error is kept.
unfoldable pub fail : AssemblerState → (line_number : ℕ) → Message → AssemblerState
fail st line_number msg =
    if st.failed then st else record st { error = msg; error_line = line_number; failed = true }

abbrev pub rex_of : (reg rm : ℕ) → ℕ
rex_of reg rm =
    bit_or (bit_or 0x48 (if leb 8 reg then 0x04 else 0x00)) (if leb 8 rm then 0x01 else 0x00)

abbrev pub rex_b : (rm : ℕ) → ℕ
rex_b rm = bit_or 0x48 (if leb 8 rm then 0x01 else 0x00)

-- The ModRM byte.
abbrev pub modrm : (mode reg rm : ℕ) → ℕ
modrm mode reg rm = u8 (bit_or (bit_or mode (bit_and reg 7 <<< 3)) (bit_and rm 7))

unfoldable pub enc_mov_reg_imm64 : AssemblerState → (dst imm : ℕ) → AssemblerState
enc_mov_reg_imm64 st dst imm =
    emit_imm64 (emit_byte (emit_byte st (rex_b dst)) (u8 (0xB8 + bit_and dst 7))) imm

unfoldable pub enc_mov_reg_reg : AssemblerState → (dst src : ℕ) → AssemblerState
enc_mov_reg_reg st dst src =
    emit_byte (emit_byte (emit_byte st (rex_of src dst)) 0x89) (modrm 0xC0 src dst)

unfoldable pub enc_alu_reg_reg : AssemblerState → (opcode dst src : ℕ) → AssemblerState
enc_alu_reg_reg st opcode dst src =
    emit_byte (emit_byte (emit_byte st (rex_of src dst)) opcode) (modrm 0xC0 src dst)

unfoldable pub enc_alu_reg_imm32 : AssemblerState → (ext dst imm : ℕ) → AssemblerState
enc_alu_reg_imm32 st ext dst imm =
    emit_imm32
      (emit_byte (emit_byte (emit_byte st (rex_b dst)) 0x81)
        (u8 (bit_or (bit_or 0xC0 (ext <<< 3)) (bit_and dst 7))))
      imm

unfoldable pub enc_push_pop : AssemblerState → (base_opcode reg : ℕ) → AssemblerState
enc_push_pop st base_opcode reg =
    emit_byte (if leb 8 reg then emit_byte st 0x41 else st) (u8 (base_opcode + bit_and reg 7))

unfoldable pub enc_mov_mem :
    AssemblerState → (load : Bool) → (reg_operand mem_reg disp : ℕ) → AssemblerState
enc_mov_mem st load reg_operand mem_reg disp =
    let head =
      emit_byte
        (emit_byte (emit_byte st (rex_of reg_operand mem_reg)) (if load then 0x8B else 0x89))
        (modrm 0x80 reg_operand mem_reg) in
    emit_imm32 (if bit_and mem_reg 7 == 4 then emit_byte head 0x24 else head) disp
