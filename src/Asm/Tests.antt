-- ===== src/Asm/Tests.antt =====
-- A program with a loop through the whole assembler, and instances of what is proved of it.
use aioperatingsystem.Common.{
  ◌≡◌, refl, ℕ, [], ◌∷◌, ◌++◌, List, some, true, codes, length, take, drop, arith,
}
use aioperatingsystem.Asm.{
  parse_hex, parse_decimal, parse_digits, hex_digit, local_parse_int, trim_front, trim_back, trim,
  index_of, reg_number, split_at, parse_mem_operand, local_strncpy,
}
use aioperatingsystem.Asm.Tokens.{strip_comment, tokenize_rest, tokenize_text, tokenize_line}
use aioperatingsystem.Asm.Encode.{
  AssemblerState, Message, emit_byte, emit_imm32, emit_bytes_from, emit_imm64, fail,
  enc_mov_reg_imm64, enc_alu_reg_imm32, enc_mov_mem,
}
use aioperatingsystem.Asm.Assemble.{
  find_label, add_label, opcode_in, jump_opcode_for, assemble_jump, assemble_mov_reg, assemble_mov,
  assemble_alu, assemble_plain, assemble_line, read_line, assemble_lines, displacement, patch_jumps,
  Outcome, empty_assembler, finish, link, asm_assemble,
}
use aioperatingsystem.Asm.Decode.{Instr, encode, decode}
use aioperatingsystem.Asm.RoundTrip.{decode-encode}
use aioperatingsystem.Asm.Valid.{IsValid}
use aioperatingsystem.Asm.Lines.{assemble_lines-IsValid, first_error}
use aioperatingsystem.Asm.Answers.{IsAnswer, asm_assemble_lem}

abbrev program : List ℕ
program =
    codes "start: ; a loop"
    ++ (10 ∷ codes "mov r9, 0x10")
    ++ (10 ∷ codes " cmp rax, -1 ")
    ++ (10 ∷ codes "mov [rsp+8], rbx")
    ++ (10 ∷ codes "jne start")
    ++ (10 ∷ codes "ret")

program_code :
    asm_assemble (length program) program 64
    ≡ some (
        Outcome.assembled (
          73 ∷ 185 ∷ 16 ∷ 0 ∷ 0 ∷ 0 ∷ 0 ∷ 0 ∷ 0 ∷ 0 ∷ 72 ∷ 129 ∷ 248 ∷ 255 ∷ 255 ∷ 255 ∷ 255 ∷ 72
          ∷ 137 ∷ 156 ∷ 36 ∷ 8 ∷ 0 ∷ 0 ∷ 0 ∷ 117 ∷ 229 ∷ 195 ∷ []))
unfolding parse_hex parse_decimal parse_digits hex_digit local_parse_int trim_front trim_back trim
    index_of reg_number split_at parse_mem_operand local_strncpy strip_comment tokenize_rest
    tokenize_text tokenize_line emit_byte emit_imm32 emit_bytes_from emit_imm64 fail
    enc_mov_reg_imm64 enc_alu_reg_imm32 enc_mov_mem find_label add_label opcode_in jump_opcode_for
    assemble_jump assemble_mov_reg assemble_mov assemble_alu assemble_plain assemble_line read_line
    assemble_lines displacement patch_jumps finish link asm_assemble
program_code = refl

decode-encode_example :
    (take 2 (encode (record empty_assembler { code = 1 ∷ 2 ∷ [] }) (Instr.load 9 4 70000)).code
      ≡ 1 ∷ 2 ∷ [])
    × (decode (
          drop 2 (encode (record empty_assembler { code = 1 ∷ 2 ∷ [] }) (Instr.load 9 4 70000)).code
          ++ (195 ∷ []))
        ≡ some (Instr.load 9 4 70000, 195 ∷ []))
decode-encode_example =
    decode-encode (record empty_assembler { code = 1 ∷ 2 ∷ [] }) (Instr.load 9 4 70000) (195 ∷ [])
      (omega arith) (omega arith)

assemble_lines-IsValid_example :
    (st : AssemblerState) × (assemble_lines (length program) program 0 empty_assembler ≡ some st)
    × IsValid st
assemble_lines-IsValid_example = assemble_lines-IsValid program

-- The state after `frob` on the third line.
abbrev failed_state : AssemblerState
failed_state = record empty_assembler {
  error = Message.unknown_instruction;
  error_line = 3;
  failed = true;
}

failed_state-IsValid : IsValid failed_state
failed_state-IsValid = record {
  fits = omega arith;
  label_count = omega arith;
  labels_in = tt;
  fixup_count = omega arith;
  fixups_in = tt;
  ordered = tt;
}

first_error_example :
    (st : AssemblerState) × (assemble_lines (length program) program 3 failed_state ≡ some st)
    × (link st 64 ≡ Outcome.refused Message.unknown_instruction 3)
first_error_example = first_error failed_state program 3 64 failed_state-IsValid refl

asm_assemble_lem_example :
    (st : AssemblerState) × (answer : Outcome) × (assemble_lines
        (length program)
        program
        0
        empty_assembler
      ≡ some st)
    × (asm_assemble (length program) program 64 ≡ some answer)
    × IsAnswer st 64 answer
asm_assemble_lem_example = asm_assemble_lem program 64
