-- ===== src/Asm/Assemble.antt =====
-- kernel/asm.c: the lines of a source, the labels and the jumps.
use aioperatingsystem.Common.{
  ℕ, zero, suc, ◌+◌, ◌-◌, ◌%◌, ◌^◌, List, [], ◌∷◌, ◌++◌, true, false, ◌||◌, Option, none, some, ltb,
  leb, ◌==◌, ◌!=◌, if◌then◌else◌, length, set, codes, str_eq,
}
use aioperatingsystem.Asm.{local_strncpy, local_parse_int, reg_number, parse_mem_operand}
use aioperatingsystem.Asm.Tokens.{LineTokens, tokenize_line}
use aioperatingsystem.Asm.Encode.{
  Label, JumpFixup, Message, AssemblerState, code_len, code_buf_size, emit_byte, fail,
  enc_mov_reg_imm64, enc_mov_reg_reg, enc_alu_reg_reg, enc_alu_reg_imm32, enc_push_pop, enc_mov_mem,
}

-- The offset of the first label of that name.
unfoldable pub find_label : List Label → (name : List ℕ) → Option ℕ
find_label [] name = none
find_label (l ∷ labels) name =
    let rest = find_label labels name in if str_eq l.name name then some l.offset else rest

unfoldable pub add_label :
    AssemblerState → (name : List ℕ) → (offset line_number : ℕ) → AssemblerState
add_label st name offset line_number = elim (find_label st.labels name) [
  | some found ↦ fail st line_number Message.duplicate_label
  | none ↦
      if leb 128 (length st.labels)
      then fail st line_number Message.too_many_labels
      else record st {
        labels = st.labels ++ (record { name = local_strncpy name 31; offset = offset } ∷ []);
      }
]

abbrev pub jump_table : List (List ℕ × ℕ)
jump_table =
    (codes "jmp", 0xEB)
    ∷ (codes "je", 0x74)
    ∷ (codes "jne", 0x75)
    ∷ (codes "jl", 0x7C)
    ∷ (codes "jge", 0x7D)
    ∷ (codes "jg", 0x7F)
    ∷ (codes "jle", 0x7E)
    ∷ []

unfoldable pub opcode_in : List (List ℕ × ℕ) → (mnemonic : List ℕ) → Option ℕ
opcode_in [] mnemonic = none
opcode_in ((name, opcode) ∷ table) mnemonic =
    let rest = opcode_in table mnemonic in if str_eq mnemonic name then some opcode else rest

unfoldable pub jump_opcode_for : List ℕ → Option ℕ
jump_opcode_for mnemonic = opcode_in jump_table mnemonic

-- A jump: the opcode and a place for the displacement. A jump beyond the 512th is not noted.
unfoldable pub assemble_jump :
    AssemblerState → LineTokens → (opcode line_number : ℕ) → AssemblerState
assemble_jump st tok opcode line_number =
    let st1 = emit_byte st opcode in
    let st2 = emit_byte st1 0x00 in
    let fixup : JumpFixup = record {
      patch_offset = code_len st1;
      label = local_strncpy tok.arg1 31;
      next_instr_offset = code_len st2;
      line_number = line_number;
    } in
    if tok.arg_count != 1
    then fail st line_number Message.jump_needs_label
    else if ltb (length st2.fixups) 512
    then record st2 { fixups = st2.fixups ++ (fixup ∷ []) }
    else st2

-- A 32-bit number as 64 bits, with its sign.
abbrev pub sign_extend : ℕ → ℕ
sign_extend v = if ltb v (2 ^ 31) then v else v + (2 ^ 64 - 2 ^ 32)

unfoldable pub assemble_mov_reg : AssemblerState → LineTokens → (line_number : ℕ) → AssemblerState
assemble_mov_reg st tok line_number = elim (reg_number tok.arg1) [
  | none ↦ fail st line_number Message.unknown_destination
  | some dst ↦ elim (reg_number tok.arg2) [
    | some src ↦ enc_mov_reg_reg st dst src
    | none ↦ enc_mov_reg_imm64 st dst (sign_extend (local_parse_int tok.arg2))
  ]
]

unfoldable pub assemble_mov : AssemblerState → LineTokens → (line_number : ℕ) → AssemblerState
assemble_mov st tok line_number =
    if tok.arg_count != 2
    then fail st line_number Message.mov_needs_two
    else elim (parse_mem_operand tok.arg1) [
      | some (mem_reg, disp) ↦ elim (reg_number tok.arg2) [
        | none ↦ fail st line_number Message.needs_register_source
        | some src ↦ enc_mov_mem st false src mem_reg disp
      ]
      | none ↦ elim (parse_mem_operand tok.arg2) [
        | some (mem_reg, disp) ↦ elim (reg_number tok.arg1) [
          | none ↦ fail st line_number Message.needs_register_destination
          | some dst ↦ enc_mov_mem st true dst mem_reg disp
        ]
        | none ↦ assemble_mov_reg st tok line_number
      ]
    ]

unfoldable pub assemble_alu : AssemblerState → LineTokens → (line_number : ℕ) → AssemblerState
assemble_alu st tok line_number =
    let is_add = str_eq tok.op (codes "add") in
    let is_sub = str_eq tok.op (codes "sub") in
    if tok.arg_count != 2
    then fail st line_number Message.expected_two
    else elim (reg_number tok.arg1) [
      | none ↦ fail st line_number Message.unknown_destination
      | some dst ↦ elim (reg_number tok.arg2) [
        | some src ↦
            enc_alu_reg_reg st (if is_add then 0x01 else if is_sub then 0x29 else 0x39) dst src
        | none ↦
            enc_alu_reg_imm32 st (if is_add then 0 else if is_sub then 5 else 7) dst
              (local_parse_int tok.arg2)
      ]
    ]

unfoldable pub assemble_push_pop :
    AssemblerState → LineTokens → (base_opcode line_number : ℕ) → AssemblerState
assemble_push_pop st tok base_opcode line_number = elim (reg_number tok.arg1) [
  | none ↦ fail st line_number Message.unknown_register
  | some reg ↦ enc_push_pop st base_opcode reg
]

-- Every operation but labels and jumps.
unfoldable pub assemble_plain : AssemblerState → LineTokens → (line_number : ℕ) → AssemblerState
assemble_plain st tok line_number =
    if str_eq tok.op (codes "mov")
    then assemble_mov st tok line_number
    else if str_eq tok.op (codes "add")
        || str_eq tok.op (codes "sub")
        || str_eq tok.op (codes "cmp")
    then assemble_alu st tok line_number
    else if str_eq tok.op (codes "push")
    then assemble_push_pop st tok 0x50 line_number
    else if str_eq tok.op (codes "pop")
    then assemble_push_pop st tok 0x58 line_number
    else if str_eq tok.op (codes "int80") || str_eq tok.op (codes "syscall")
    then emit_byte (emit_byte st 0xCD) 0x80
    else if str_eq tok.op (codes "ret")
    then emit_byte st 0xC3
    else fail st line_number Message.unknown_instruction

unfoldable pub assemble_line :
    AssemblerState → (line_buf : List ℕ) → (line_number : ℕ) → AssemblerState
assemble_line st line_buf line_number = elim (tokenize_line line_buf) [
  | none ↦ st
  | some tok ↦
      if str_eq tok.op (codes ":")
      then add_label st tok.arg1 (code_len st) line_number
      else elim (jump_opcode_for tok.op) [
        | some opcode ↦ assemble_jump st tok opcode line_number
        | none ↦ assemble_plain st tok line_number
      ]
]

-- At most `room` characters up to a line feed, and what is behind them.
unfoldable pub read_line : (room : ℕ) → List ℕ → List ℕ × List ℕ
read_line room [] = ([], [])
read_line zero (c ∷ s) = ([], c ∷ s)
read_line (suc room) (c ∷ s) = elim (c == 10) [
  | true ↦ ([], c ∷ s)
  | false ↦ (let r = read_line room s in (c ∷ r.0, r.1))
]

abbrev pub skip_newline : List ℕ → List ℕ
skip_newline [] = []
skip_newline (c ∷ s) = if c == 10 then s else c ∷ s

-- The loop over the source; `none` when the fuel is short.
unfoldable pub assemble_lines :
    (fuel : ℕ) → List ℕ → (line_number : ℕ) → AssemblerState → Option AssemblerState
assemble_lines fuel [] line_number st = some st
assemble_lines zero (c ∷ s) line_number st = none
assemble_lines (suc fuel) (c ∷ s) line_number st =
    let r = read_line 95 (c ∷ s) in
    assemble_lines fuel (skip_newline r.1) (line_number + 1)
      (assemble_line st r.0 (line_number + 1))

-- `code[patch_offset]` is `code_len` itself where the buffer is full: `overrun` says that a jump is
-- patched there, and the model ends.
pub data Patched : Type 0 where
  patched : AssemblerState → Patched
  overrun : Patched

-- `offset - next` as a byte, if it is one.
unfoldable pub displacement : (offset next : ℕ) → Option ℕ
displacement offset next =
    if (ltb (offset + 128) next) || (ltb (next + 127) offset)
    then none
    else some ((offset + 256 - next) % 256)

unfoldable pub patch_jumps : List JumpFixup → AssemblerState → Patched
patch_jumps [] st = Patched.patched st
patch_jumps (fx ∷ fixups) st = elim (find_label st.labels fx.label) [
  | none ↦ Patched.patched (fail st fx.line_number Message.undefined_label)
  | some offset ↦ elim (displacement offset fx.next_instr_offset) [
    | none ↦ Patched.patched (fail st fx.line_number Message.jump_too_far)
    | some rel ↦ elim (ltb fx.patch_offset code_buf_size) [
      | true ↦ patch_jumps fixups (record st { code = set st.code fx.patch_offset rel })
      | false ↦ Patched.overrun
    ]
  ]
]

pub data Outcome : Type 0 where
  assembled : (code : List ℕ) → Outcome
  refused : (error : Message) → (line : ℕ) → Outcome
  overwritten : Outcome

abbrev pub empty_assembler : AssemblerState
empty_assembler = record {
  code = [];
  labels = [];
  fixups = [];
  error = Message.no_message;
  error_line = 0;
  failed = false;
}

-- What follows the passes.
unfoldable pub finish : AssemblerState → (out_capacity : ℕ) → Outcome
finish st out_capacity =
    if st.failed
    then Outcome.refused st.error st.error_line
    else if ltb out_capacity (code_len st)
    then Outcome.refused Message.program_too_large 0
    else Outcome.assembled st.code

unfoldable pub link : AssemblerState → (out_capacity : ℕ) → Outcome
link st out_capacity = elim st.failed [
  | true ↦ finish st out_capacity
  | false ↦ elim (patch_jumps st.fixups st) [
    | Patched.patched done ↦ finish done out_capacity
    | Patched.overrun ↦ Outcome.overwritten
  ]
]

unfoldable pub asm_assemble : (fuel : ℕ) → (source : List ℕ) → (out_capacity : ℕ) → Option Outcome
asm_assemble fuel source out_capacity = elim (assemble_lines fuel source 0 empty_assembler) [
  | none ↦ none
  | some st ↦ some (link st out_capacity)
]
