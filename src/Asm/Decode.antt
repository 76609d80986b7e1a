-- ===== src/Asm/Decode.antt =====
-- kernel/asm.c against the format of x86-64 instructions: prefix, opcode, ModRM byte, SIB byte, numbers.
-- The decoder is written from the format and not from the encoders.
use aioperatingsystem.Common.{
  ℕ, zero, suc, ◌+◌, ◌*◌, ◌/◌, ◌%◌, ◌^◌, ◌<◌, List, [], ◌∷◌, Bool, true, false, ◌&&◌, Option, none,
  some, ◌==◌, if◌then◌else◌, test_bit,
}
use aioperatingsystem.Asm.Encode.{
  AssemblerState, enc_mov_reg_imm64, enc_mov_reg_reg, enc_alu_reg_reg, enc_alu_reg_imm32,
  enc_push_pop, enc_mov_mem,
}

pub data Alu : Type 0 where
  add : Alu
  sub : Alu
  cmp : Alu

pub data Instr : Type 0 where
  mov_imm : (dst imm : ℕ) → Instr
  mov_reg : (dst src : ℕ) → Instr
  alu_reg : Alu → (dst src : ℕ) → Instr
  alu_imm : Alu → (dst imm : ℕ) → Instr
  push : ℕ → Instr
  pop : ℕ → Instr
  load : (dst base disp : ℕ) → Instr
  store : (base disp src : ℕ) → Instr

-- The encoder that the assembler runs for an instruction.
unfoldable pub encode : AssemblerState → Instr → AssemblerState
encode st (Instr.mov_imm dst imm) = enc_mov_reg_imm64 st dst imm
encode st (Instr.mov_reg dst src) = enc_mov_reg_reg st dst src
encode st (Instr.alu_reg Alu.add dst src) = enc_alu_reg_reg st 0x01 dst src
encode st (Instr.alu_reg Alu.sub dst src) = enc_alu_reg_reg st 0x29 dst src
encode st (Instr.alu_reg Alu.cmp dst src) = enc_alu_reg_reg st 0x39 dst src
encode st (Instr.alu_imm Alu.add dst imm) = enc_alu_reg_imm32 st 0 dst imm
encode st (Instr.alu_imm Alu.sub dst imm) = enc_alu_reg_imm32 st 5 dst imm
encode st (Instr.alu_imm Alu.cmp dst imm) = enc_alu_reg_imm32 st 7 dst imm
encode st (Instr.push reg) = enc_push_pop st 0x50 reg
encode st (Instr.pop reg) = enc_push_pop st 0x58 reg
encode st (Instr.load dst base disp) = enc_mov_mem st true dst base disp
encode st (Instr.store base disp src) = enc_mov_mem st false src base disp

-- Sixteen registers, and numbers of 32 or 64 bits.
abbrev pub Encodable : Instr → Type 0
Encodable (Instr.mov_imm dst imm) = (dst < 16) × (imm < 2 ^ 64)
Encodable (Instr.mov_reg dst src) = (dst < 16) × (src < 16)
Encodable (Instr.alu_reg op dst src) = (dst < 16) × (src < 16)
Encodable (Instr.alu_imm op dst imm) = (dst < 16) × (imm < 2 ^ 32)
Encodable (Instr.push reg) = reg < 16
Encodable (Instr.pop reg) = reg < 16
Encodable (Instr.load dst base disp) = (dst < 16) × (base < 16) × (disp < 2 ^ 32)
Encodable (Instr.store base disp src) = (base < 16) × (disp < 2 ^ 32) × (src < 16)

-- A number of `n` bytes, the lowest first, and what is behind it.
unfoldable pub read_number : (n : ℕ) → List ℕ → Option (ℕ × List ℕ)
read_number zero s = some (0, s)
read_number (suc n) [] = none
read_number (suc n) (b ∷ s) = elim (read_number n s) [
  | none ↦ none
  | some (high, rest) ↦ some (b + 256 * high, rest)
]

-- An instruction that ends in a number.
abbrev pub with_number : (n : ℕ) → (ℕ → Instr) → List ℕ → Option (Instr × List ℕ)
with_number n make s = elim (read_number n s) [ none ↦ none | some (v, rest) ↦ some (make v, rest) ]

-- 0x40 to 0x4F; the last three bits widen the fields of registers.
abbrev pub is_rex : ℕ → Bool
is_rex b = b / 16 == 4

abbrev pub reg_field : (rex modrm : ℕ) → ℕ
reg_field rex modrm = modrm / 8 % 8 + (if test_bit rex 2 then 8 else 0)

abbrev pub rm_field : (rex modrm : ℕ) → ℕ
rm_field rex modrm = modrm % 8 + (if test_bit rex 0 then 8 else 0)

-- A base register and a displacement of four bytes; the low bits 100 ask for a SIB byte, here one that
-- names the base alone.
unfoldable pub decode_memory : (modrm : ℕ) → (ℕ → Instr) → List ℕ → Option (Instr × List ℕ)
decode_memory modrm make [] = none
decode_memory modrm make (b ∷ s) = elim (modrm % 8 == 4) [
  | false ↦ with_number 4 make (b ∷ s)
  | true ↦ elim (b == 0x24) [ true ↦ with_number 4 make s | false ↦ none ]
]

abbrev pub alu_of_digit : ℕ → Option Alu
alu_of_digit d =
    if d == 0
    then some Alu.add
    else if d == 5
    then some Alu.sub
    else if d == 7
    then some Alu.cmp
    else none

-- The opcodes whose ModRM byte names two registers, or a register and a digit of the opcode.
unfoldable pub decode_registers : (rex op modrm : ℕ) → List ℕ → Option (Instr × List ℕ)
decode_registers rex op modrm s =
    let reg = reg_field rex modrm in
    let rm = rm_field rex modrm in
    if op == 0x89
    then some (Instr.mov_reg rm reg, s)
    else if op == 0x01
    then some (Instr.alu_reg Alu.add rm reg, s)
    else if op == 0x29
    then some (Instr.alu_reg Alu.sub rm reg, s)
    else if op == 0x39
    then some (Instr.alu_reg Alu.cmp rm reg, s)
    else if op == 0x81
    then elim (alu_of_digit (modrm / 8 % 8)) [
      | none ↦ none
      | some alu ↦ with_number 4 (Instr.alu_imm alu rm) s
    ]
    else none

-- Those with a memory operand and a displacement of four bytes.
unfoldable pub decode_mov_memory : (rex op modrm : ℕ) → List ℕ → Option (Instr × List ℕ)
decode_mov_memory rex op modrm s =
    let reg = reg_field rex modrm in
    let rm = rm_field rex modrm in
    if op == 0x8B
    then decode_memory modrm (Instr.load reg rm) s
    else if op == 0x89
    then decode_memory modrm (λ disp. Instr.store rm disp reg) s
    else none

-- By the mode of the ModRM byte.
unfoldable pub decode_modrm : (rex op modrm : ℕ) → List ℕ → Option (Instr × List ℕ)
decode_modrm rex op modrm s = elim (modrm / 64 == 3) [
  | true ↦ decode_registers rex op modrm s
  | false ↦ elim (modrm / 64 == 2) [ false ↦ none | true ↦ decode_mov_memory rex op modrm s ]
]

unfoldable pub decode_op : (rex op : ℕ) → List ℕ → Option (Instr × List ℕ)
decode_op rex op s =
    let low = op % 8 + (if test_bit rex 0 then 8 else 0) in
    if op / 8 == 10
    then some (Instr.push low, s)
    else if op / 8 == 11
    then some (Instr.pop low, s)
    else if (op / 8 == 23) && test_bit rex 3
    then with_number 8 (Instr.mov_imm low) s
    else elim s [
      | [] ↦ none
      | modrm ∷ rest ↦ (if test_bit rex 3 then decode_modrm rex op modrm rest else none)
    ]

unfoldable pub decode : List ℕ → Option (Instr × List ℕ)
decode [] = none
decode (b ∷ s) = elim (is_rex b) [
  | false ↦ decode_op 0x40 b s
  | true ↦ elim s [ [] ↦ none | op ∷ rest ↦ decode_op b op rest ]
]
