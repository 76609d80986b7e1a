-- ===== src/Asm/Reading.antt =====
-- kernel/asm.c: what the decoder makes of a prefix, an opcode and a ModRM byte.
use aioperatingsystem.Common.{
  ℕ, zero, suc, ◌+◌, ◌/◌, ◌%◌, ◌^◌, ◌<◌, ◌≡◌, refl, ap, ◌∙◌, List, ◌∷◌, ◌++◌, Bool, true, false,
  none, some, ◌==◌, if◌then◌else◌, test_bit, u8, ◌>>>◌, arith, ltb, leb, ◌||◌, ◌&&◌,
}
use Prim.Native.Nat.{bit_and}
use aioperatingsystem.Asm.Encode.{rex_b}
use aioperatingsystem.Asm.Decode.{
  Instr, read_number, with_number, is_rex, decode_memory, decode_registers, decode_mov_memory,
  decode_modrm, decode_op, decode,
}
use aioperatingsystem.Asm.Fields.{HasFields}
use aioperatingsystem.Asm.Bytes.{imm32_bytes, read_imm32, stack_bytes}

-- Reading the bytes.
decode_prefixed :
    (rex op : ℕ) (s : List ℕ) → is_rex rex ≡ true → decode (rex ∷ op ∷ s) ≡ decode_op rex op s
unfolding decode
decode_prefixed rex op s e =
    ap (λ t. elim t [ true ↦ decode_op rex op s | false ↦ decode_op 0x40 rex (op ∷ s) ]) e

-- The opcodes of this assembler that take a ModRM byte.
abbrev pub takes_modrm : ℕ → Bool
takes_modrm op = ltb op 0x50 || (leb 0x80 op && ltb op 0x90)

decode_wide :
    (rex op byte mode reg rm : ℕ) (s : List ℕ)
    → HasFields rex byte mode reg rm
    → takes_modrm op ≡ true
    → decode (rex ∷ op ∷ byte ∷ s) ≡ decode_modrm rex op byte s
unfolding decode_op
decode_wide rex op byte mode reg rm s f h =
    decode_prefixed rex op (byte ∷ s) f.prefix ∙ opens (test_bit rex 3) f.wide
  where
    opens :
        (wide : Bool)
        → wide ≡ true
        → (if op / 8 == 10
            then some (Instr.push (op % 8 + (if test_bit rex 0 then 8 else 0)), byte ∷ s)
            else if op / 8 == 11
            then some (Instr.pop (op % 8 + (if test_bit rex 0 then 8 else 0)), byte ∷ s)
            else if (op / 8 == 23) && wide
            then with_number 8
                (Instr.mov_imm (op % 8 + (if test_bit rex 0 then 8 else 0)))
                (byte ∷ s)
            else if wide
            then decode_modrm rex op byte s
            else none)
          ≡ decode_modrm rex op byte s
    opens wide e = ground arith

pub decode_registers_lem :
    (rex op byte reg rm : ℕ) (s : List ℕ)
    → HasFields rex byte 3 reg rm
    → takes_modrm op ≡ true
    → decode (rex ∷ op ∷ byte ∷ s) ≡ decode_registers rex op byte s
unfolding decode_modrm
decode_registers_lem rex op byte reg rm s f h =
    decode_wide rex op byte 3 reg rm s f h
    ∙ ap
        (λ (m : ℕ). elim (m == 3) [
          | true ↦ decode_registers rex op byte s
          | false ↦ elim (m == 2) [ false ↦ none | true ↦ decode_mov_memory rex op byte s ]
        ])
        f.mode_is

pub decode_mov_memory_lem :
    (rex op byte reg rm : ℕ) (s : List ℕ)
    → HasFields rex byte 2 reg rm
    → takes_modrm op ≡ true
    → decode (rex ∷ op ∷ byte ∷ s) ≡ decode_mov_memory rex op byte s
unfolding decode_modrm
decode_mov_memory_lem rex op byte reg rm s f h =
    decode_wide rex op byte 2 reg rm s f h
    ∙ ap
        (λ (m : ℕ). elim (m == 3) [
          | true ↦ decode_registers rex op byte s
          | false ↦ elim (m == 2) [ false ↦ none | true ↦ decode_mov_memory rex op byte s ]
        ])
        f.mode_is

-- What is checked register by register.
on_registers :
    (P : ℕ → Type 0)
    → P 0
    → P 1
    → P 2
    → P 3
    → P 4
    → P 5
    → P 6
    → P 7
    → P 8
    → P 9
    → P 10
    → P 11
    → P 12
    → P 13
    → P 14
    → P 15
    → (r : ℕ) → r < 16
    → P r
on_registers P p0 p1 p2 p3 p4 p5 p6 p7 p8 p9 p10 p11 p12 p13 p14 p15 r h = by_number r h
  where
    by_number : (k : ℕ) → k < 16 → P k
    by_number zero l = p0
    by_number (suc zero) l = p1
    by_number (suc (suc zero)) l = p2
    by_number (suc (suc (suc zero))) l = p3
    by_number (suc (suc (suc (suc zero)))) l = p4
    by_number (suc (suc (suc (suc (suc zero))))) l = p5
    by_number (suc (suc (suc (suc (suc (suc zero)))))) l = p6
    by_number (suc (suc (suc (suc (suc (suc (suc zero))))))) l = p7
    by_number (suc (suc (suc (suc (suc (suc (suc (suc zero)))))))) l = p8
    by_number (suc (suc (suc (suc (suc (suc (suc (suc (suc zero))))))))) l = p9
    by_number (suc (suc (suc (suc (suc (suc (suc (suc (suc (suc zero)))))))))) l = p10
    by_number (suc (suc (suc (suc (suc (suc (suc (suc (suc (suc (suc zero))))))))))) l = p11
    by_number (suc (suc (suc (suc (suc (suc (suc (suc (suc (suc (suc (suc zero)))))))))))) l = p12
    by_number (suc (suc (suc (suc (suc (suc (suc (suc (suc (suc (suc (suc (suc zero))))))))))))) l =
        p13
    by_number
          (suc (suc (suc (suc (suc (suc (suc (suc (suc (suc (suc (suc (suc (suc zero))))))))))))))
          l =
        p14
    by_number
          (suc (
            suc (suc (suc (suc (suc (suc (suc (suc (suc (suc (suc (suc (suc (suc zero)))))))))))))))
          l =
        p15
    by_number
          (suc (
            suc (
              suc (suc (suc (suc (suc (suc (suc (suc (suc (suc (suc (suc (suc (suc k))))))))))))))))
          l =
        absurd (omega arith)

pub decode_push :
    (rest : List ℕ) (r : ℕ)
    → r < 16
    → decode (stack_bytes 0x50 r ++ rest) ≡ some (Instr.push r, rest)
unfolding decode decode_op
decode_push rest =
    on_registers (λ r. decode (stack_bytes 0x50 r ++ rest) ≡ some (Instr.push r, rest)) refl refl
      refl refl refl refl refl refl refl refl refl refl refl refl refl refl

pub decode_pop :
    (rest : List ℕ) (r : ℕ)
    → r < 16
    → decode (stack_bytes 0x58 r ++ rest) ≡ some (Instr.pop r, rest)
unfolding decode decode_op
decode_pop rest =
    on_registers (λ r. decode (stack_bytes 0x58 r ++ rest) ≡ some (Instr.pop r, rest)) refl refl
      refl refl refl refl refl refl refl refl refl refl refl refl refl refl

pub decode_mov_imm :
    (s : List ℕ) (r : ℕ)
    → r < 16
    → decode (rex_b r ∷ u8 (0xB8 + bit_and r 7) ∷ s) ≡ with_number 8 (Instr.mov_imm r) s
unfolding decode decode_op
decode_mov_imm s =
    on_registers
      (λ r. decode (rex_b r ∷ u8 (0xB8 + bit_and r 7) ∷ s) ≡ with_number 8 (Instr.mov_imm r) s) refl
      refl refl refl refl refl refl refl refl refl refl refl refl refl refl refl

pub number_lem :
    (n : ℕ) (make : ℕ → Instr) (s : List ℕ) (v : ℕ) (rest : List ℕ)
    → read_number n s ≡ some (v, rest)
    → with_number n make s ≡ some (make v, rest)
number_lem n make s v rest e = ap (λ r. elim r [ none ↦ none | some (w, t) ↦ some (make w, t) ]) e

pub decode_memory_lem :
    (byte disp : ℕ) (make : ℕ → Instr) (rest : List ℕ) (sib : Bool)
    → (byte % 8 == 4) ≡ sib
    → disp < 2 ^ 32
    → decode_memory byte make ((if sib then 0x24 ∷ imm32_bytes disp else imm32_bytes disp) ++ rest)
      ≡ some (make disp, rest)
unfolding decode_memory
decode_memory_lem byte disp make rest true e h =
    ap
      (λ t. elim t [
        | false ↦ with_number 4 make (0x24 ∷ imm32_bytes disp ++ rest)
        | true ↦ with_number 4 make (imm32_bytes disp ++ rest)
      ])
      e
    ∙ number_lem 4 make (imm32_bytes disp ++ rest) disp rest (read_imm32 disp rest h)
decode_memory_lem byte disp make rest false e h =
    ap
      (λ t. elim t [
        | false ↦ with_number 4 make (imm32_bytes disp ++ rest)
        | true ↦ elim (u8 disp == 0x24) [
          | true ↦ with_number 4 make (u8 (disp >>> 8) ∷ u8 (disp >>> 16) ∷ u8 (disp >>> 24) ∷ rest)
          | false ↦ none
        ]
      ])
      e
    ∙ number_lem 4 make (imm32_bytes disp ++ rest) disp rest (read_imm32 disp rest h)
