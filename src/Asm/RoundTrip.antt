-- ===== src/Asm/RoundTrip.antt =====
-- kernel/asm.c: the bytes of an instruction, read back by the decoder.
use aioperatingsystem.Common.{
  ℕ, ◌+◌, ◌%◌, ◌^◌, ◌<◌, ◌≤◌, ◌≡◌, refl, ap, ap₂, ◌∙◌, List, ◌∷◌, ◌++◌, true, Option, none, some,
  ◌==◌, if◌then◌else◌, take, drop, take_front, drop_front, arith,
}
use Prim.Native.Nat.{bit_and}
use aioperatingsystem.Asm.Encode.{AssemblerState, code_len, rex_of, modrm}
use aioperatingsystem.Asm.Decode.{
  Alu, Instr, encode, Encodable, with_number, reg_field, rm_field, decode_memory, alu_of_digit,
  decode_registers, decode_mov_memory, decode,
}
use aioperatingsystem.Asm.Fields.{register_fields, memory_fields}
use aioperatingsystem.Asm.Bytes.{
  imm32_bytes, bytes_from, read_imm32, read_imm64, memory_bytes, bytes_of, alu_digit, encode_bytes,
}
use aioperatingsystem.Asm.Reading.{
  takes_modrm, decode_registers_lem, decode_mov_memory_lem, decode_push, decode_pop, decode_mov_imm,
  number_lem, decode_memory_lem,
}

-- A ModRM byte that names two registers.
decode_pair :
    (op dst src : ℕ) (s : List ℕ)
    → dst < 16
    → src < 16
    → takes_modrm op ≡ true
    → decode (rex_of src dst ∷ op ∷ modrm 0xC0 src dst ∷ s)
      ≡ decode_registers (rex_of src dst) op (modrm 0xC0 src dst) s
decode_pair op dst src s p q h =
    decode_registers_lem (rex_of src dst) op (modrm 0xC0 src dst) src dst s
      (register_fields src dst q p) h

pair_fields :
    (make : ℕ → ℕ → Instr) (dst src : ℕ) (s : List ℕ)
    → dst < 16
    → src < 16
    → ◌≡◌ {A = Option (Instr × List ℕ)}
        (some (
          make
              (rm_field (rex_of src dst) (modrm 0xC0 src dst))
              (reg_field (rex_of src dst) (modrm 0xC0 src dst)),
          s,
        ))
        (some (make dst src, s))
pair_fields make dst src s p q =
    let f = register_fields src dst q p in ap₂ (λ (m r : ℕ). some (make m r, s)) f.rm_is f.reg_is

decode_digit :
    (op : Alu) (dst imm : ℕ) (rest : List ℕ)
    → dst < 16
    → imm < 2 ^ 32
    → decode_registers
        (rex_of (alu_digit op) dst)
        0x81
        (modrm 0xC0 (alu_digit op) dst)
        (imm32_bytes imm ++ rest)
      ≡ some (Instr.alu_imm op dst imm, rest)
unfolding decode_registers
decode_digit op dst imm rest p h =
    let rex = rex_of (alu_digit op) dst in
    let byte = modrm 0xC0 (alu_digit op) dst in
    let f = register_fields (alu_digit op) dst (digit_bound op) p in
    ap
      (λ (d : ℕ). elim (alu_of_digit d) [
        | none ↦ none
        | some alu ↦ with_number 4 (Instr.alu_imm alu (rm_field rex byte)) (imm32_bytes imm ++ rest)
      ])
      f.digit_is
    ∙ digit_read op (rm_field rex byte)
    ∙ ap (λ (m : ℕ). some (Instr.alu_imm op m imm, rest)) f.rm_is
  where
    digit_bound : (a : Alu) → alu_digit a < 16
    digit_bound Alu.add = omega arith
    digit_bound Alu.sub = omega arith
    digit_bound Alu.cmp = omega arith

    digit_read :
        (a : Alu) (m : ℕ)
        → elim (alu_of_digit (alu_digit a % 8)) [
          | none ↦ none
          | some alu ↦ with_number 4 (Instr.alu_imm alu m) (imm32_bytes imm ++ rest)
        ]
          ≡ some (Instr.alu_imm a m imm, rest)
    digit_read Alu.add m =
        number_lem 4 (Instr.alu_imm Alu.add m) (imm32_bytes imm ++ rest) imm rest
          (read_imm32 imm rest h)
    digit_read Alu.sub m =
        number_lem 4 (Instr.alu_imm Alu.sub m) (imm32_bytes imm ++ rest) imm rest
          (read_imm32 imm rest h)
    digit_read Alu.cmp m =
        number_lem 4 (Instr.alu_imm Alu.cmp m) (imm32_bytes imm ++ rest) imm rest
          (read_imm32 imm rest h)

decode_mem :
    (op reg base disp : ℕ) (make : ℕ → Instr) (rest : List ℕ)
    → reg < 16
    → base < 16
    → disp < 2 ^ 32
    → takes_modrm op ≡ true
    → ((s : List ℕ)
        → decode_mov_memory (rex_of reg base) op (modrm 0x80 reg base) s
          ≡ decode_memory (modrm 0x80 reg base) make s)
    → decode (memory_bytes op reg base disp ++ rest) ≡ some (make disp, rest)
decode_mem op reg base disp make rest p q h o e =
    let f = memory_fields reg base p q in
    let sib = bit_and base 7 == 4 in
    let tail = (if sib then 0x24 ∷ imm32_bytes disp else imm32_bytes disp) ++ rest in
    decode_mov_memory_lem (rex_of reg base) op (modrm 0x80 reg base) reg base tail f o
    ∙ e tail
    ∙ decode_memory_lem (modrm 0x80 reg base) disp make rest sib (ap (λ (t : ℕ). t == 4) f.base_is)
        h

memory_load :
    (dst base : ℕ) (s : List ℕ)
    → dst < 16
    → base < 16
    → decode_mov_memory (rex_of dst base) 0x8B (modrm 0x80 dst base) s
      ≡ decode_memory (modrm 0x80 dst base) (Instr.load dst base) s
unfolding decode_mov_memory
memory_load dst base s p q =
    let f = memory_fields dst base p q in
    ap₂ (λ (r m : ℕ). decode_memory (modrm 0x80 dst base) (Instr.load r m) s) f.reg_is f.rm_is

memory_store :
    (base src : ℕ) (s : List ℕ)
    → base < 16
    → src < 16
    → decode_mov_memory (rex_of src base) 0x89 (modrm 0x80 src base) s
      ≡ decode_memory (modrm 0x80 src base) (λ disp. Instr.store base disp src) s
unfolding decode_mov_memory
memory_store base src s p q =
    let f = memory_fields src base q p in
    ap₂ (λ (r m : ℕ). decode_memory (modrm 0x80 src base) (λ disp. Instr.store m disp r) s) f.reg_is
      f.rm_is

decode_bytes :
    (i : Instr) → Encodable i → (rest : List ℕ) → decode (bytes_of i ++ rest) ≡ some (i, rest)
unfolding decode_registers
decode_bytes (Instr.mov_imm dst imm) (p, h) rest =
    decode_mov_imm (bytes_from 8 0 imm ++ rest) dst p
    ∙ number_lem 8 (Instr.mov_imm dst) (bytes_from 8 0 imm ++ rest) imm rest (read_imm64 imm rest h)
decode_bytes (Instr.mov_reg dst src) (p, q) rest =
    decode_pair 0x89 dst src rest p q refl ∙ pair_fields Instr.mov_reg dst src rest p q
decode_bytes (Instr.alu_reg Alu.add dst src) (p, q) rest =
    decode_pair 0x01 dst src rest p q refl ∙ pair_fields (Instr.alu_reg Alu.add) dst src rest p q
decode_bytes (Instr.alu_reg Alu.sub dst src) (p, q) rest =
    decode_pair 0x29 dst src rest p q refl ∙ pair_fields (Instr.alu_reg Alu.sub) dst src rest p q
decode_bytes (Instr.alu_reg Alu.cmp dst src) (p, q) rest =
    decode_pair 0x39 dst src rest p q refl ∙ pair_fields (Instr.alu_reg Alu.cmp) dst src rest p q
decode_bytes (Instr.alu_imm Alu.add dst imm) (p, h) rest =
    decode_pair 0x81 dst 0 (imm32_bytes imm ++ rest) p (omega arith) refl
    ∙ decode_digit Alu.add dst imm rest p h
decode_bytes (Instr.alu_imm Alu.sub dst imm) (p, h) rest =
    decode_pair 0x81 dst 5 (imm32_bytes imm ++ rest) p (omega arith) refl
    ∙ decode_digit Alu.sub dst imm rest p h
decode_bytes (Instr.alu_imm Alu.cmp dst imm) (p, h) rest =
    decode_pair 0x81 dst 7 (imm32_bytes imm ++ rest) p (omega arith) refl
    ∙ decode_digit Alu.cmp dst imm rest p h
decode_bytes (Instr.push reg) p rest = decode_push rest reg p
decode_bytes (Instr.pop reg) p rest = decode_pop rest reg p
decode_bytes (Instr.load dst base disp) (p, q, h) rest =
    decode_mem 0x8B dst base disp (Instr.load dst base) rest p q h refl
      (λ s. memory_load dst base s p q)
decode_bytes (Instr.store base disp src) (p, h, q) rest =
    decode_mem 0x89 src base disp (λ d. Instr.store base d src) rest q p h refl
      (λ s. memory_store base src s p q)

-- Every instruction on the sixteen registers, with any number that fits, is read back by the decoder from
-- the bytes that its encoder adds, whatever follows them; the code before them stays as it is. There has to
-- be room for 14 bytes.
pub decode-encode :
    (st : AssemblerState) (i : Instr) (rest : List ℕ)
    → code_len st + 14 ≤ 65536
    → Encodable i
    → (take (code_len st) (encode st i).code ≡ st.code)
      × (decode (drop (code_len st) (encode st i).code ++ rest) ≡ some (i, rest))
decode-encode st i rest room ok =
    let e = encode_bytes st room i in
    (
      ap (take (code_len st)) e ∙ take_front st.code (bytes_of i) (code_len st) refl,
      ap (λ c. decode (drop (code_len st) c ++ rest)) e
          ∙ ap (λ b. decode (b ++ rest)) (drop_front st.code (bytes_of i) (code_len st) refl)
          ∙ decode_bytes i ok rest,
    )
