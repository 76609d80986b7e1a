-- ===== src/Asm/Fields.antt =====
-- kernel/asm.c: the fields of the prefix and of the ModRM byte, for every pair of registers.
use aioperatingsystem.Common.{
  ℕ, ◌+◌, ◌*◌, ◌/◌, ◌%◌, ◌<◌, ◌≡◌, refl, subst, Bool, true, ◌&&◌, ◌==◌, ==_iff, all_below,
  all_below-get, &&-left, &&-right, test_bit, arith,
}
use Prim.Native.Nat.{bit_and}
use aioperatingsystem.Asm.Encode.{rex_of, modrm}
use aioperatingsystem.Asm.Decode.{is_rex, reg_field, rm_field}

-- What the decoder reads from the two bytes.
pub record HasFields (rex byte mode reg rm : ℕ) : Type 0 where
  pub prefix : is_rex rex ≡ true
  pub wide : test_bit rex 3 ≡ true
  pub mode_is : byte / 64 ≡ mode
  pub reg_is : reg_field rex byte ≡ reg
  pub rm_is : rm_field rex byte ≡ rm
  pub digit_is : byte / 8 % 8 ≡ reg % 8
  pub base_is : byte % 8 ≡ bit_and rm 7

abbrev fields_ok : (rex byte mode reg rm : ℕ) → Bool
fields_ok rex byte mode reg rm =
    is_rex rex
    && (test_bit rex 3
        && ((byte / 64 == mode)
            && ((reg_field rex byte == reg)
                && ((rm_field rex byte == rm)
                    && ((byte / 8 % 8 == reg % 8) && (byte % 8 == bit_and rm 7))))))

fields_lem :
    (rex byte mode reg rm : ℕ)
    → fields_ok rex byte mode reg rm ≡ true
    → HasFields rex byte mode reg rm
fields_lem rex byte mode reg rm h =
    let h1 = &&-right _ _ h in
    let h2 = &&-right _ _ h1 in
    let h3 = &&-right _ _ h2 in
    let h4 = &&-right _ _ h3 in
    let h5 = &&-right _ _ h4 in
    record {
      prefix = &&-left _ _ h;
      wide = &&-left _ _ h1;
      mode_is = (==_iff _ _).0 (&&-left _ _ h2);
      reg_is = (==_iff _ _).0 (&&-left _ _ h3);
      rm_is = (==_iff _ _).0 (&&-left _ _ h4);
      digit_is = (==_iff _ _).0 (&&-left _ _ h5);
      base_is = (==_iff _ _).0 (&&-right _ _ h5);
    }

abbrev pair_ok : (mode k : ℕ) → Bool
pair_ok mode k =
    fields_ok (rex_of (k / 16) (k % 16)) (modrm (mode * 64) (k / 16) (k % 16)) mode (k / 16)
      (k % 16)

on_pairs :
    (mode : ℕ)
    → all_below (pair_ok mode) 256 ≡ true
    → (reg rm : ℕ) → reg < 16
    → rm < 16
    → HasFields (rex_of reg rm) (modrm (mode * 64) reg rm) mode reg rm
on_pairs mode table reg rm p q =
    let k = reg * 16 + rm in
    let high : k / 16 ≡ reg = omega arith in
    let low : k % 16 ≡ rm = omega arith in
    subst (λ (r : ℕ). HasFields (rex_of r rm) (modrm (mode * 64) r rm) mode r rm) high
      (subst
        (λ (m : ℕ). HasFields (rex_of (k / 16) m) (modrm (mode * 64) (k / 16) m) mode (k / 16) m)
        low
        (fields_lem (rex_of (k / 16) (k % 16)) (modrm (mode * 64) (k / 16) (k % 16)) mode (k / 16)
          (k % 16) (all_below-get (pair_ok mode) 256 table k (omega arith))))

pub register_fields :
    (reg rm : ℕ) → reg < 16 → rm < 16 → HasFields (rex_of reg rm) (modrm 0xC0 reg rm) 3 reg rm
register_fields = on_pairs 3 refl

pub memory_fields :
    (reg rm : ℕ) → reg < 16 → rm < 16 → HasFields (rex_of reg rm) (modrm 0x80 reg rm) 2 reg rm
memory_fields = on_pairs 2 refl
