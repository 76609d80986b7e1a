-- ===== src/Asm/Jumps.antt =====
-- kernel/asm.c: the jumps that the second pass patches.
use aioperatingsystem.Common.{
  ℕ, suc, ◌+◌, ◌-◌, ◌%◌, ◌<◌, ◌≤◌, min, ◌≡◌, ◌≢◌, refl, sym, ap, ◌∙◌, subst, List, [], ◌∷◌, Bool,
  true, false, ◌||◌, Option, none, some, ltb, ltb→lt, length-set, get_or, set, get_or-set_self,
  get_or-set_ne, All, if◌then◌else◌, lt_or_le, ◌⊎◌, inl, inr, arith,
}
use aioperatingsystem.Asm.Encode.{Label, JumpFixup, Message, AssemblerState, code_len, fail}
use aioperatingsystem.Asm.Assemble.{find_label, Patched, displacement, patch_jumps}
use aioperatingsystem.Asm.Valid.{IsFixup, InOrder}

-- The place that a short jump goes to: the byte is added, as a number with a sign, to the address of the
-- next instruction.
abbrev pub LandsOn : (next byte target : ℕ) → Type 0
LandsOn next byte target =
    ((byte < 128) × (next + byte ≡ target))
    ⊎ ((128 ≤ byte) × (byte < 256) × (next + byte ≡ target + 256))

-- The jump goes to the label that it names.
abbrev pub Jumps : (labels : List Label) → (code : List ℕ) → JumpFixup → Type 0
Jumps labels code fx =
    (target : ℕ) × (find_label labels fx.label ≡ some target)
    × LandsOn fx.next_instr_offset (get_or code fx.patch_offset 0) target

displacement_lem :
    (offset next rel : ℕ) → displacement offset next ≡ some rel → LandsOn next rel offset
unfolding displacement
displacement_lem offset next rel e =
    by_test (ltb (offset + 128) next || ltb (next + 127) offset) refl e
  where
    in_range :
        (ltb (offset + 128) next || ltb (next + 127) offset) ≡ false
        → (next ≤ offset + 128) × (offset ≤ next + 127)
    in_range f = ground arith

    some_injective : (x y : ℕ) → some x ≡ some y → x ≡ y
    some_injective x y h = cc

    by_test :
        (t : Bool)
        → (ltb (offset + 128) next || ltb (next + 127) offset) ≡ t
        → (if t then none else some ((offset + 256 - next) % 256)) ≡ some rel
        → LandsOn next rel offset
    by_test true f h = absurd (ground arith)
    by_test false f h =
        let bounds = in_range f in
        let value : (offset + 256 - next) % 256 ≡ rel =
          some_injective ((offset + 256 - next) % 256) rel h in
        elim (lt_or_le offset next) [
          | inl below ↦ inr (omega arith, omega arith, omega arith)
          | inr above ↦ inl (omega arith, omega arith)
        ]

-- The second pass, from a state whose displacements stand in order.
pub record IsPatched (fixups : List JumpFixup) (st done : AssemblerState) : Type 0 where
  pub len : code_len done ≡ code_len st
  pub labels : done.labels ≡ st.labels
  pub jumps : All (Jumps st.labels done.code) fixups
  pub others :
      (i : ℕ)
      → All (λ (fx : JumpFixup). fx.patch_offset ≢ i) fixups
      → get_or done.code i 0 ≡ get_or st.code i 0

ordered_above :
    (lo i : ℕ) (fs : List JumpFixup)
    → i < lo
    → lo ≤ 65536
    → InOrder lo fs
    → All (λ (fx : JumpFixup). fx.patch_offset ≢ i) fs
ordered_above lo i [] h k o = tt
ordered_above lo i (fx ∷ fs) h k (l, o) = (
  (λ e. omega arith),
  ordered_above (min (suc fx.patch_offset) 65536) i fs (omega arith) (omega arith) o,
)

-- Of a done pass over the later jumps, from the code in which the first has been patched.
first_fixup_done :
    (fx : JumpFixup) (fs : List JumpFixup) (st done : AssemblerState) (target rel : ℕ)
    → find_label st.labels fx.label ≡ some target
    → displacement target fx.next_instr_offset ≡ some rel
    → fx.patch_offset < code_len st
    → InOrder (min (suc fx.patch_offset) 65536) fs
    → code_len st ≤ 65536
    → IsPatched fs (record st { code = set st.code fx.patch_offset rel }) done
    → IsPatched (fx ∷ fs) st done
first_fixup_done fx fs st done target rel found near inside o fits p =
    let first : get_or done.code fx.patch_offset 0 ≡ rel =
      p.others fx.patch_offset (
        ordered_above (min (suc fx.patch_offset) 65536) fx.patch_offset fs (omega arith)
          (omega arith) o)
      ∙ get_or-set_self st.code fx.patch_offset rel 0 inside in
    record {
      len = p.len ∙ length-set st.code fx.patch_offset rel;
      labels = p.labels;
      jumps = (
        (
          target,
          found,
          subst (λ (b : ℕ). LandsOn fx.next_instr_offset b target) (sym first)
              (displacement_lem target fx.next_instr_offset rel near),
        ),
        p.jumps,
      );
      others = λ i (ne, rest). p.others i rest ∙ get_or-set_ne st.code fx.patch_offset i rel 0 ne;
    }

fixup_inside :
    (len : ℕ) (fx : JumpFixup)
    → IsFixup len fx
    → len ≤ 65536
    → fx.patch_offset < 65536
    → fx.patch_offset < len
fixup_inside len fx (inl (a, b)) h k = omega arith
fixup_inside len fx (inr (a, b, c)) h k = omega arith

fail_failed : (st : AssemblerState) (n : ℕ) (msg : Message) → (fail st n msg).failed ≡ true
unfolding fail
fail_failed st n msg = by_flag st.failed refl
  where
    by_flag :
        (t : Bool)
        → st.failed ≡ t
        → (if t then st else record st { error = msg; error_line = n; failed = true }).failed ≡ true
    by_flag true e = e
    by_flag false e = refl

patched_injective : (a b : AssemblerState) → Patched.patched a ≡ Patched.patched b → a ≡ b
patched_injective a b e = cc

not_both : (b : Bool) → b ≡ true → b ≡ false → ⊥
not_both b p q = ground (arith, p, q)

pub patch_jumps_lem :
    (fs : List JumpFixup) (lo : ℕ) (st done : AssemblerState)
    → InOrder lo fs
    → All (IsFixup (code_len st)) fs
    → code_len st ≤ 65536
    → patch_jumps fs st ≡ Patched.patched done
    → done.failed ≡ false
    → IsPatched fs st done
unfolding patch_jumps
patch_jumps_lem [] lo st done o v fits e ok =
    subst (λ (d : AssemblerState). IsPatched [] st d) (patched_injective st done e)
      (record { len = refl; labels = refl; jumps = tt; others = λ i h. refl })
patch_jumps_lem (fx ∷ fs) lo st done (l, o) (v, vs) fits e ok =
    by_label (find_label st.labels fx.label) refl e (λ rel.
      patch_jumps_lem fs (min (suc fx.patch_offset) 65536)
        (record st { code = set st.code fx.patch_offset rel }) done o
        (subst (λ (k : ℕ). All (IsFixup k) fs) (sym (length-set st.code fx.patch_offset rel)) vs)
        (omega (arith, length-set st.code fx.patch_offset rel)))
  where
    After : (rel : ℕ) → Type 0
    After rel =
        patch_jumps fs (record st { code = set st.code fx.patch_offset rel }) ≡ Patched.patched done
        → done.failed ≡ false
        → IsPatched fs (record st { code = set st.code fx.patch_offset rel }) done

    refused :
        (msg : Message)
        → Patched.patched (fail st fx.line_number msg) ≡ Patched.patched done
        → IsPatched (fx ∷ fs) st done
    refused msg e' = absurd (
        not_both done.failed
          (ap (λ (d : AssemblerState). d.failed)
              (sym (patched_injective (fail st fx.line_number msg) done e'))
            ∙ fail_failed st fx.line_number msg)
          ok)

    by_room :
        (target rel : ℕ) (t : Bool)
        → find_label st.labels fx.label ≡ some target
        → displacement target fx.next_instr_offset ≡ some rel
        → ltb fx.patch_offset 65536 ≡ t
        → elim t [
          | true ↦ patch_jumps fs (record st { code = set st.code fx.patch_offset rel })
          | false ↦ Patched.overrun
        ]
          ≡ Patched.patched done
        → After rel
        → IsPatched (fx ∷ fs) st done
    by_room target rel true found near t e' ih =
        first_fixup_done fx fs st done target rel found near
          (fixup_inside (code_len st) fx v fits (ltb→lt fx.patch_offset 65536 t)) o fits (ih e' ok)
    by_room target rel false found near t e' ih = absurd (ground arith)

    by_range :
        (target : ℕ) (d : Option ℕ)
        → find_label st.labels fx.label ≡ some target
        → displacement target fx.next_instr_offset ≡ d
        → elim d [
          | none ↦ Patched.patched (fail st fx.line_number Message.jump_too_far)
          | some rel ↦ elim (ltb fx.patch_offset 65536) [
            | true ↦ patch_jumps fs (record st { code = set st.code fx.patch_offset rel })
            | false ↦ Patched.overrun
          ]
        ]
          ≡ Patched.patched done
        → ((rel : ℕ) → After rel)
        → IsPatched (fx ∷ fs) st done
    by_range target none found near e' ih = refused Message.jump_too_far e'
    by_range target (some rel) found near e' ih =
        by_room target rel (ltb fx.patch_offset 65536) found near refl e' (ih rel)

    by_label :
        (t : Option ℕ)
        → find_label st.labels fx.label ≡ t
        → elim t [
          | none ↦ Patched.patched (fail st fx.line_number Message.undefined_label)
          | some target ↦ elim (displacement target fx.next_instr_offset) [
            | none ↦ Patched.patched (fail st fx.line_number Message.jump_too_far)
            | some rel ↦ elim (ltb fx.patch_offset 65536) [
              | true ↦ patch_jumps fs (record st { code = set st.code fx.patch_offset rel })
              | false ↦ Patched.overrun
            ]
          ]
        ]
          ≡ Patched.patched done
        → ((rel : ℕ) → After rel)
        → IsPatched (fx ∷ fs) st done
    by_label none found e' ih = refused Message.undefined_label e'
    by_label (some target) found e' ih =
        by_range target (displacement target fx.next_instr_offset) found refl e' ih
