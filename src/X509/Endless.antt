-- ===== src/X509/Endless.antt =====
-- kernel/x509.c: a length that wraps, and the loop over the attributes of a name.
use aioperatingsystem.Common.{
  ℕ, zero, suc, ◌+◌, ◌%◌, ◌^◌, ◌<◌, ◌≤◌, ◌≡◌, ◌≢◌, refl, ap, ◌∙◌, List, [], ◌∷◌, Bool, true, ◌!=◌,
  if◌then◌else◌, get_or, u32, ◌<<<◌, ◌-◌, arith,
}
use Prim.Native.Nat.{bit_or}
use aioperatingsystem.X509.{
  Parsed, ◌>>=◌, Asn1Cursor, Tlv, read_length, take_content, asn1_read_tlv, asn1_enter, expect_tag,
  is_cn, copy_string, common_name_of, name_loop, find_common_name,
}
use aioperatingsystem.X509.Der.{StandsAt, at_index}

-- A value of 2 ^ 32 - 6 bytes, says its header of six bytes.
abbrev pub wrapping_header : (tag : ℕ) → List ℕ
wrapping_header tag = tag ∷ 0x84 ∷ 0xFF ∷ 0xFF ∷ 0xFF ∷ 0xFA ∷ []

huge :
    (bytes : List ℕ) (pos : ℕ)
    → get_or bytes pos 0 ≡ 0xFF
    → get_or bytes (pos + 1) 0 ≡ 0xFF
    → get_or bytes (pos + 1 + 1) 0 ≡ 0xFF
    → get_or bytes (pos + 1 + 1 + 1) 0 ≡ 0xFA
    → read_length bytes 4 pos 0 ≡ 2 ^ 32 - 6
unfolding read_length
huge bytes pos a b d e = λ i.
    bit_or
      (u32
        (bit_or (u32 (bit_or (u32 (bit_or (u32 (0 <<< 8)) (a i) <<< 8)) (b i) <<< 8)) (d i) <<< 8))
      (e i)

-- The value that is read there: its end is its beginning.
abbrev stuck : (c : Asn1Cursor) (tag : ℕ) → Tlv × Asn1Cursor
stuck c tag = (
  record { tag = tag; content_offset = c.pos + 6; content_len = 2 ^ 32 - 6 },
  record { len = c.len; pos = c.pos },
)

wrapped_read :
    (bytes : List ℕ) (c : Asn1Cursor) (tag : ℕ)
    → StandsAt bytes c.pos (wrapping_header tag)
    → c.pos + 6 ≤ c.len
    → c.len < 2 ^ 31
    → asn1_read_tlv bytes c ≡ Parsed.ok (stuck c tag)
unfolding asn1_read_tlv take_content
wrapped_read bytes c tag at room short =
    let h = wrapping_header tag in
    let p = at_index bytes c.pos 0 c.pos tag h at (omega arith) (λ r. refl) in
    let q = at_index bytes c.pos 1 (c.pos + 1) 0x84 h at (omega arith) (λ r. refl) in
    let first = get_or bytes (c.pos + 1) 0 in
    let low : first % 2 ^ 7 ≡ 4 = omega (arith, q) in
    let value : read_length bytes (first % 2 ^ 7) (c.pos + 2) 0 ≡ 2 ^ 32 - 6 =
      ap (λ (t : ℕ). read_length bytes t (c.pos + 2) 0) low
      ∙ huge bytes (c.pos + 2)
          (at_index bytes c.pos 2 (c.pos + 2) 0xFF h at (omega arith) (λ r. refl))
          (at_index bytes c.pos 3 (c.pos + 2 + 1) 0xFF h at (omega arith) (λ r. refl))
          (at_index bytes c.pos 4 (c.pos + 2 + 1 + 1) 0xFF h at (omega arith) (λ r. refl))
          (at_index bytes c.pos 5 (c.pos + 2 + 1 + 1 + 1) 0xFA h at (omega arith) (λ r. refl)) in
    ground (arith, p, q, low, value)

not_set :
    (bytes : List ℕ) (c : Asn1Cursor) (tag out_max : ℕ)
    → tag ≢ 0x31
    → common_name_of bytes (stuck c tag).0 out_max ≡ Parsed.rejected
unfolding common_name_of
not_set bytes c tag out_max ne =
    ap
      (λ (t : Bool). (if t then Parsed.rejected else Parsed.ok (stuck c tag).0) >>= λ set.
        expect_tag bytes 0x30 (asn1_enter (c.pos + 6) (2 ^ 32 - 6)) >>= λ atv.
        expect_tag bytes 0x06 (asn1_enter atv.0.content_offset atv.0.content_len) >>= λ oid.
        (if is_cn bytes oid.0 then Parsed.ok oid else Parsed.rejected) >>= λ cn.
        asn1_read_tlv bytes oid.1 >>= λ v. copy_string bytes v.0 out_max)
      (other tag ne)
  where
    other : (t : ℕ) → t ≢ 0x31 → (t != 0x31) ≡ true
    other t h = ground (arith, h)

stuck_loop :
    (fuel : ℕ) (bytes : List ℕ) (c : Asn1Cursor) (tag out_max : ℕ)
    → tag ≢ 0x31
    → StandsAt bytes c.pos (wrapping_header tag)
    → c.pos + 6 ≤ c.len
    → c.len < 2 ^ 31
    → name_loop fuel bytes c out_max ≡ Parsed.endless
unfolding name_loop
stuck_loop zero bytes c tag out_max ne at room short = refl
stuck_loop (suc fuel) bytes c tag out_max ne at room short =
    ap
      (λ o. elim o [
        | Parsed.rejected ↦ Parsed.ok []
        | Parsed.endless ↦ Parsed.endless
        | Parsed.ok r ↦ elim (common_name_of bytes r.0 out_max) [
          | Parsed.ok name ↦ Parsed.ok name
          | _ ↦ name_loop fuel bytes r.1 out_max
        ]
      ])
      (wrapped_read bytes c tag at room short)
    ∙ ap
        (λ o. elim o [
          | Parsed.ok name ↦ Parsed.ok name
          | _ ↦ name_loop fuel bytes (record { len = c.len; pos = c.pos }) out_max
        ])
        (not_set bytes c tag out_max ne)
    ∙ stuck_loop fuel bytes (record { len = c.len; pos = c.pos }) tag out_max ne at room short

-- Where a name begins with a value of any tag but 0x31 whose length field says 2 ^ 32 - 6, the search for the
-- common name does not end: no number of rounds is enough, whatever bytes follow.
pub find_common_name-endless :
    (fuel : ℕ) (bytes : List ℕ) (tag offset len out_max : ℕ)
    → tag ≢ 0x31
    → StandsAt bytes offset (wrapping_header tag)
    → 6 ≤ len
    → offset + len < 2 ^ 31
    → find_common_name fuel bytes offset len out_max ≡ Parsed.endless
unfolding find_common_name
find_common_name-endless fuel bytes tag offset len out_max ne at room short =
    stuck_loop fuel bytes (record { len = u32 (offset + len); pos = offset }) tag out_max ne at
      (omega arith) (omega arith)
