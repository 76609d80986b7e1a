-- ===== src/X509/Bounds.antt =====
-- kernel/x509.c: where the values lie that the reader accepts, and a loop that does not end.
use aioperatingsystem.Common.{
  ℕ, ◌+◌, ◌%◌, ◌^◌, ◌<◌, ◌≤◌, ◌≡◌, refl, subst, List, Bool, true, false, ltb, not_ltb, ◌==◌, ◌||◌,
  if◌then◌else◌, get_or, u32, test_bit, ◌⊎◌, inl, inr, lt_or_le, arith,
}
use aioperatingsystem.X509.{Parsed, Asn1Cursor, Tlv, read_length, take_content, asn1_read_tlv}

-- The cursor stays in its bounds, and the content begins behind the header. It ends at the cursor, or the
-- sum of the two wraps.
abbrev pub IsWithin : Asn1Cursor → Tlv × Asn1Cursor → Type 0
IsWithin c r =
    (r.1.len ≡ c.len)
    × (r.1.pos ≤ c.len)
    × (c.pos + 2 ≤ r.0.content_offset)
    × ((r.0.content_offset + r.0.content_len ≡ r.1.pos)
        ⊎ (2 ^ 32 ≤ r.0.content_offset + r.0.content_len))

ok_injective : (a b : Tlv × Asn1Cursor) → Parsed.ok a ≡ Parsed.ok b → a ≡ b
ok_injective a b e = cc

content-IsWithin :
    (c : Asn1Cursor) (tag header n : ℕ) (r : Tlv × Asn1Cursor)
    → c.pos ≤ c.len
    → c.len < 2 ^ 31
    → 2 ≤ header
    → header ≤ 6
    → take_content c tag header n ≡ Parsed.ok r
    → IsWithin c r
unfolding take_content
content-IsWithin c tag header n r inside short long few e =
    by_test (ltb c.len (u32 (c.pos + header + n))) refl e
  where
    accepted : Tlv × Asn1Cursor
    accepted = (
      record { tag = tag; content_offset = u32 (c.pos + header); content_len = n },
      record { len = c.len; pos = u32 (c.pos + header + n) },
    )

    placed : (s : ℕ) → s < 2 ^ 32 → (s + n ≡ (s + n) % 2 ^ 32) ⊎ (2 ^ 32 ≤ s + n)
    placed s h = elim (lt_or_le (s + n) (2 ^ 32)) [ inl a ↦ inl (omega arith) | inr b ↦ inr b ]

    by_test :
        (t : Bool)
        → ltb c.len (u32 (c.pos + header + n)) ≡ t
        → (if t then Parsed.rejected else Parsed.ok accepted) ≡ Parsed.ok r
        → IsWithin c r
    by_test true f h = absurd (ground arith)
    by_test false f h =
        let off : u32 (c.pos + header) ≡ c.pos + header = omega arith in
        subst (IsWithin c) (ok_injective accepted r h) (
          refl,
          not_ltb c.len (u32 (c.pos + header + n)) f,
          omega arith,
          elim (placed (c.pos + header) (omega arith)) [
            | inl a ↦ inl (omega arith)
            | inr b ↦ inr (omega arith)
          ],
        )

-- Whatever the bytes are: from a cursor in its bounds, over less than 2 ^ 31 bytes, a value that is accepted
-- leaves a cursor in the same bounds, its content begins two bytes further at least, and it ends where the
-- cursor goes on, unless the offset and the length together wrap.
pub asn1_read_tlv-IsWithin :
    (bytes : List ℕ) (c : Asn1Cursor) (r : Tlv × Asn1Cursor)
    → c.pos ≤ c.len
    → c.len < 2 ^ 31
    → asn1_read_tlv bytes c ≡ Parsed.ok r
    → IsWithin c r
unfolding asn1_read_tlv
asn1_read_tlv-IsWithin bytes c r inside long e = by_room (ltb c.len (u32 (c.pos + 2))) e
  where
    tag : ℕ
    tag = get_or bytes c.pos 0

    first : ℕ
    first = get_or bytes (c.pos + 1) 0

    k : ℕ
    k = first % 2 ^ 7

    long_form : Parsed (Tlv × Asn1Cursor)
    long_form = take_content c tag (2 + k) (read_length bytes k (c.pos + 2) 0)

    by_fit :
        (t : Bool) → k ≤ 4 → (if t then Parsed.rejected else long_form) ≡ Parsed.ok r → IsWithin c r
    by_fit true few h = absurd (ground arith)
    by_fit false few h =
        content-IsWithin c tag (2 + k) (read_length bytes k (c.pos + 2) 0) r inside long
          (omega arith) (omega arith) h

    four : (k == 0) || ltb 4 k ≡ false → k ≤ 4
    four f = ground arith

    by_count :
        (t : Bool)
        → (k == 0) || ltb 4 k ≡ t
        → (if t
            then Parsed.rejected
            else if ltb c.len (u32 (c.pos + 2 + k))
            then Parsed.rejected
            else long_form)
          ≡ Parsed.ok r
        → IsWithin c r
    by_count true f h = absurd (ground arith)
    by_count false f h = by_fit (ltb c.len (u32 (c.pos + 2 + k))) (four f) h

    by_form :
        (t : Bool)
        → (if t
            then (if (k == 0) || ltb 4 k
                then Parsed.rejected
                else if ltb c.len (u32 (c.pos + 2 + k))
                then Parsed.rejected
                else long_form)
            else take_content c tag 2 first)
          ≡ Parsed.ok r
        → IsWithin c r
    by_form true h = by_count ((k == 0) || ltb 4 k) refl h
    by_form false h = content-IsWithin c tag 2 first r inside long (omega arith) (omega arith) h

    by_room :
        (t : Bool)
        → (if t
            then Parsed.rejected
            else if test_bit first 7
            then (if (k == 0) || ltb 4 k
                then Parsed.rejected
                else if ltb c.len (u32 (c.pos + 2 + k))
                then Parsed.rejected
                else long_form)
            else take_content c tag 2 first)
          ≡ Parsed.ok r
        → IsWithin c r
    by_room true h = absurd (ground arith)
    by_room false h = by_form (test_bit first 7) h
