-- ===== src/X509/Reading.antt =====
-- kernel/x509.c what the reader makes of a value.
use aioperatingsystem.Common.{
  ℕ, suc, ◌+◌, ◌*◌, ◌/◌, ◌%◌, ◌^◌, ◌<◌, ◌≤◌, ◌≡◌, refl, ap, ap₂, ◌∙◌, List, [], ◌∷◌, ◌++◌, Bool,
  true, false, ltb, ltb→lt, ◌!=◌, if◌then◌else◌, get_or, length, u32, ◌<<<◌, arith,
}
use Prim.Native.Nat.{bit_or}
use aioperatingsystem.Common.Bits.{bit_or_fields}
use aioperatingsystem.X509.{
  Parsed, Asn1Cursor, Tlv, read_length, take_content, asn1_read_tlv, expect_tag, ◌>>=◌,
}
use aioperatingsystem.X509.Der.{der_length, der, StandsAt, at_index, header_len}

-- The reader on the two forms of a length.
tlv_short :
    (bytes : List ℕ) (c : Asn1Cursor) (tag n : ℕ)
    → get_or bytes c.pos 0 ≡ tag
    → get_or bytes (c.pos + 1) 0 ≡ n
    → n < 128
    → c.pos + 2 + n ≤ c.len
    → c.len < 2 ^ 31
    → asn1_read_tlv bytes c
      ≡ Parsed.ok (
        record { tag = tag; content_offset = c.pos + 2; content_len = n },
        record { len = c.len; pos = c.pos + 2 + n },
      )
unfolding asn1_read_tlv take_content
tlv_short bytes c tag n p q small fits short = ground (arith, p, q)

tlv_long :
    (bytes : List ℕ) (c : Asn1Cursor) (tag k n : ℕ)
    → get_or bytes c.pos 0 ≡ tag
    → get_or bytes (c.pos + 1) 0 ≡ 128 + k
    → 0 < k
    → k ≤ 4
    → read_length bytes k (c.pos + 2) 0 ≡ n
    → c.pos + (2 + k) + n ≤ c.len
    → c.len < 2 ^ 31
    → asn1_read_tlv bytes c
      ≡ Parsed.ok (
        record { tag = tag; content_offset = c.pos + (2 + k); content_len = n },
        record { len = c.len; pos = c.pos + (2 + k) + n },
      )
unfolding asn1_read_tlv take_content
tlv_long bytes c tag k n p q some_byte few l fits short =
    let first = get_or bytes (c.pos + 1) 0 in
    let low : first % 2 ^ 7 ≡ k = omega (arith, q) in
    let value : read_length bytes (first % 2 ^ 7) (c.pos + 2) 0 ≡ n =
      ap (λ (t : ℕ). read_length bytes t (c.pos + 2) 0) low ∙ l in
    ground (arith, p, q, low, value)

read_step :
    (bytes : List ℕ) (n pos v b : ℕ)
    → get_or bytes pos 0 ≡ b
    → v < 2 ^ 24
    → b < 256
    → read_length bytes (suc n) pos v ≡ read_length bytes n (pos + 1) (v * 256 + b)
unfolding read_length
read_step bytes n pos v b e small byte =
    let fits : u32 (v <<< 8) ≡ v * 2 ^ 8 = omega arith in
    ap (λ (t : ℕ). read_length bytes n (pos + 1) t)
      (ap₂ bit_or fits e ∙ bit_or_fields 8 v b (omega arith))

-- What the reader gives for a value at the cursor.
abbrev pub read_value : (c : Asn1Cursor) (tag n : ℕ) → Parsed (Tlv × Asn1Cursor)
read_value c tag n = Parsed.ok (
  record { tag = tag; content_offset = c.pos + header_len n; content_len = n },
  record { len = c.len; pos = c.pos + header_len n + n },
)

read_one :
    (bytes : List ℕ) (pos n : ℕ) → n < 256 → get_or bytes pos 0 ≡ n → read_length bytes 1 pos 0 ≡ n
unfolding read_length
read_one bytes pos n small e = read_step bytes 0 pos 0 n e (omega arith) small ∙ omega arith

read_two :
    (bytes : List ℕ) (pos n : ℕ)
    → n < 65536
    → get_or bytes pos 0 ≡ n / 256
    → get_or bytes (pos + 1) 0 ≡ n % 256
    → read_length bytes 2 pos 0 ≡ n
unfolding read_length
read_two bytes pos n small e f =
    read_step bytes 1 pos 0 (n / 256) e (omega arith) (omega arith)
    ∙ read_step bytes 0 (pos + 1) (0 * 256 + n / 256) (n % 256) f (omega arith) (omega arith)
    ∙ omega arith

read_three :
    (bytes : List ℕ) (pos n : ℕ)
    → n < 2 ^ 24
    → get_or bytes pos 0 ≡ n / 65536
    → get_or bytes (pos + 1) 0 ≡ n / 256 % 256
    → get_or bytes (pos + 1 + 1) 0 ≡ n % 256
    → read_length bytes 3 pos 0 ≡ n
unfolding read_length
read_three bytes pos n small e f g =
    read_step bytes 2 pos 0 (n / 65536) e (omega arith) (omega arith)
    ∙ read_step bytes 1 (pos + 1) (0 * 256 + n / 65536) (n / 256 % 256) f (omega arith)
        (omega arith)
    ∙ read_step bytes 0 (pos + 1 + 1) ((0 * 256 + n / 65536) * 256 + n / 256 % 256) (n % 256) g
        (omega arith) (omega arith)
    ∙ omega arith

if_cases :
    (P : List ℕ → Type 0) (t : Bool) (a b : List ℕ)
    → (t ≡ true → P a)
    → (t ≡ false → P b)
    → P (if t then a else b)
if_cases P true a b p q = p refl
if_cases P false a b p q = q refl

module _ (bytes : List ℕ) (c : Asn1Cursor) (short : c.len < 2 ^ 31) (tag : ℕ) (content : List ℕ)
    (n : ℕ) where
  -- The reader takes the value with the length in this form.
  abbrev Reads : List ℕ → Type 0
  Reads form =
      StandsAt bytes c.pos (tag ∷ (form ++ content))
      → c.pos + (1 + length form) + n ≤ c.len
      → asn1_read_tlv bytes c
        ≡ Parsed.ok (
          record { tag = tag; content_offset = c.pos + (1 + length form); content_len = n },
          record { len = c.len; pos = c.pos + (1 + length form) + n },
        )

  one_byte : n < 128 → Reads (n ∷ [])
  one_byte small at fits =
      tlv_short bytes c tag n
        (at_index bytes c.pos 0 c.pos tag (tag ∷ n ∷ content) at (omega arith) (λ r. refl))
        (at_index bytes c.pos 1 (c.pos + 1) n (tag ∷ n ∷ content) at (omega arith) (λ r. refl))
        small fits short

  -- The bytes behind the tag, by their place.
  at_place :
      (form : List ℕ) (i p b : ℕ)
      → StandsAt bytes c.pos (tag ∷ (form ++ content))
      → p ≡ c.pos + i
      → ((rest : List ℕ) → get_or ((tag ∷ (form ++ content)) ++ rest) i 0 ≡ b)
      → get_or bytes p 0 ≡ b
  at_place form i p b at e g = at_index bytes c.pos i p b (tag ∷ (form ++ content)) at e g

  two_bytes : n < 256 → Reads (0x81 ∷ n ∷ [])
  two_bytes small at fits =
      let form : List ℕ = 0x81 ∷ n ∷ [] in
      tlv_long bytes c tag 1 n (at_place form 0 c.pos tag at (omega arith) (λ r. refl))
        (at_place form 1 (c.pos + 1) 0x81 at (omega arith) (λ r. refl)) (omega arith) (omega arith)
        (read_one bytes (c.pos + 2) n small
          (at_place form 2 (c.pos + 2) n at (omega arith) (λ r. refl)))
        fits short

  three_bytes : n < 65536 → Reads (0x82 ∷ n / 256 ∷ n % 256 ∷ [])
  three_bytes small at fits =
      let form : List ℕ = 0x82 ∷ n / 256 ∷ n % 256 ∷ [] in
      tlv_long bytes c tag 2 n (at_place form 0 c.pos tag at (omega arith) (λ r. refl))
        (at_place form 1 (c.pos + 1) 0x82 at (omega arith) (λ r. refl)) (omega arith) (omega arith)
        (read_two bytes (c.pos + 2) n small
          (at_place form 2 (c.pos + 2) (n / 256) at (omega arith) (λ r. refl))
          (at_place form 3 (c.pos + 2 + 1) (n % 256) at (omega arith) (λ r. refl)))
        fits short

  four_bytes : n < 2 ^ 24 → Reads (0x83 ∷ n / 65536 ∷ n / 256 % 256 ∷ n % 256 ∷ [])
  four_bytes small at fits =
      let form : List ℕ = 0x83 ∷ n / 65536 ∷ n / 256 % 256 ∷ n % 256 ∷ [] in
      tlv_long bytes c tag 3 n (at_place form 0 c.pos tag at (omega arith) (λ r. refl))
        (at_place form 1 (c.pos + 1) 0x83 at (omega arith) (λ r. refl)) (omega arith) (omega arith)
        (read_three bytes (c.pos + 2) n small
          (at_place form 2 (c.pos + 2) (n / 65536) at (omega arith) (λ r. refl))
          (at_place form 3 (c.pos + 2 + 1) (n / 256 % 256) at (omega arith) (λ r. refl))
          (at_place form 4 (c.pos + 2 + 1 + 1) (n % 256) at (omega arith) (λ r. refl)))
        fits short

  by_form : n < 2 ^ 24 → Reads (der_length n)
  unfolding der_length
  by_form small =
      if_cases Reads (ltb n 128) _ _ (λ a. one_byte (ltb→lt n 128 a))
        (λ a.
          if_cases Reads (ltb n 256) _ _ (λ b. two_bytes (ltb→lt n 256 b))
            (λ b.
              if_cases Reads (ltb n 65536) _ _ (λ d. three_bytes (ltb→lt n 65536 d))
                (λ d. four_bytes small)))

-- A value of less than 2 ^ 24 bytes that stands at the cursor is read, and the cursor goes behind it.
pub asn1_read_tlv_lem :
    (bytes : List ℕ) (c : Asn1Cursor) (tag : ℕ) (content : List ℕ)
    → c.len < 2 ^ 31
    → length content < 2 ^ 24
    → StandsAt bytes c.pos (der tag content)
    → c.pos + header_len (length content) + length content ≤ c.len
    → asn1_read_tlv bytes c ≡ read_value c tag (length content)
asn1_read_tlv_lem bytes c tag content short small at fits =
    by_form bytes c short tag content (length content) small at fits

-- So too where the tag is asked for.
pub expect_tag_lem :
    (bytes : List ℕ) (c : Asn1Cursor) (tag : ℕ) (content : List ℕ)
    → c.len < 2 ^ 31
    → length content < 2 ^ 24
    → StandsAt bytes c.pos (der tag content)
    → c.pos + header_len (length content) + length content ≤ c.len
    → expect_tag bytes tag c ≡ read_value c tag (length content)
unfolding expect_tag
expect_tag_lem bytes c tag content short small at fits =
    ap (λ o. o >>= λ r. if r.0.tag != tag then Parsed.rejected else Parsed.ok r)
      (asn1_read_tlv_lem bytes c tag content short small at fits)
    ∙ ap (λ (t : Bool). if t then Parsed.rejected else read_value c tag (length content)) (same tag)
  where
    same : (t : ℕ) → (t != t) ≡ false
    same t = ground arith
