-- ===== src/X509/Windows.antt =====
-- kernel/x509.c: walking through values that stand one behind the other or inside each other.
use aioperatingsystem.Common.{
  ℕ, suc, ◌+◌, ◌-◌, ◌^◌, ◌<◌, ◌≤◌, ◌≡◌, refl, sym, ap, ◌∙◌, subst, List, [], ◌∷◌, ◌++◌, Bool, true,
  false, ltb, ◌==◌, ◌&&◌, if◌then◌else◌, get_or, take, drop, take_front, length, length-append,
  arith,
}
use mathlib.Core.List.{append-nil}
use aioperatingsystem.X509.{
  Parsed, Asn1Cursor, Tlv, asn1_read_tlv, asn1_enter, expect_tag, copy_integer,
}
use aioperatingsystem.X509.Der.{der, der_length, header_len, StandsAt, at_left, at_right, at_index}
use aioperatingsystem.X509.Reading.{read_value, asn1_read_tlv_lem, expect_tag_lem}

-- The bytes from the cursor on are these, and the reader has no bound in their way.
pub record Window (bytes : List ℕ) (c : Asn1Cursor) (piece : List ℕ) : Type 0 where
  pub at : StandsAt bytes c.pos piece
  pub fits : c.pos + length piece ≤ c.len
  pub short : c.len < 2 ^ 31
  pub small : length piece < 2 ^ 24

-- The cursor behind a value of `n` bytes, and the one inside it.
abbrev pub behind : Asn1Cursor → (n : ℕ) → Asn1Cursor
behind c n = record { len = c.len; pos = c.pos + header_len n + n }

abbrev pub inside : Asn1Cursor → (n : ℕ) → Asn1Cursor
inside c n = record { len = c.pos + header_len n + n; pos = c.pos + header_len n }

pub length-der :
    (tag : ℕ) (content : List ℕ)
    → length (der tag content) ≡ header_len (length content) + length content
length-der tag content = omega (arith, length-append (der_length (length content)) content)

pub whole :
    (bytes : List ℕ) (c : Asn1Cursor) (piece : List ℕ)
    → Window bytes c piece
    → Window bytes c (piece ++ [])
whole bytes c piece w = subst (Window bytes c) (sym (append-nil piece)) w

module _ (bytes : List ℕ) (c : Asn1Cursor) (tag : ℕ) (content rest : List ℕ)
    (w : Window bytes c (der tag content ++ rest)) where
  size :
      length (der tag content ++ rest) ≡ header_len (length content) + length content + length rest
  size = omega (arith, length-append (der tag content) rest, length-der tag content)

  pub read_first : asn1_read_tlv bytes c ≡ read_value c tag (length content)
  read_first =
      asn1_read_tlv_lem bytes c tag content w.short (omega (arith, size, w.small))
        (at_left bytes c.pos (der tag content) rest w.at) (omega (arith, size, w.fits))

  pub expect_first : expect_tag bytes tag c ≡ read_value c tag (length content)
  expect_first =
      expect_tag_lem bytes c tag content w.short (omega (arith, size, w.small))
        (at_left bytes c.pos (der tag content) rest w.at) (omega (arith, size, w.fits))

  pub behind_first : Window bytes (behind c (length content)) rest
  behind_first = record {
    at =
        subst (λ (p : ℕ). StandsAt bytes p rest) (omega (arith, length-der tag content))
          (at_right bytes c.pos (der tag content) rest w.at);
    fits = omega (arith, size, w.fits);
    short = w.short;
    small = omega (arith, size, w.small);
  }

  pub inside_first :
      Window bytes (asn1_enter (c.pos + header_len (length content)) (length content)) content
  inside_first =
      let end = c.pos + header_len (length content) + length content in
      let fits : end ≤ c.len = omega (arith, size, w.fits) in
      record {
        at =
            subst (λ (p : ℕ). StandsAt bytes p content)
              (suc_to (length (der_length (length content))))
              (at_right bytes c.pos (tag ∷ der_length (length content)) content
                (at_left bytes c.pos (der tag content) rest w.at));
        fits = omega (arith, w.short);
        short = omega (arith, w.short);
        small = omega (arith, size, w.small);
      }
    where
      suc_to : (k : ℕ) → c.pos + suc k ≡ c.pos + (1 + k)
      suc_to k = omega arith

-- An integer, without the zero byte that DER puts in front of a high bit.
abbrev pub magnitude : List ℕ → List ℕ
magnitude [] = []
magnitude (b ∷ s) = if b == 0 then s else b ∷ s

-- The copy, once it is known how many bytes are skipped.
copied :
    (bytes s : List ℕ) (off size n skip : ℕ)
    → StandsAt bytes (off + skip) s
    → n - skip ≡ length s
    → length s ≤ size
    → (if ltb size (n - skip)
        then Parsed.rejected
        else Parsed.ok (take (n - skip) (drop (off + skip) bytes)))
      ≡ Parsed.ok s
copied bytes s off size n skip (rest, at) e fits =
    ap
      (λ (k : ℕ).
        if ltb size k then Parsed.rejected else Parsed.ok (take k (drop (off + skip) bytes)))
      e
    ∙ ap
        (λ (t : Bool).
          if t then Parsed.rejected else Parsed.ok (take (length s) (drop (off + skip) bytes)))
        (in_size size (length s) fits)
    ∙ ap Parsed.ok (ap (take (length s)) at ∙ take_front s rest (length s) refl)
  where
    in_size : (a b : ℕ) → b ≤ a → ltb a b ≡ false
    in_size a b h = ground arith

skipped : (bytes : List ℕ) (t : Tlv) → ℕ
skipped bytes t = if ltb 0 t.content_len && (get_or bytes t.content_offset 0 == 0) then 1 else 0

skip_none : (bytes : List ℕ) (t : Tlv) → t.content_len ≡ 0 → skipped bytes t ≡ 0
unfolding skipped
skip_none bytes t e = ground arith

skip_zero :
    (bytes : List ℕ) (t : Tlv) (n b : ℕ)
    → t.content_len ≡ suc n
    → get_or bytes t.content_offset 0 ≡ b
    → (b == 0) ≡ true
    → skipped bytes t ≡ 1
unfolding skipped
skip_zero bytes t n b e g z = ground arith

skip_other :
    (bytes : List ℕ) (t : Tlv) (n b : ℕ)
    → t.content_len ≡ suc n
    → get_or bytes t.content_offset 0 ≡ b
    → (b == 0) ≡ false
    → skipped bytes t ≡ 0
unfolding skipped
skip_other bytes t n b e g z = ground arith

-- From the number of skipped bytes to the copy.
copy_by :
    (bytes s : List ℕ) (t : Tlv) (size skip : ℕ)
    → skipped bytes t ≡ skip
    → StandsAt bytes (t.content_offset + skip) s
    → t.content_len - skip ≡ length s
    → length s ≤ size
    → copy_integer bytes t size ≡ Parsed.ok s
unfolding copy_integer skipped
copy_by bytes s t size skip e at n fits =
    ap
      (λ (k : ℕ).
        if ltb size (t.content_len - k)
        then Parsed.rejected
        else Parsed.ok (take (t.content_len - k) (drop (t.content_offset + k) bytes)))
      e
    ∙ copied bytes s t.content_offset size t.content_len skip at n fits

pub copy_integer_lem :
    (bytes content : List ℕ) (t : Tlv) (size : ℕ)
    → StandsAt bytes t.content_offset content
    → t.content_len ≡ length content
    → length (magnitude content) ≤ size
    → copy_integer bytes t size ≡ Parsed.ok (magnitude content)
copy_integer_lem bytes [] t size at e fits =
    copy_by bytes [] t size 0 (skip_none bytes t e)
      (subst (λ (p : ℕ). StandsAt bytes p []) (omega arith) at) (omega arith) (omega arith)
copy_integer_lem bytes (b ∷ s) t size at e fits = by_first (b == 0) refl fits
  where
    first : get_or bytes t.content_offset 0 ≡ b
    first =
        at_index bytes t.content_offset 0 t.content_offset b (b ∷ s) at (omega arith) (λ r. refl)

    by_first :
        (z : Bool)
        → (b == 0) ≡ z
        → length (if z then s else b ∷ s) ≤ size
        → copy_integer bytes t size ≡ Parsed.ok (if z then s else b ∷ s)
    by_first true z f =
        copy_by bytes s t size 1 (skip_zero bytes t (length s) b e first z)
          (at_right bytes t.content_offset (b ∷ []) s at) (omega (arith, e)) f
    by_first false z f =
        copy_by bytes (b ∷ s) t size 0 (skip_other bytes t (length s) b e first z)
          (subst (λ (p : ℕ). StandsAt bytes p (b ∷ s)) (omega arith) at) (omega (arith, e)) f
