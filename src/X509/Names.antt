-- ===== src/X509/Names.antt =====
-- kernel/x509.c: the subject of a certificate, as DER writes it, and the common name in it.
use aioperatingsystem.Common.{
  ℕ, zero, suc, ◌+◌, ◌-◌, ◌^◌, ◌<◌, min, ◌≡◌, refl, ap, ◌∙◌, List, [], ◌∷◌, ◌++◌, Bool, true, false,
  ◌==◌, ◌!=◌, ◌&&◌, ◌||◌, if◌then◌else◌, take, drop, length, length-append, str_eq, arith,
}
use aioperatingsystem.X509.{
  Parsed, ◌>>=◌, Asn1Cursor, Tlv, asn1_read_tlv, asn1_enter, expect_tag, is_cn, copy_string,
  common_name_of, name_loop,
}
use aioperatingsystem.X509.Der.{der, header_len, StandsAt, at_index}
use aioperatingsystem.X509.Windows.{
  Window, behind, length-der, read_first, expect_first, behind_first, inside_first,
}

-- A relative distinguished name of one attribute.
pub record Attribute : Type 0 where
  pub oid : List ℕ
  pub string_tag : ℕ
  pub value : List ℕ

abbrev pub encode_attribute : Attribute → List ℕ
encode_attribute a = der 0x31 (der 0x30 (der 0x06 a.oid ++ (der a.string_tag a.value ++ [])) ++ [])

abbrev pub encode_names : List Attribute → List ℕ
encode_names [] = []
encode_names (a ∷ more) = encode_attribute a ++ encode_names more

-- 2.5.4.3, and a string in one of two encodings.
abbrev pub is_common_name : Attribute → Bool
is_common_name a =
    str_eq a.oid (0x55 ∷ 0x04 ∷ 0x03 ∷ []) && ((a.string_tag == 0x0C) || (a.string_tag == 0x13))

-- The first common name, cut to the room for it.
abbrev pub first_common_name : (room : ℕ) → List Attribute → List ℕ
first_common_name room [] = []
first_common_name room (a ∷ more) =
    if is_common_name a then take room a.value else first_common_name room more

pub then_ok :
    {A B : Type 0} (m : Parsed A) (f : A → Parsed B) (a : A) (r : Parsed B)
    → m ≡ Parsed.ok a
    → f a ≡ r
    → (m >>= f) ≡ r
then_ok m f a r e g = ap (λ o. o >>= f) e ∙ g

is_cn_lem :
    (bytes oid : List ℕ) (t : Tlv)
    → StandsAt bytes t.content_offset oid
    → t.content_len ≡ length oid
    → is_cn bytes t ≡ str_eq oid (0x55 ∷ 0x04 ∷ 0x03 ∷ [])
unfolding is_cn
is_cn_lem bytes [] t at e = ground (arith, e)
is_cn_lem bytes (a ∷ []) t at e = ground (arith, e)
is_cn_lem bytes (a ∷ b ∷ []) t at e = ground (arith, e)
is_cn_lem bytes (a ∷ b ∷ d ∷ []) t at e =
    let off = t.content_offset in
    let p = at_index bytes off 0 off a (a ∷ b ∷ d ∷ []) at (omega arith) (λ r. refl) in
    let q = at_index bytes off 1 (off + 1) b (a ∷ b ∷ d ∷ []) at (omega arith) (λ r. refl) in
    let s = at_index bytes off 2 (off + 2) d (a ∷ b ∷ d ∷ []) at (omega arith) (λ r. refl) in
    ground (arith, e, p, q, s)
is_cn_lem bytes (a ∷ b ∷ d ∷ x ∷ oid) t at e = ground (arith, e)

take_short :
    (m k : ℕ) (value rest : List ℕ)
    → m ≡ min (length value) k
    → take m (value ++ rest) ≡ take k value
take_short zero zero value rest e = refl
take_short zero (suc k) [] rest e = refl
take_short zero (suc k) (x ∷ value) rest e = absurd (omega arith)
take_short (suc m) k [] rest e = absurd (omega arith)
take_short (suc m) zero (x ∷ value) rest e = absurd (omega arith)
take_short (suc m) (suc k) (x ∷ value) rest e =
    ap (λ t. x ∷ t) (take_short m k value rest (omega arith))

copy_string_lem :
    (bytes value : List ℕ) (v : Tlv) (out_max : ℕ)
    → StandsAt bytes v.content_offset value
    → v.content_len ≡ length value
    → copy_string bytes v out_max ≡ (
        if (v.tag == 0x0C) || (v.tag == 0x13)
        then Parsed.ok (take (out_max - 1) value)
        else Parsed.rejected)
unfolding copy_string
copy_string_lem bytes value v out_max (rest, at) e =
    ap (λ (t : List ℕ). if (v.tag != 0x0C) && (v.tag != 0x13) then Parsed.rejected else Parsed.ok t)
      cut
    ∙ by_tag v.tag (take (out_max - 1) value)
  where
    cut :
        take (min v.content_len (out_max - 1)) (drop v.content_offset bytes)
        ≡ take (out_max - 1) value
    cut =
        ap (take (min v.content_len (out_max - 1))) at
        ∙ take_short (min v.content_len (out_max - 1)) (out_max - 1) value rest
            (ap (λ (n : ℕ). min n (out_max - 1)) e)

    by_tag :
        (n : ℕ) (t : List ℕ)
        → ◌≡◌ {A = Parsed (List ℕ)}
            (if (n != 0x0C) && (n != 0x13) then Parsed.rejected else Parsed.ok t)
            (if (n == 0x0C) || (n == 0x13) then Parsed.ok t else Parsed.rejected)
    by_tag n t = ground arith

-- What one set gives.
abbrev name_of : Attribute → (out_max : ℕ) → Parsed (List ℕ)
name_of a out_max =
    if is_common_name a then Parsed.ok (take (out_max - 1) a.value) else Parsed.rejected

-- The parts of an attribute, from the object identifier on.
abbrev parts_of : Attribute → List ℕ
parts_of a = der 0x06 a.oid ++ (der a.string_tag a.value ++ [])

attribute_lem :
    (bytes : List ℕ) (c : Asn1Cursor) (a : Attribute) (out_max : ℕ)
    → Window bytes c (parts_of a)
    → (do
      oid ← expect_tag bytes 0x06 c
      cn ← (if is_cn bytes oid.0 then Parsed.ok oid else Parsed.rejected)
      v ← asn1_read_tlv bytes oid.1
      copy_string bytes v.0 out_max)
      ≡ name_of a out_max
attribute_lem bytes c a out_max w =
    let string = der a.string_tag a.value ++ [] in
    let oid : Tlv = record {
      tag = 0x06;
      content_offset = c.pos + header_len (length a.oid);
      content_len = length a.oid;
    } in
    let at_oid = (inside_first bytes c 0x06 a.oid string w).at in
    let next = behind c (length a.oid) in
    let w_string = behind_first bytes c 0x06 a.oid string w in
    let found : Tlv × Asn1Cursor = (oid, next) in
    let at_value = (inside_first bytes next a.string_tag a.value [] w_string).at in
    let v : Tlv = record {
      tag = a.string_tag;
      content_offset = next.pos + header_len (length a.value);
      content_len = length a.value;
    } in
    then_ok (expect_tag bytes 0x06 c) _ _ _ (expect_first bytes c 0x06 a.oid string w) (
      ap
        (λ (t : Bool). (if t then Parsed.ok found else Parsed.rejected) >>= λ cn.
          asn1_read_tlv bytes next >>= λ u. copy_string bytes u.0 out_max)
        (is_cn_lem bytes a.oid oid at_oid refl)
      ∙ by_oid (str_eq a.oid (0x55 ∷ 0x04 ∷ 0x03 ∷ [])) found _ (
          then_ok (asn1_read_tlv bytes next) _ _ _
            (read_first bytes next a.string_tag a.value [] w_string)
            (copy_string_lem bytes a.value v out_max at_value refl)))
  where
    by_oid :
        (t : Bool) (n : Tlv × Asn1Cursor) (x : Parsed (List ℕ))
        → x ≡ (
            if (a.string_tag == 0x0C) || (a.string_tag == 0x13)
            then Parsed.ok (take (out_max - 1) a.value)
            else Parsed.rejected)
        → ((if t then Parsed.ok n else Parsed.rejected) >>= λ cn. x) ≡ (
            if t && ((a.string_tag == 0x0C) || (a.string_tag == 0x13))
            then Parsed.ok (take (out_max - 1) a.value)
            else Parsed.rejected)
    by_oid true n x e = e
    by_oid false n x e = refl

common_name_of_lem :
    (bytes : List ℕ) (c : Asn1Cursor) (a : Attribute) (rest : List ℕ) (out_max : ℕ)
    → Window bytes c (encode_attribute a ++ rest)
    → let n = length (der 0x30 (parts_of a) ++ []) in
      common_name_of bytes
        (record { tag = 0x31; content_offset = c.pos + header_len n; content_len = n })
        out_max
      ≡ name_of a out_max
unfolding common_name_of
common_name_of_lem bytes c a rest out_max w =
    let set_content : List ℕ = der 0x30 (parts_of a) ++ [] in
    let w_set = inside_first bytes c 0x31 set_content rest w in
    let c_set = asn1_enter (c.pos + header_len (length set_content)) (length set_content) in
    let w_atv = inside_first bytes c_set 0x30 (parts_of a) [] w_set in
    let c_atv = asn1_enter (c_set.pos + header_len (length (parts_of a))) (length (parts_of a)) in
    then_ok (expect_tag bytes 0x30 c_set) _ _ _
      (expect_first bytes c_set 0x30 (parts_of a) [] w_set)
      (attribute_lem bytes c_atv a out_max w_atv)

at_end :
    (bytes : List ℕ) (c : Asn1Cursor)
    → c.pos ≡ c.len
    → c.len < 2 ^ 31
    → asn1_read_tlv bytes c ≡ Parsed.rejected
unfolding asn1_read_tlv
at_end bytes c e short = ground (arith, e, short)

pub name_loop_lem :
    (fuel : ℕ) (names : List Attribute) (bytes : List ℕ) (c : Asn1Cursor) (out_max : ℕ)
    → length names < fuel
    → Window bytes c (encode_names names)
    → c.pos + length (encode_names names) ≡ c.len
    → name_loop fuel bytes c out_max ≡ Parsed.ok (first_common_name (out_max - 1) names)
unfolding name_loop
name_loop_lem zero names bytes c out_max f w e = absurd (omega arith)
name_loop_lem (suc fuel) [] bytes c out_max f w e =
    ap
      (λ o. elim o [
        | Parsed.rejected ↦ Parsed.ok []
        | Parsed.endless ↦ Parsed.endless
        | Parsed.ok r ↦ elim (common_name_of bytes r.0 out_max) [
          | Parsed.ok name ↦ Parsed.ok name
          | _ ↦ name_loop fuel bytes r.1 out_max
        ]
      ])
      (at_end bytes c (omega arith) w.short)
name_loop_lem (suc fuel) (a ∷ more) bytes c out_max f w e =
    let content : List ℕ = der 0x30 (parts_of a) ++ [] in
    let next = behind c (length content) in
    ap
      (λ o. elim o [
        | Parsed.rejected ↦ Parsed.ok []
        | Parsed.endless ↦ Parsed.endless
        | Parsed.ok r ↦ elim (common_name_of bytes r.0 out_max) [
          | Parsed.ok name ↦ Parsed.ok name
          | _ ↦ name_loop fuel bytes r.1 out_max
        ]
      ])
      (read_first bytes c 0x31 content (encode_names more) w)
    ∙ ap (λ o. elim o [ Parsed.ok name ↦ Parsed.ok name | _ ↦ name_loop fuel bytes next out_max ])
        (common_name_of_lem bytes c a (encode_names more) out_max w)
    ∙ by_name (is_common_name a) next (
        name_loop_lem fuel more bytes next out_max (omega arith)
          (behind_first bytes c 0x31 content (encode_names more) w)
          (omega (
            arith,
            e,
            length-append (encode_attribute a) (encode_names more),
            length-der 0x31 content,
          )))
  where
    by_name :
        (t : Bool) (next : Asn1Cursor)
        → name_loop fuel bytes next out_max ≡ Parsed.ok (first_common_name (out_max - 1) more)
        → elim (if t then Parsed.ok (take (out_max - 1) a.value) else Parsed.rejected)
            as (λ o. Parsed (List ℕ)) [
              | Parsed.ok name ↦ Parsed.ok name
              | _ ↦ name_loop fuel bytes next out_max
            ]
          ≡ Parsed.ok
              (if t then take (out_max - 1) a.value else first_common_name (out_max - 1) more)
    by_name true next h = refl
    by_name false next h = h
