-- ===== src/X509.antt =====
-- kernel/x509.c: the reader of a server's certificate. The bytes under a cursor are an argument of their own.
-- Positions and lengths are of `uint32_t` and wrap. What lies behind the bytes is not modelled: a read gives 0
-- there, and a copy ends.
pub mod Der
pub mod Reading
pub mod Bounds
pub mod Endless
mod Tests
pub mod Windows
pub mod Names
pub mod Certificate
use aioperatingsystem.Common.{
  ℕ, zero, suc, ◌+◌, ◌-◌, ◌*◌, ◌/◌, ◌%◌, ◌^◌, min, List, [], ◌∷◌, Bool, true, false, ◌&&◌, ◌||◌,
  ltb, leb, ◌==◌, ◌!=◌, if◌then◌else◌, get_or, take, drop, length, u32, ◌<<<◌, test_bit, Option,
  none, some,
}
use Prim.Native.Nat.{bit_or}

-- A value, a `false`, or a loop that has not ended on the fuel given.
pub data Parsed {ℓ} (A : Type ℓ) : Type ℓ where
  ok : A → Parsed A
  rejected : Parsed A
  endless : Parsed A

infixl 5 ◌>>=◌
abbrev pub ◌>>=◌ {ℓ κ} : {A : Type ℓ} {B : Type κ} → Parsed A → (A → Parsed B) → Parsed B
Parsed.ok a >>= f = f a
Parsed.rejected >>= f = Parsed.rejected
Parsed.endless >>= f = Parsed.endless

pub record Asn1Cursor : Type 0 where
  pub len : ℕ
  pub pos : ℕ

-- What `asn1_read_tlv` stores through its pointers.
pub record Tlv : Type 0 where
  pub tag : ℕ
  pub content_offset : ℕ
  pub content_len : ℕ

abbrev pub tag_integer : ℕ
tag_integer = 0x02

abbrev pub tag_bit_string : ℕ
tag_bit_string = 0x03

abbrev pub tag_oid : ℕ
tag_oid = 0x06

abbrev pub tag_utf8_string : ℕ
tag_utf8_string = 0x0C

abbrev pub tag_printable_string : ℕ
tag_printable_string = 0x13

abbrev pub tag_sequence : ℕ
tag_sequence = 0x30

abbrev pub tag_set : ℕ
tag_set = 0x31

-- `n` bytes of a length, from `pos` on.
unfoldable pub read_length : List ℕ → (n pos content_len : ℕ) → ℕ
read_length bytes zero pos content_len = content_len
read_length bytes (suc n) pos content_len =
    read_length bytes n (pos + 1) (bit_or (u32 (content_len <<< 8)) (get_or bytes pos 0))

-- The last test of `asn1_read_tlv`, and what follows it.
unfoldable pub take_content :
    Asn1Cursor → (tag header_len content_len : ℕ) → Parsed (Tlv × Asn1Cursor)
take_content c tag header_len content_len =
    let end = u32 (c.pos + header_len + content_len) in
    if ltb c.len end
    then Parsed.rejected
    else Parsed.ok (
      record { tag = tag; content_offset = u32 (c.pos + header_len); content_len = content_len },
      record { len = c.len; pos = end },
    )

unfoldable pub asn1_read_tlv : List ℕ → Asn1Cursor → Parsed (Tlv × Asn1Cursor)
asn1_read_tlv bytes c =
    let tag = get_or bytes c.pos 0 in
    let first_len_byte = get_or bytes (c.pos + 1) 0 in
    let num_len_bytes = first_len_byte % 2 ^ 7 in
    if ltb c.len (u32 (c.pos + 2))
    then Parsed.rejected
    else if test_bit first_len_byte 7
    then (if (num_len_bytes == 0) || ltb 4 num_len_bytes
        then Parsed.rejected
        else if ltb c.len (u32 (c.pos + 2 + num_len_bytes))
        then Parsed.rejected
        else take_content c tag (2 + num_len_bytes) (read_length bytes num_len_bytes (c.pos + 2) 0))
    else take_content c tag 2 first_len_byte

abbrev pub asn1_enter : (offset len : ℕ) → Asn1Cursor
asn1_enter offset len = record { len = u32 (offset + len); pos = offset }

-- A value of the tag that is wanted.
unfoldable pub expect_tag : List ℕ → (tag : ℕ) → Asn1Cursor → Parsed (Tlv × Asn1Cursor)
expect_tag bytes tag c = do
  r ← asn1_read_tlv bytes c
  if r.0.tag != tag then Parsed.rejected else Parsed.ok r

pub record X509Pubkey : Type 0 where
  pub modulus : List ℕ
  pub exponent : List ℕ

-- An integer without its leading zero byte, if it fits the field of `size` bytes.
unfoldable pub copy_integer : List ℕ → Tlv → (size : ℕ) → Parsed (List ℕ)
copy_integer bytes t size =
    let skip : ℕ =
      (if ltb 0 t.content_len && (get_or bytes t.content_offset 0 == 0) then 1 else 0) in
    let len = t.content_len - skip in
    if ltb size len
    then Parsed.rejected
    else Parsed.ok (take len (drop (t.content_offset + skip) bytes))

unfoldable pub parse_rsa_public_key : List ℕ → (len : ℕ) → Parsed X509Pubkey
parse_rsa_public_key bytes len = do
  r ← expect_tag bytes tag_sequence (record { len = len; pos = 0 })
  m ← expect_tag bytes tag_integer (asn1_enter r.0.content_offset r.0.content_len)
  modulus ← copy_integer bytes m.0 512
  e ← expect_tag bytes tag_integer m.1
  exponent ← copy_integer bytes e.0 8
  Parsed.ok (record { modulus = modulus; exponent = exponent })

unfoldable pub is_cn : List ℕ → Tlv → Bool
is_cn bytes t =
    (t.content_len == 3)
    && ((get_or bytes t.content_offset 0 == 0x55)
        && ((get_or bytes (t.content_offset + 1) 0 == 0x04)
            && (get_or bytes (t.content_offset + 2) 0 == 0x03)))

-- The string of an attribute, cut to the room for it.
unfoldable pub copy_string : List ℕ → Tlv → (out_max : ℕ) → Parsed (List ℕ)
copy_string bytes v out_max =
    if (v.tag != tag_utf8_string) && (v.tag != tag_printable_string)
    then Parsed.rejected
    else Parsed.ok (take (min v.content_len (out_max - 1)) (drop v.content_offset bytes))

-- The body of the loop of `find_common_name`: `rejected` is `continue`.
unfoldable pub common_name_of : List ℕ → Tlv → (out_max : ℕ) → Parsed (List ℕ)
common_name_of bytes t out_max = do
  set ← (if t.tag != tag_set then Parsed.rejected else Parsed.ok t)
  atv ← expect_tag bytes tag_sequence (asn1_enter t.content_offset t.content_len)
  oid ← expect_tag bytes tag_oid (asn1_enter atv.0.content_offset atv.0.content_len)
  cn ← (if is_cn bytes oid.0 then Parsed.ok oid else Parsed.rejected)
  v ← asn1_read_tlv bytes oid.1
  copy_string bytes v.0 out_max

-- The string that is copied out: empty if there is none.
unfoldable pub name_loop :
    (fuel : ℕ) → List ℕ → (rdn_seq : Asn1Cursor) → (out_max : ℕ) → Parsed (List ℕ)
name_loop zero bytes rdn_seq out_max = Parsed.endless
name_loop (suc fuel) bytes rdn_seq out_max = elim (asn1_read_tlv bytes rdn_seq) [
  | Parsed.rejected ↦ Parsed.ok []
  | Parsed.endless ↦ Parsed.endless
  | Parsed.ok r ↦ elim (common_name_of bytes r.0 out_max) [
    | Parsed.ok name ↦ Parsed.ok name
    | _ ↦ name_loop fuel bytes r.1 out_max
  ]
]

unfoldable pub find_common_name : (fuel : ℕ) → List ℕ → (offset len out_max : ℕ) → Parsed (List ℕ)
find_common_name fuel bytes offset len out_max =
    name_loop fuel bytes (record { len = u32 (offset + len); pos = offset }) out_max

pub record X509Cert : Type 0 where
  pub subject_cn : List ℕ
  pub pubkey : X509Pubkey

-- The version is optional: the cursor goes back if the value is something else.
unfoldable pub skip_version : List ℕ → Asn1Cursor → Parsed Asn1Cursor
skip_version bytes tbs = do
  r ← asn1_read_tlv bytes tbs
  if r.0.tag != 0xA0 then Parsed.ok (record { len = tbs.len; pos = tbs.pos }) else Parsed.ok r.1

-- From subjectPublicKeyInfo on.
unfoldable pub parse_key_info : List ℕ → Asn1Cursor → Parsed X509Pubkey
parse_key_info der tbs = do
  info ← expect_tag der tag_sequence tbs
  algorithm ← expect_tag der tag_sequence (asn1_enter info.0.content_offset info.0.content_len)
  key ← expect_tag der tag_bit_string algorithm.1
  if ltb key.0.content_len 1 || (get_or der key.0.content_offset 0 != 0x00)
      then Parsed.rejected
      else parse_rsa_public_key (drop (key.0.content_offset + 1) der) (key.0.content_len - 1)

unfoldable pub x509_parse_certificate : (fuel : ℕ) → (der : List ℕ) → Parsed X509Cert
x509_parse_certificate fuel der = do
  outer ← expect_tag der tag_sequence (record { len = length der; pos = 0 })
  cert ← expect_tag der tag_sequence (asn1_enter outer.0.content_offset outer.0.content_len)
  tbs ← skip_version der (asn1_enter cert.0.content_offset cert.0.content_len)
  serial ← expect_tag der tag_integer tbs
  signature ← expect_tag der tag_sequence serial.1
  issuer ← expect_tag der tag_sequence signature.1
  validity ← expect_tag der tag_sequence issuer.1
  subject ← expect_tag der tag_sequence validity.1
  name ← find_common_name fuel der subject.0.content_offset subject.0.content_len 128
  pubkey ← parse_key_info der subject.1
  Parsed.ok (record { subject_cn = name; pubkey = pubkey })
