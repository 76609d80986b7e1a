-- ===== src/X509/Tests.antt =====
-- A small certificate, and a name that does not end.
use aioperatingsystem.Common.{ℕ, ◌<◌, ◌^◌, ◌≡◌, refl, [], ◌∷◌, List, some, length, arith, codes}
use aioperatingsystem.X509.{
  Parsed, Asn1Cursor, Tlv, take_content, asn1_read_tlv, find_common_name, x509_parse_certificate,
}
use aioperatingsystem.X509.Der.{der_length}
use aioperatingsystem.X509.Bounds.{IsWithin, asn1_read_tlv-IsWithin}
use aioperatingsystem.X509.Certificate.{Certificate, encode_certificate, x509_parse_certificate_lem}
use aioperatingsystem.X509.Endless.{wrapping_header, find_common_name-endless}

abbrev certificate : Certificate
certificate = record {
  version = some (0x02 ∷ 0x01 ∷ 0x02 ∷ []);
  serial = 7 ∷ [];
  signature = [];
  issuer = [];
  validity = [];
  subject =
      record { oid = 0x55 ∷ 0x04 ∷ 0x0A ∷ []; string_tag = 0x0C; value = codes "Aurora" }
      ∷ record { oid = 0x55 ∷ 0x04 ∷ 0x03 ∷ []; string_tag = 0x13; value = codes "example.org" }
      ∷ [];
  algorithm = [];
  modulus = 0 ∷ 0xC5 ∷ 0x11 ∷ [];
  exponent = 3 ∷ [];
  extensions = [];
  signature_value = [];
}

certificate_small : length (encode_certificate certificate) < 2 ^ 24
unfolding der_length
certificate_small = omega arith

x509_parse_certificate_lem_example :
    x509_parse_certificate 3 (encode_certificate certificate)
    ≡ Parsed.ok (record {
      subject_cn = codes "example.org";
      pubkey = record { modulus = 0xC5 ∷ 0x11 ∷ []; exponent = 3 ∷ [] };
    })
x509_parse_certificate_lem_example =
    x509_parse_certificate_lem 3 certificate certificate_small (omega arith) (omega arith)
      (omega arith)

-- An integer of one byte.
abbrev integer : List ℕ
integer = 0x02 ∷ 0x01 ∷ 0x07 ∷ []

abbrev integer_read : Tlv × Asn1Cursor
integer_read =
    (record { tag = 0x02; content_offset = 2; content_len = 1 }, record { len = 3; pos = 3 })

integer_lem : asn1_read_tlv integer (record { len = 3; pos = 0 }) ≡ Parsed.ok integer_read
unfolding asn1_read_tlv take_content
integer_lem = refl

asn1_read_tlv-IsWithin_example : IsWithin (record { len = 3; pos = 0 }) integer_read
asn1_read_tlv-IsWithin_example =
    asn1_read_tlv-IsWithin integer (record { len = 3; pos = 0 }) integer_read (omega arith)
      (omega arith) integer_lem

find_common_name-endless_example :
    find_common_name 1000 (wrapping_header 0x30) 0 6 128 ≡ Parsed.endless
find_common_name-endless_example =
    find_common_name-endless 1000 (wrapping_header 0x30) 0x30 0 6 128 (λ e. omega (arith, e))
      ([], refl) (omega arith) (omega arith)
