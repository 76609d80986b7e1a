-- ===== src/X509/Certificate.antt =====
-- kernel/x509.c: a certificate as DER writes it, and what is parsed from it.
use aioperatingsystem.Common.{
  ℕ, suc, ◌+◌, ◌-◌, ◌%◌, ◌^◌, ◌<◌, ◌≤◌, ◌≡◌, refl, sym, ◌∙◌, List, [], ◌∷◌, ◌++◌, Option, none,
  some, ltb, ◌!=◌, ◌||◌, if◌then◌else◌, get_or, drop, length, arith,
}
use mathlib.Core.List.{append-nil}
use aioperatingsystem.X509.{
  Parsed, Asn1Cursor, asn1_read_tlv, asn1_enter, expect_tag, parse_rsa_public_key, find_common_name,
  skip_version, parse_key_info, x509_parse_certificate,
}
use aioperatingsystem.X509.Der.{der, header_len, at_index, at_right}
use aioperatingsystem.X509.Windows.{
  Window, behind, read_first, expect_first, behind_first, inside_first, magnitude, copy_integer_lem,
}
use aioperatingsystem.X509.Names.{
  Attribute, encode_names, first_common_name, then_ok, name_loop_lem,
}

-- The contents of the parts; those that the client does not look into are bytes.
pub record Certificate : Type 0 where
  pub version : Option (List ℕ)
  pub serial : List ℕ
  pub signature : List ℕ
  pub issuer : List ℕ
  pub validity : List ℕ
  pub subject : List Attribute
  pub algorithm : List ℕ
  pub modulus : List ℕ
  pub exponent : List ℕ
  pub extensions : List ℕ
  pub signature_value : List ℕ

abbrev pub encode_key : (modulus exponent : List ℕ) → List ℕ
encode_key modulus exponent = der 0x30 (der 0x02 modulus ++ (der 0x02 exponent ++ [])) ++ []

abbrev pub encode_info : Certificate → List ℕ
encode_info cert =
    der 0x30 cert.algorithm ++ (der 0x03 (0x00 ∷ encode_key cert.modulus cert.exponent) ++ [])

abbrev pub encode_body : Certificate → List ℕ
encode_body cert =
    der 0x02 cert.serial
    ++ (der 0x30 cert.signature
        ++ (der 0x30 cert.issuer
            ++ (der 0x30 cert.validity
                ++ (der 0x30 (encode_names cert.subject)
                    ++ (der 0x30 (encode_info cert) ++ cert.extensions)))))

abbrev pub encode_tbs : Option (List ℕ) → List ℕ → List ℕ
encode_tbs none body = body
encode_tbs (some version) body = der 0xA0 version ++ body

abbrev pub encode_certificate : Certificate → List ℕ
encode_certificate cert =
    der 0x30 (der 0x30 (encode_tbs cert.version (encode_body cert)) ++ cert.signature_value) ++ []

-- The key.
key_lem :
    (bytes modulus exponent : List ℕ) (len : ℕ)
    → Window bytes (record { len = len; pos = 0 }) (encode_key modulus exponent)
    → length (magnitude modulus) ≤ 512
    → length (magnitude exponent) ≤ 8
    → parse_rsa_public_key bytes len
      ≡ Parsed.ok (record { modulus = magnitude modulus; exponent = magnitude exponent })
unfolding parse_rsa_public_key
key_lem bytes modulus exponent len w m_fits e_fits =
    let c : Asn1Cursor = record { len = len; pos = 0 } in
    let content : List ℕ = der 0x02 modulus ++ (der 0x02 exponent ++ []) in
    let w_seq = inside_first bytes c 0x30 content [] w in
    let c_seq = asn1_enter (c.pos + header_len (length content)) (length content) in
    let w_exp = behind_first bytes c_seq 0x02 modulus (der 0x02 exponent ++ []) w_seq in
    let c_exp = behind c_seq (length modulus) in
    then_ok (expect_tag bytes 0x30 c) _ _ _ (expect_first bytes c 0x30 content [] w) (
      then_ok (expect_tag bytes 0x02 c_seq) _ _ _
        (expect_first bytes c_seq 0x02 modulus (der 0x02 exponent ++ []) w_seq)
        (then_ok _ _ (magnitude modulus) _
          (copy_integer_lem bytes modulus _ 512
            (inside_first bytes c_seq 0x02 modulus (der 0x02 exponent ++ []) w_seq).at refl m_fits)
          (then_ok (expect_tag bytes 0x02 c_exp) _ _ _
            (expect_first bytes c_exp 0x02 exponent [] w_exp)
            (then_ok _ _ (magnitude exponent) _
              (copy_integer_lem bytes exponent _ 8
                (inside_first bytes c_exp 0x02 exponent [] w_exp).at refl e_fits)
              refl))))

info_lem :
    (bytes : List ℕ) (c : Asn1Cursor) (cert : Certificate) (rest : List ℕ)
    → Window bytes c (der 0x30 (encode_info cert) ++ rest)
    → length (magnitude cert.modulus) ≤ 512
    → length (magnitude cert.exponent) ≤ 8
    → parse_key_info bytes c
      ≡ Parsed.ok (record { modulus = magnitude cert.modulus; exponent = magnitude cert.exponent })
unfolding parse_key_info
info_lem bytes c cert rest w m_fits e_fits =
    let key : List ℕ = encode_key cert.modulus cert.exponent in
    let bits : List ℕ = der 0x03 (0x00 ∷ key) ++ [] in
    let n = length (encode_info cert) in
    let c_info = asn1_enter (c.pos + header_len n) n in
    let w_info = inside_first bytes c 0x30 (encode_info cert) rest w in
    let c_bits = behind c_info (length cert.algorithm) in
    let w_bits = behind_first bytes c_info 0x30 cert.algorithm bits w_info in
    let off = c_bits.pos + header_len (suc (length key)) in
    let w_key = inside_first bytes c_bits 0x03 (0x00 ∷ key) [] w_bits in
    then_ok (expect_tag bytes 0x30 c) _ _ _ (expect_first bytes c 0x30 (encode_info cert) rest w) (
      then_ok (expect_tag bytes 0x30 c_info) _ _ _
        (expect_first bytes c_info 0x30 cert.algorithm bits w_info)
        (then_ok (expect_tag bytes 0x03 c_bits) _ _ _
          (expect_first bytes c_bits 0x03 (0x00 ∷ key) [] w_bits)
          (first_zero off (suc (length key))
              (at_index bytes off 0 off 0 (0x00 ∷ key) w_key.at (omega arith) (λ r. refl))
              (omega arith)
            ∙ key_lem (drop (off + 1) bytes) cert.modulus cert.exponent (suc (length key) - 1)
                (record {
                  at = at_right bytes off (0x00 ∷ []) key w_key.at;
                  fits = omega arith;
                  short = omega (arith, w_key.small);
                  small = omega (arith, w_key.small);
                })
                m_fits e_fits)))
  where
    first_zero :
        (off n : ℕ)
        → get_or bytes off 0 ≡ 0
        → 0 < n
        → (if ltb n 1 || (get_or bytes off 0 != 0x00)
            then Parsed.rejected
            else parse_rsa_public_key (drop (off + 1) bytes) (n - 1))
          ≡ parse_rsa_public_key (drop (off + 1) bytes) (n - 1)
    first_zero off n e h = ground (arith, e, h)

-- With a version or without, the cursor comes to the serial number.
skip_lem :
    (bytes : List ℕ) (c : Asn1Cursor) (version : Option (List ℕ)) (serial rest : List ℕ)
    → Window bytes c (encode_tbs version (der 0x02 serial ++ rest))
    → (next : Asn1Cursor) × (skip_version bytes c ≡ Parsed.ok next)
      × Window bytes next (der 0x02 serial ++ rest)
unfolding skip_version
skip_lem bytes c none serial rest w = (
  record { len = c.len; pos = c.pos },
  then_ok (asn1_read_tlv bytes c) _ _ _ (read_first bytes c 0x02 serial rest w) refl,
  record { at = w.at; fits = w.fits; short = w.short; small = w.small },
)
skip_lem bytes c (some version) serial rest w = (
  behind c (length version),
  then_ok (asn1_read_tlv bytes c) _ _ _
      (read_first bytes c 0xA0 version (der 0x02 serial ++ rest) w) refl,
  behind_first bytes c 0xA0 version (der 0x02 serial ++ rest) w,
)

name_lem :
    (fuel : ℕ) (bytes : List ℕ) (c : Asn1Cursor) (names : List Attribute) (rest : List ℕ)
    → length names < fuel
    → Window bytes c (der 0x30 (encode_names names) ++ rest)
    → let n = length (encode_names names) in
      find_common_name fuel bytes (c.pos + header_len n) n 128
      ≡ Parsed.ok (first_common_name 127 names)
unfolding find_common_name
name_lem fuel bytes c names rest f w =
    let n = length (encode_names names) in
    let inner = inside_first bytes c 0x30 (encode_names names) rest w in
    name_loop_lem fuel names bytes (asn1_enter (c.pos + header_len n) n) 128 f inner
      (exact (c.pos + header_len n + n) inner.fits)
  where
    exact : (m : ℕ) → m ≤ m % 2 ^ 32 → m ≡ m % 2 ^ 32
    exact m h = omega arith

-- A certificate that DER writes in less than 2 ^ 24 bytes, with or without a version, with a key whose
-- modulus fits 512 bytes and whose exponent fits 8, leading zero bytes apart: the parser gives the key without
-- the zero bytes, and the first common name among the attributes of the subject, cut to 127 bytes. The
-- loop over the attributes needs one round more than there are attributes.
pub x509_parse_certificate_lem :
    (fuel : ℕ) (cert : Certificate)
    → length (encode_certificate cert) < 2 ^ 24
    → length cert.subject < fuel
    → length (magnitude cert.modulus) ≤ 512
    → length (magnitude cert.exponent) ≤ 8
    → x509_parse_certificate fuel (encode_certificate cert)
      ≡ Parsed.ok (record {
        subject_cn = first_common_name 127 cert.subject;
        pubkey = record { modulus = magnitude cert.modulus; exponent = magnitude cert.exponent };
      })
unfolding x509_parse_certificate
x509_parse_certificate_lem fuel cert small f m_fits e_fits =
    let bytes = encode_certificate cert in
    let body = encode_body cert in
    let tbs = encode_tbs cert.version body in
    let outer : List ℕ = der 0x30 tbs ++ cert.signature_value in
    let c0 : Asn1Cursor = record { len = length bytes; pos = 0 } in
    let w0 : Window bytes c0 bytes = record {
      at = ([], sym (append-nil bytes));
      fits = omega arith;
      short = omega (arith, small);
      small = small;
    } in
    let c1 = asn1_enter (c0.pos + header_len (length outer)) (length outer) in
    let w1 = inside_first bytes c0 0x30 outer [] w0 in
    let c2 = asn1_enter (c1.pos + header_len (length tbs)) (length tbs) in
    let w2 = inside_first bytes c1 0x30 tbs cert.signature_value w1 in
    let after6 : List ℕ = der 0x30 (encode_info cert) ++ cert.extensions in
    let after5 : List ℕ = der 0x30 (encode_names cert.subject) ++ after6 in
    let after4 : List ℕ = der 0x30 cert.validity ++ after5 in
    let after3 : List ℕ = der 0x30 cert.issuer ++ after4 in
    let after2 : List ℕ = der 0x30 cert.signature ++ after3 in
    let skip = skip_lem bytes c2 cert.version cert.serial after2 w2 in
    let c3 = skip.0 in
    let w3 = skip.2 in
    let c4 = behind c3 (length cert.serial) in
    let w4 = behind_first bytes c3 0x02 cert.serial after2 w3 in
    let c5 = behind c4 (length cert.signature) in
    let w5 = behind_first bytes c4 0x30 cert.signature after3 w4 in
    let c6 = behind c5 (length cert.issuer) in
    let w6 = behind_first bytes c5 0x30 cert.issuer after4 w5 in
    let c7 = behind c6 (length cert.validity) in
    let w7 = behind_first bytes c6 0x30 cert.validity after5 w6 in
    let c8 = behind c7 (length (encode_names cert.subject)) in
    let w8 = behind_first bytes c7 0x30 (encode_names cert.subject) after6 w7 in
    then_ok (expect_tag bytes 0x30 c0) _ _ _ (expect_first bytes c0 0x30 outer [] w0) (
      then_ok (expect_tag bytes 0x30 c1) _ _ _
        (expect_first bytes c1 0x30 tbs cert.signature_value w1)
        (then_ok (skip_version bytes c2) _ c3 _ skip.1 (
          then_ok (expect_tag bytes 0x02 c3) _ _ _
            (expect_first bytes c3 0x02 cert.serial after2 w3)
            (then_ok (expect_tag bytes 0x30 c4) _ _ _
              (expect_first bytes c4 0x30 cert.signature after3 w4)
              (then_ok (expect_tag bytes 0x30 c5) _ _ _
                (expect_first bytes c5 0x30 cert.issuer after4 w5)
                (then_ok (expect_tag bytes 0x30 c6) _ _ _
                  (expect_first bytes c6 0x30 cert.validity after5 w6)
                  (then_ok (expect_tag bytes 0x30 c7) _ _ _
                    (expect_first bytes c7 0x30 (encode_names cert.subject) after6 w7)
                    (then_ok _ _ _ _ (name_lem fuel bytes c7 cert.subject after6 f w7) (
                      then_ok _ _ _ _ (info_lem bytes c8 cert cert.extensions w8 m_fits e_fits)
                        refl)))))))))
