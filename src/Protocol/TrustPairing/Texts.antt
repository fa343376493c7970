-- ===== src/Protocol/TrustPairing/Texts.antt =====
-- The QR texts.
use seven_mirror_server.Common.{
  ◌≡◌, ◌↔◌, refl, sym, ap, subst, ◌∙◌, true, false, some, ◌++◌, arith, ◌==◌, length, take, drop,
  take-append-drop, Option-cases,
}
use seven_mirror_server.Common.Result.{ok}
use seven_mirror_server.Common.Bytes.{Bytes, equal, equal_iff, equal_refl}
use seven_mirror_server.Protocol.TrustPairing.{
  Crypto, decode_record, encode_qr, decode_qr, has_padding, qr_prefix,
}

-- What raw base64url and TrimSpace are documented to do: what was encoded decodes to itself,
-- without padding, empty only for no bytes, and without blanks to trim.
pub record IsBase64 (c : Crypto) : Type 0 where
  pub decodes : (bs : Bytes) → c.decode_base64 (c.encode_base64 bs) ≡ some bs
  pub unpadded : (bs : Bytes) → has_padding (c.encode_base64 bs) ≡ false
  pub not_empty : (bs : Bytes) → (length (c.encode_base64 bs) == 0) ≡ (length bs == 0)
  pub untrimmed :
      (bs : Bytes)
      → c.trim_space (qr_prefix ++ c.encode_base64 bs) ≡ qr_prefix ++ c.encode_base64 bs

-- A record is not empty.
record-not_empty : (c : Crypto) (bs : Bytes) → decode_record c bs ≡ ok tt → (length bs == 0) ≡ false
unfolding decode_record
record-not_empty c bs h = ground arith

decode_qr-checked :
    (c : Crypto) (text bs : Bytes)
    → decode_qr c text ≡ ok bs
    → (equal (take 9 text) qr_prefix ≡ true)
      × (equal (c.encode_base64 bs) (drop 9 text) ≡ true)
      × (decode_record c bs ≡ ok tt)
unfolding decode_qr
decode_qr-checked c text bs h = ground (arith, Option-cases (c.decode_base64 (drop 9 text)))

-- An accepted text is the encoding of its record.
decode-encode_qr :
    (c : Crypto) (text bs : Bytes) → decode_qr c text ≡ ok bs → encode_qr c bs ≡ ok text
unfolding encode_qr
decode-encode_qr c text bs h =
    let (prefixed, canonical, decoded) = decode_qr-checked c text bs h in
    let front : take 9 text ≡ qr_prefix =
      ground (arith, prefixed, equal_iff (take 9 text) qr_prefix) in
    let body : c.encode_base64 bs ≡ drop 9 text =
      ground (arith, canonical, equal_iff (c.encode_base64 bs) (drop 9 text)) in
    let whole : qr_prefix ++ c.encode_base64 bs ≡ text =
      ap (λ b. qr_prefix ++ b) body
      ∙ ap (λ a. a ++ drop 9 text) (sym front)
      ∙ take-append-drop 9 text in
    rw (decoded, encode_qr) (ap ok whole)

prefixed_accepted :
    (c : Crypto) (body bs : Bytes)
    → c.encode_base64 bs ≡ body
    → c.decode_base64 body ≡ some bs
    → has_padding body ≡ false
    → (length body == 0) ≡ false
    → c.trim_space (qr_prefix ++ body) ≡ qr_prefix ++ body
    → decode_record c bs ≡ ok tt
    → decode_qr c (qr_prefix ++ body) ≡ ok bs
unfolding decode_qr equal
prefixed_accepted c body bs encoded decoded unpadded filled untrimmed record_ok =
    rw (untrimmed, equal_refl body, unpadded, filled, decoded, encoded, equal_refl body, record_ok)
      refl

encode-decode_qr :
    (c : Crypto) (text bs : Bytes)
    → IsBase64 c
    → encode_qr c bs ≡ ok text
    → decode_qr c text ≡ ok bs
unfolding encode_qr
encode-decode_qr c text bs b h =
    let decoded : decode_record c bs ≡ ok tt = ground arith in
    let whole : qr_prefix ++ c.encode_base64 bs ≡ text = ground arith in
    subst (λ t. decode_qr c t ≡ ok bs) whole
      (prefixed_accepted c (c.encode_base64 bs) bs refl (b.decodes bs) (b.unpadded bs)
        (b.not_empty bs ∙ record-not_empty c bs decoded) (b.untrimmed bs) decoded)

-- Given what base64url and TrimSpace are documented to do, a record encodes to given QR text
-- exactly when that text decodes to the record.
pub encode_iff_decode_qr :
    (c : Crypto) (text bs : Bytes)
    → IsBase64 c
    → (encode_qr c bs ≡ ok text) ↔ (decode_qr c text ≡ ok bs)
encode_iff_decode_qr c text bs b = (encode-decode_qr c text bs b, decode-encode_qr c text bs)
