-- ===== src/Protocol/TrustPairing.antt =====
-- protocol/trustpairing/pairing.go: trust offers and approvals, their QR texts and the safety code.
-- Strings are their bytes, arrays are byte lists of their length (`IsArray`), `uint64` fields are
-- numbers below 2^64. Where the source returns a value beside an error, the model returns the error.
pub mod Offers
pub mod Approvals
pub mod Pairs
pub mod Texts
pub mod Examples
use seven_mirror_server.Common.{
  ℕ, ◌+◌, ◌-◌, ◌*◌, ◌/◌, ◌%◌, ◌^◌, ◌<◌, Bool, true, false, ◌||◌, ◌&&◌, not, Option, none, some,
  List, [], ◌∷◌, ◌++◌, map, ltb, leb, ◌==◌, length, take, drop, if◌then◌else◌,
}
use seven_mirror_server.Common.Result.{Result, ok, err, ◌>>=◌, ◌>>◌, refuse_if}
use seven_mirror_server.Common.Bytes.{Bytes, IsArray, slice, make, equal, all_zero, byte_at}
use seven_mirror_server.Common.Bytes.Layout.{Field, field, write_all}
use seven_mirror_server.Common.Bytes.BigEndian.{put, get}

abbrev pub offer_size : ℕ
offer_size = 133

abbrev pub approval_size : ℕ
approval_size = 149

abbrev pub max_ttl_millis : ℕ
max_ttl_millis = 10 * 60 * 1000

-- "sntrust1:"
abbrev pub qr_prefix : Bytes
qr_prefix = 115 ∷ 110 ∷ 116 ∷ 114 ∷ 117 ∷ 115 ∷ 116 ∷ 49 ∷ 58 ∷ []

-- "SyncNotifications-Trust-SAS-v1"
abbrev pub safety_domain : Bytes
safety_domain =
    83 ∷ 121 ∷ 110 ∷ 99 ∷ 78 ∷ 111 ∷ 116 ∷ 105 ∷ 102 ∷ 105 ∷ 99 ∷ 97 ∷ 116 ∷ 105 ∷ 111 ∷ 110 ∷ 115
    ∷ 45 ∷ 84 ∷ 114 ∷ 117 ∷ 115 ∷ 116 ∷ 45 ∷ 83 ∷ 65 ∷ 83 ∷ 45 ∷ 118 ∷ 49 ∷ []

-- "0123456789ABCDEFGHJKMNPQRSTVWXYZ"
abbrev pub crockford : Bytes
crockford =
    48 ∷ 49 ∷ 50 ∷ 51 ∷ 52 ∷ 53 ∷ 54 ∷ 55 ∷ 56 ∷ 57 ∷ 65 ∷ 66 ∷ 67 ∷ 68 ∷ 69 ∷ 70 ∷ 71 ∷ 72 ∷ 74
    ∷ 75 ∷ 77 ∷ 78 ∷ 80 ∷ 81 ∷ 82 ∷ 83 ∷ 84 ∷ 86 ∷ 87 ∷ 88 ∷ 89 ∷ 90 ∷ []

-- "SNT1"
abbrev pub offer_magic : Bytes
offer_magic = 83 ∷ 78 ∷ 84 ∷ 49 ∷ []

-- "SNT2"
abbrev pub approval_magic : Bytes
approval_magic = 83 ∷ 78 ∷ 84 ∷ 50 ∷ []

-- crypto/elliptic on P-256, crypto/sha256, encoding/base64 and strings.TrimSpace.
pub record Crypto : Type 0 where
  pub unmarshal : Bytes → Option (ℕ × ℕ)
  pub is_on_curve : ℕ → ℕ → Bool
  pub marshal : ℕ → ℕ → Bytes
  pub sum256 : Bytes → Bytes
  pub encode_base64 : Bytes → Bytes
  pub decode_base64 : Bytes → Option Bytes
  pub trim_space : Bytes → Bytes

pub record Offer : Type 0 where
  pub workspace_id : Bytes
  pub device_id : Bytes
  pub public_key : Bytes
  pub nonce : Bytes
  pub created_at_ms : ℕ
  pub expires_at_ms : ℕ

pub record Approval : Type 0 where
  pub offer_hash : Bytes
  pub device_id : Bytes
  pub public_key : Bytes
  pub nonce : Bytes
  pub created_at_ms : ℕ
  pub expires_at_ms : ℕ

pub data Error : Type 0 where
  zero_field bad_public_key bad_ttl wrong_size bad_magic truncated : Error
  bad_qr offer_not_bound late_expiry same_device same_public_key : Error

unfoldable pub validate_ttl : ℕ → ℕ → Result Error (Unit {0})
validate_ttl created expires =
    refuse_if (leb expires created || ltb max_ttl_millis (expires - created)) bad_ttl

abbrev pub is_canonical_point : Crypto → Bytes → Option (ℕ × ℕ) → Bool
is_canonical_point c value none = false
is_canonical_point c value (some (x, y)) = c.is_on_curve x y && equal (c.marshal x y) value

unfoldable pub validate_public_key : Crypto → Bytes → Result Error (Unit {0})
validate_public_key c value = do
  refuse_if (not (length value == 65) || not (byte_at 0 value == 4)) bad_public_key
  refuse_if (not (is_canonical_point c value (c.unmarshal value))) bad_public_key

unfoldable pub validate_offer : Crypto → Offer → Result Error (Unit {0})
validate_offer c v = do
  refuse_if (all_zero v.workspace_id || all_zero v.device_id || all_zero v.nonce) zero_field
  validate_public_key c v.public_key
  validate_ttl v.created_at_ms v.expires_at_ms

unfoldable pub validate_approval : Crypto → Approval → Result Error (Unit {0})
validate_approval c v = do
  refuse_if (all_zero v.offer_hash || all_zero v.device_id || all_zero v.nonce) zero_field
  validate_public_key c v.public_key
  validate_ttl v.created_at_ms v.expires_at_ms

unfoldable pub offer_fields : Offer → List Field
offer_fields v =
    field 0 4 offer_magic
    ∷ field 4 20 v.workspace_id
    ∷ field 20 36 v.device_id
    ∷ field 36 101 v.public_key
    ∷ field 101 117 v.nonce
    ∷ field 117 125 (put 8 v.created_at_ms)
    ∷ field 125 133 (put 8 v.expires_at_ms)
    ∷ []

unfoldable pub encode_offer : Crypto → Offer → Result Error Bytes
encode_offer c v = do validate_offer c v; ok (write_all (offer_fields v) (make offer_size))

unfoldable pub parse_offer : Bytes → Offer
parse_offer encoded = record {
  workspace_id = slice 4 20 encoded;
  device_id = slice 20 36 encoded;
  public_key = slice 36 101 encoded;
  nonce = slice 101 117 encoded;
  created_at_ms = get (slice 117 125 encoded);
  expires_at_ms = get (slice 125 133 encoded);
}

unfoldable pub decode_offer : Crypto → Bytes → Result Error Offer
decode_offer c encoded = do
  refuse_if (not (length encoded == offer_size)) wrong_size
  refuse_if (not (equal (slice 0 4 encoded) offer_magic)) bad_magic
  validate_offer c (parse_offer encoded)
  ok (parse_offer encoded)

unfoldable pub approval_fields : Approval → List Field
approval_fields v =
    field 0 4 approval_magic
    ∷ field 4 36 v.offer_hash
    ∷ field 36 52 v.device_id
    ∷ field 52 117 v.public_key
    ∷ field 117 133 v.nonce
    ∷ field 133 141 (put 8 v.created_at_ms)
    ∷ field 141 149 (put 8 v.expires_at_ms)
    ∷ []

unfoldable pub encode_approval : Crypto → Approval → Result Error Bytes
encode_approval c v = do
  validate_approval c v
  ok (write_all (approval_fields v) (make approval_size))

unfoldable pub parse_approval : Bytes → Approval
parse_approval encoded = record {
  offer_hash = slice 4 36 encoded;
  device_id = slice 36 52 encoded;
  public_key = slice 52 117 encoded;
  nonce = slice 117 133 encoded;
  created_at_ms = get (slice 133 141 encoded);
  expires_at_ms = get (slice 141 149 encoded);
}

unfoldable pub decode_approval : Crypto → Bytes → Result Error Approval
decode_approval c encoded = do
  refuse_if (not (length encoded == approval_size)) wrong_size
  refuse_if (not (equal (slice 0 4 encoded) approval_magic)) bad_magic
  validate_approval c (parse_approval encoded)
  ok (parse_approval encoded)

-- Whether a record decodes as what its magic says; the callers drop the value.
unfoldable pub decode_record : Crypto → Bytes → Result Error (Unit {0})
decode_record c encoded = do
  refuse_if (ltb (length encoded) 4) truncated
  if equal (slice 0 4 encoded) offer_magic
      then (do decode_offer c encoded; ok tt)
      else (if equal (slice 0 4 encoded) approval_magic
          then (do decode_approval c encoded; ok tt)
          else err bad_magic)

unfoldable pub encode_qr : Crypto → Bytes → Result Error Bytes
encode_qr c encoded = do decode_record c encoded; ok (qr_prefix ++ c.encode_base64 encoded)

-- `strings.Contains(text, "=")`
unfoldable pub has_padding : Bytes → Bool
has_padding [] = false
has_padding (b ∷ bs) = b == 61 || has_padding bs

abbrev pub canonical_body : Crypto → Bytes → Option Bytes → Result Error Bytes
canonical_body c body none = err bad_qr
canonical_body c body (some encoded) =
    refuse_if (not (equal (c.encode_base64 encoded) body)) bad_qr >> ok encoded

unfoldable pub decode_qr : Crypto → Bytes → Result Error Bytes
decode_qr c text = do
  refuse_if
      (not (equal (take (length qr_prefix) text) qr_prefix) || not (equal (c.trim_space text) text))
      bad_qr
  let body = drop (length qr_prefix) text
  refuse_if (length body == 0 || has_padding body) bad_qr
  encoded ← canonical_body c body (c.decode_base64 body)
  decode_record c encoded
  ok encoded

unfoldable pub validate_pair : Crypto → Bytes → Bytes → Result Error (Unit {0})
validate_pair c offer_bytes approval_bytes = do
  offer ← decode_offer c offer_bytes
  approval ← decode_approval c approval_bytes
  refuse_if (not (equal (c.sum256 offer_bytes) approval.offer_hash)) offer_not_bound
  refuse_if (ltb offer.expires_at_ms approval.expires_at_ms) late_expiry
  refuse_if (equal offer.device_id approval.device_id) same_device
  refuse_if (equal offer.public_key approval.public_key) same_public_key

-- The two bytes of the digest that hold the five bits of a character.
abbrev pub pair_at : Bytes → ℕ → ℕ
pair_at digest i = byte_at (i * 5 / 8) digest * 256 + byte_at (i * 5 / 8 + 1) digest

abbrev pub safety_char : Bytes → ℕ → ℕ
safety_char digest i = byte_at (pair_at digest i / 2 ^ (11 - i * 5 % 8) % 32) crockford

unfoldable pub safety_code : Crypto → Bytes → Bytes → Result Error Bytes
safety_code c offer_bytes approval_bytes = do
  validate_pair c offer_bytes approval_bytes
  let digest = c.sum256 (safety_domain ++ (offer_bytes ++ approval_bytes))
  ok (
      map (safety_char digest) (0 ∷ 1 ∷ 2 ∷ 3 ∷ [])
      ++ (45 ∷ map (safety_char digest) (4 ∷ 5 ∷ 6 ∷ 7 ∷ []))
      ++ (45 ∷ map (safety_char digest) (8 ∷ 9 ∷ 10 ∷ 11 ∷ [])))
