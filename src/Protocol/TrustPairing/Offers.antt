-- ===== src/Protocol/TrustPairing/Offers.antt =====
-- Offers: decoding returns what was encoded, and encoding again gives the bytes that were decoded.
use seven_mirror_server.Common.{
  ℕ, ◌+◌, ◌-◌, ◌≤◌, ◌<◌, ◌^◌, ◌≡◌, ◌↔◌, sym, subst, true, arith, length, All,
}
use seven_mirror_server.Common.Result.{ok, bind-eq-ok}
use seven_mirror_server.Common.Bytes.{Bytes, IsArray, IsByte, slice, make, equal, equal_iff}
use seven_mirror_server.Common.Bytes.Layout.{
  Adjacent, Reads, write_all, Reads-write_all, write_all-Reads, length-write_all, length-slice,
  slice-IsByte,
}
use seven_mirror_server.Common.Bytes.BigEndian.{put, get, length-put, get-put, put-get, get-lt}
use seven_mirror_server.Protocol.TrustPairing.{
  Crypto, Offer, offer_size, offer_magic, validate_offer, offer_fields, encode_offer, parse_offer,
  decode_offer,
}

-- What the Go type guarantees of a value.
pub record IsOffer (v : Offer) : Type 0 where
  pub workspace_id : IsArray 16 v.workspace_id
  pub device_id : IsArray 16 v.device_id
  pub public_key : IsArray 65 v.public_key
  pub nonce : IsArray 16 v.nonce
  pub created_at_ms : v.created_at_ms < 2 ^ 64
  pub expires_at_ms : v.expires_at_ms < 2 ^ 64

fields-Adjacent : (v : Offer) → IsOffer v → Adjacent 0 (offer_fields v) offer_size
unfolding offer_fields
fields-Adjacent v t = omega (arith, length-put)

parse-Reads : (v : Offer) (bs : Bytes) → IsOffer v → Reads bs (offer_fields v) → parse_offer bs ≡ v
unfolding offer_fields parse_offer
parse-Reads v bs t r =
    ground
      (arith, get-put 8 v.created_at_ms t.created_at_ms, get-put 8 v.expires_at_ms t.expires_at_ms)

decode-Reads :
    (c : Crypto) (v : Offer) (bs : Bytes)
    → IsOffer v
    → length bs ≡ offer_size
    → Reads bs (offer_fields v)
    → validate_offer c v ≡ ok tt
    → decode_offer c bs ≡ ok v
unfolding decode_offer offer_fields
decode-Reads c v bs t size r valid =
    ground (arith, (equal_iff (slice 0 4 bs) offer_magic).1 r.0, parse-Reads v bs t r)

decode-encode :
    (c : Crypto) (v : Offer) (bs : Bytes)
    → IsOffer v
    → encode_offer c v ≡ ok bs
    → decode_offer c bs ≡ ok v
unfolding encode_offer
decode-encode c v bs t e =
    let (_, valid, written) =
      bind-eq-ok (validate_offer c v) (λ _. ok (write_all (offer_fields v) (make offer_size))) e in
    let place : Adjacent 0 (offer_fields v) offer_size = fields-Adjacent v t in
    let same : write_all (offer_fields v) (make offer_size) ≡ bs = cc in
    subst (λ b. decode_offer c b ≡ ok v) same
      (decode-Reads c v _ t (length-write_all (offer_fields v) offer_size place)
        (Reads-write_all (offer_fields v) offer_size place) valid)

module _ (bs : Bytes) (size : length bs ≡ offer_size) (h : All IsByte bs) where
  part : (lo hi : ℕ) → lo ≤ hi → hi ≤ offer_size → length (slice lo hi bs) ≡ hi - lo
  part lo hi p q = length-slice lo hi bs p (omega arith)

  array : (lo hi : ℕ) → lo ≤ hi → hi ≤ offer_size → IsArray (hi - lo) (slice lo hi bs)
  array lo hi p q = record { size = part lo hi p q; bytes = slice-IsByte lo hi bs h }

  number : (lo : ℕ) → lo + 8 ≤ offer_size → get (slice lo (lo + 8) bs) < 2 ^ 64
  number lo p =
      get-lt 8 (slice lo (lo + 8) bs) (omega (arith, part lo (lo + 8)))
        (slice-IsByte lo (lo + 8) bs h)

  parse-IsOffer : IsOffer (parse_offer bs)
  unfolding parse_offer
  parse-IsOffer = record {
    workspace_id = array 4 20 (omega arith) (omega arith);
    device_id = array 20 36 (omega arith) (omega arith);
    public_key = array 36 101 (omega arith) (omega arith);
    nonce = array 101 117 (omega arith) (omega arith);
    created_at_ms = number 117 (omega arith);
    expires_at_ms = number 125 (omega arith);
  }

  rewritten :
      (lo : ℕ) → lo + 8 ≤ offer_size → slice lo (lo + 8) bs ≡ put 8 (get (slice lo (lo + 8) bs))
  rewritten lo p = sym (
      put-get 8 (slice lo (lo + 8) bs) (omega (arith, part lo (lo + 8)))
        (slice-IsByte lo (lo + 8) bs h))

  Reads-parse : equal (slice 0 4 bs) offer_magic ≡ true → Reads bs (offer_fields (parse_offer bs))
  unfolding offer_fields parse_offer
  Reads-parse m = ground (
    arith,
    (equal_iff (slice 0 4 bs) offer_magic).0 m,
    rewritten 117 (omega arith),
    rewritten 125 (omega arith),
  )

-- What decoding has checked when it returns a value.
pub record Accepted (c : Crypto) (bs : Bytes) (v : Offer) : Type 0 where
  pub size : length bs ≡ offer_size
  pub marked : equal (slice 0 4 bs) offer_magic ≡ true
  pub value : v ≡ parse_offer bs
  pub valid : validate_offer c v ≡ ok tt

pub decode-Accepted :
    (c : Crypto) (bs : Bytes) (v : Offer) → decode_offer c bs ≡ ok v → Accepted c bs v
unfolding decode_offer
decode-Accepted c bs v e = ground arith

encode-decode :
    (c : Crypto) (bs : Bytes) (v : Offer)
    → All IsByte bs
    → decode_offer c bs ≡ ok v
    → encode_offer c v ≡ ok bs
unfolding encode_offer
encode-decode c bs v b e =
    let a : Accepted c bs v = decode-Accepted c bs v e in
    let t : IsOffer (parse_offer bs) = parse-IsOffer bs a.size b in
    let written : write_all (offer_fields (parse_offer bs)) (make offer_size) ≡ bs =
      write_all-Reads bs (offer_fields (parse_offer bs)) offer_size a.size
        (fields-Adjacent (parse_offer bs) t) (Reads-parse bs a.size b a.marked) in
    subst (λ k. encode_offer c k ≡ ok bs) (sym a.value) (ground (arith, a.value))

-- A typed offer encodes to given bytes exactly when those bytes decode to it.
pub encode_iff_decode_offer :
    (c : Crypto) (v : Offer) (bs : Bytes)
    → IsOffer v
    → All IsByte bs
    → (encode_offer c v ≡ ok bs) ↔ (decode_offer c bs ≡ ok v)
encode_iff_decode_offer c v bs t b = (decode-encode c v bs t, encode-decode c bs v b)
