-- ===== src/Protocol/TrustPairing/Approvals.antt =====
-- Approvals: decoding returns what was encoded, and encoding again gives the bytes that were decoded.
use seven_mirror_server.Common.{
  ℕ, ◌+◌, ◌-◌, ◌≤◌, ◌<◌, ◌^◌, ◌≡◌, ◌↔◌, sym, subst, true, arith, length, All,
}
use seven_mirror_server.Common.Result.{ok, bind-eq-ok}
use seven_mirror_server.Common.Bytes.{Bytes, IsArray, IsByte, slice, make, equal, equal_iff}
use seven_mirror_server.Common.Bytes.Layout.{
  Adjacent, Reads, write_all, Reads-write_all, write_all-Reads, length-write_all, length-slice,
  slice-IsByte,
}
use seven_mirror_server.Common.Bytes.BigEndian.{put, get, length-put, get-put, put-get, get-lt}
use seven_mirror_server.Protocol.TrustPairing.{
  Crypto, Approval, approval_size, approval_magic, validate_approval, approval_fields,
  encode_approval, parse_approval, decode_approval,
}

-- What the Go type guarantees of a value.
pub record IsApproval (v : Approval) : Type 0 where
  pub offer_hash : IsArray 32 v.offer_hash
  pub device_id : IsArray 16 v.device_id
  pub public_key : IsArray 65 v.public_key
  pub nonce : IsArray 16 v.nonce
  pub created_at_ms : v.created_at_ms < 2 ^ 64
  pub expires_at_ms : v.expires_at_ms < 2 ^ 64

fields-Adjacent : (v : Approval) → IsApproval v → Adjacent 0 (approval_fields v) approval_size
unfolding approval_fields
fields-Adjacent v t = omega (arith, length-put)

parse-Reads :
    (v : Approval) (bs : Bytes)
    → IsApproval v
    → Reads bs (approval_fields v)
    → parse_approval bs ≡ v
unfolding approval_fields parse_approval
parse-Reads v bs t r =
    ground
      (arith, get-put 8 v.created_at_ms t.created_at_ms, get-put 8 v.expires_at_ms t.expires_at_ms)

decode-Reads :
    (c : Crypto) (v : Approval) (bs : Bytes)
    → IsApproval v
    → length bs ≡ approval_size
    → Reads bs (approval_fields v)
    → validate_approval c v ≡ ok tt
    → decode_approval c bs ≡ ok v
unfolding decode_approval approval_fields
decode-Reads c v bs t size r valid =
    ground (arith, (equal_iff (slice 0 4 bs) approval_magic).1 r.0, parse-Reads v bs t r)

decode-encode :
    (c : Crypto) (v : Approval) (bs : Bytes)
    → IsApproval v
    → encode_approval c v ≡ ok bs
    → decode_approval c bs ≡ ok v
unfolding encode_approval
decode-encode c v bs t e =
    let (_, valid, written) =
      bind-eq-ok (validate_approval c v)
        (λ _. ok (write_all (approval_fields v) (make approval_size))) e in
    let place : Adjacent 0 (approval_fields v) approval_size = fields-Adjacent v t in
    let same : write_all (approval_fields v) (make approval_size) ≡ bs = cc in
    subst (λ b. decode_approval c b ≡ ok v) same
      (decode-Reads c v _ t (length-write_all (approval_fields v) approval_size place)
        (Reads-write_all (approval_fields v) approval_size place) valid)

module _ (bs : Bytes) (size : length bs ≡ approval_size) (h : All IsByte bs) where
  part : (lo hi : ℕ) → lo ≤ hi → hi ≤ approval_size → length (slice lo hi bs) ≡ hi - lo
  part lo hi p q = length-slice lo hi bs p (omega arith)

  array : (lo hi : ℕ) → lo ≤ hi → hi ≤ approval_size → IsArray (hi - lo) (slice lo hi bs)
  array lo hi p q = record { size = part lo hi p q; bytes = slice-IsByte lo hi bs h }

  number : (lo : ℕ) → lo + 8 ≤ approval_size → get (slice lo (lo + 8) bs) < 2 ^ 64
  number lo p =
      get-lt 8 (slice lo (lo + 8) bs) (omega (arith, part lo (lo + 8)))
        (slice-IsByte lo (lo + 8) bs h)

  parse-IsApproval : IsApproval (parse_approval bs)
  unfolding parse_approval
  parse-IsApproval = record {
    offer_hash = array 4 36 (omega arith) (omega arith);
    device_id = array 36 52 (omega arith) (omega arith);
    public_key = array 52 117 (omega arith) (omega arith);
    nonce = array 117 133 (omega arith) (omega arith);
    created_at_ms = number 133 (omega arith);
    expires_at_ms = number 141 (omega arith);
  }

  rewritten :
      (lo : ℕ) → lo + 8 ≤ approval_size → slice lo (lo + 8) bs ≡ put 8 (get (slice lo (lo + 8) bs))
  rewritten lo p = sym (
      put-get 8 (slice lo (lo + 8) bs) (omega (arith, part lo (lo + 8)))
        (slice-IsByte lo (lo + 8) bs h))

  Reads-parse :
      equal (slice 0 4 bs) approval_magic ≡ true → Reads bs (approval_fields (parse_approval bs))
  unfolding approval_fields parse_approval
  Reads-parse m = ground (
    arith,
    (equal_iff (slice 0 4 bs) approval_magic).0 m,
    rewritten 133 (omega arith),
    rewritten 141 (omega arith),
  )

-- What decoding has checked when it returns a value.
pub record Accepted (c : Crypto) (bs : Bytes) (v : Approval) : Type 0 where
  pub size : length bs ≡ approval_size
  pub marked : equal (slice 0 4 bs) approval_magic ≡ true
  pub value : v ≡ parse_approval bs
  pub valid : validate_approval c v ≡ ok tt

pub decode-Accepted :
    (c : Crypto) (bs : Bytes) (v : Approval) → decode_approval c bs ≡ ok v → Accepted c bs v
unfolding decode_approval
decode-Accepted c bs v e = ground arith

encode-decode :
    (c : Crypto) (bs : Bytes) (v : Approval)
    → All IsByte bs
    → decode_approval c bs ≡ ok v
    → encode_approval c v ≡ ok bs
unfolding encode_approval
encode-decode c bs v b e =
    let a : Accepted c bs v = decode-Accepted c bs v e in
    let t : IsApproval (parse_approval bs) = parse-IsApproval bs a.size b in
    let written : write_all (approval_fields (parse_approval bs)) (make approval_size) ≡ bs =
      write_all-Reads bs (approval_fields (parse_approval bs)) approval_size a.size
        (fields-Adjacent (parse_approval bs) t) (Reads-parse bs a.size b a.marked) in
    subst (λ k. encode_approval c k ≡ ok bs) (sym a.value) (ground (arith, a.value))

-- A typed approval encodes to given bytes exactly when those bytes decode to it.
pub encode_iff_decode_approval :
    (c : Crypto) (v : Approval) (bs : Bytes)
    → IsApproval v
    → All IsByte bs
    → (encode_approval c v ≡ ok bs) ↔ (decode_approval c bs ≡ ok v)
encode_iff_decode_approval c v bs t b = (decode-encode c v bs t, encode-decode c bs v b)
