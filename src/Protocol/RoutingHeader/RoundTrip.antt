-- ===== src/Protocol/RoutingHeader/RoundTrip.antt =====
-- The encoding is the only one: decoding returns what was encoded, and encoding again gives back
-- the bytes that were decoded.
use seven_mirror_server.Common.{
  ℕ, ◌+◌, ◌-◌, ◌≤◌, ◌<◌, ◌^◌, ◌≡◌, ◌↔◌, sym, subst, true, arith, length, All,
}
use seven_mirror_server.Common.Result.{ok, bind-eq-ok}
use seven_mirror_server.Common.Bytes.{Bytes, IsArray, IsByte, slice, make, equal, equal_iff}
use seven_mirror_server.Common.Bytes.Layout.{
  Adjacent, Reads, write_all, Reads-write_all, write_all-Reads, length-write_all, length-slice,
  slice-IsByte,
}
use seven_mirror_server.Common.Bytes.BigEndian.{put, get, length-put, get-put, put-get, get-lt}
use seven_mirror_server.Protocol.RoutingHeader.{
  Header, IsTyped, validate, fields, encode, parse, decode, magic, suite_id, encoded_size,
}

fields-Adjacent : (h : Header) → IsTyped h → Adjacent 0 (fields h) encoded_size
unfolding fields
fields-Adjacent h t = omega (arith, length-put)

parse-Reads : (h : Header) (bs : Bytes) → IsTyped h → Reads bs (fields h) → parse bs ≡ h
unfolding fields parse
parse-Reads h bs t r = ground (
  arith,
  get-put 8 h.sequence t.sequence,
  get-put 8 h.created_at_unix_ms t.created_at_unix_ms,
  get-put 8 h.expires_at_unix_ms t.expires_at_unix_ms,
)

-- A buffer that holds the fields decodes as far as their validation goes.
decode-Reads :
    (h : Header) (bs : Bytes)
    → IsTyped h
    → length bs ≡ encoded_size
    → Reads bs (fields h)
    → validate h ≡ ok tt
    → decode bs ≡ ok h
unfolding decode fields
decode-Reads h bs t size r v = ground (
  arith,
  (equal_iff (slice 0 4 bs) magic).1 r.0,
  get-put 2 suite_id (omega arith),
  get-put 2 0 (omega arith),
  parse-Reads h bs t r,
)

-- Decoding the encoding of a header returns that header.
pub decode-encode : (h : Header) (bs : Bytes) → IsTyped h → encode h ≡ ok bs → decode bs ≡ ok h
unfolding encode
decode-encode h bs t e =
    let (_, v, written) =
      bind-eq-ok (validate h) (λ _. ok (write_all (fields h) (make encoded_size))) e in
    let place : Adjacent 0 (fields h) encoded_size = fields-Adjacent h t in
    let same : write_all (fields h) (make encoded_size) ≡ bs = cc in
    subst (λ b. decode b ≡ ok h) same
      (decode-Reads h _ t (length-write_all (fields h) encoded_size place)
        (Reads-write_all (fields h) encoded_size place) v)

module _ (bs : Bytes) (size : length bs ≡ encoded_size) (h : All IsByte bs) where
  part : (lo hi : ℕ) → lo ≤ hi → hi ≤ encoded_size → length (slice lo hi bs) ≡ hi - lo
  part lo hi p q = length-slice lo hi bs p (omega arith)

  array : (lo hi : ℕ) → lo ≤ hi → hi ≤ encoded_size → IsArray (hi - lo) (slice lo hi bs)
  array lo hi p q = record { size = part lo hi p q; bytes = slice-IsByte lo hi bs h }

  number : (lo : ℕ) → lo + 8 ≤ encoded_size → get (slice lo (lo + 8) bs) < 2 ^ 64
  number lo p =
      get-lt 8 (slice lo (lo + 8) bs) (omega (arith, part lo (lo + 8)))
        (slice-IsByte lo (lo + 8) bs h)

  parse-IsTyped : IsTyped (parse bs)
  unfolding parse
  parse-IsTyped = record {
    workspace_id = array 8 24 (omega arith) (omega arith);
    sender_device_id = array 24 40 (omega arith) (omega arith);
    recipient_device_id = array 40 56 (omega arith) (omega arith);
    sender_key_id = array 56 88 (omega arith) (omega arith);
    recipient_key_id = array 88 120 (omega arith) (omega arith);
    message_id = array 120 136 (omega arith) (omega arith);
    sequence = number 136 (omega arith);
    created_at_unix_ms = number 144 (omega arith);
    expires_at_unix_ms = number 152 (omega arith);
  }

  rewritten :
      (k lo : ℕ) → lo + k ≤ encoded_size → slice lo (lo + k) bs ≡ put k (get (slice lo (lo + k) bs))
  rewritten k lo p = sym (
      put-get k (slice lo (lo + k) bs) (omega (arith, part lo (lo + k)))
        (slice-IsByte lo (lo + k) bs h))

  Reads-parse :
      equal (slice 0 4 bs) magic ≡ true
      → get (slice 4 6 bs) ≡ suite_id
      → get (slice 6 8 bs) ≡ 0
      → Reads bs (fields (parse bs))
  unfolding fields parse
  Reads-parse m s f = ground (
    arith,
    (equal_iff (slice 0 4 bs) magic).0 m,
    rewritten 2 4 (omega arith),
    rewritten 2 6 (omega arith),
    rewritten 8 136 (omega arith),
    rewritten 8 144 (omega arith),
    rewritten 8 152 (omega arith),
  )

-- What `Decode` has checked when it returns a header.
pub record Accepted (bs : Bytes) (h : Header) : Type 0 where
  pub size : length bs ≡ encoded_size
  pub marked : equal (slice 0 4 bs) magic ≡ true
  pub suite : get (slice 4 6 bs) ≡ suite_id
  pub flags : get (slice 6 8 bs) ≡ 0
  pub header : h ≡ parse bs
  pub valid : validate h ≡ ok tt

pub decode-Accepted : (bs : Bytes) (h : Header) → decode bs ≡ ok h → Accepted bs h
unfolding decode
decode-Accepted bs h e = ground arith

pub encode-decode : (bs : Bytes) (h : Header) → All IsByte bs → decode bs ≡ ok h → encode h ≡ ok bs
unfolding encode
encode-decode bs h b e =
    let a : Accepted bs h = decode-Accepted bs h e in
    let t : IsTyped (parse bs) = parse-IsTyped bs a.size b in
    let written : write_all (fields (parse bs)) (make encoded_size) ≡ bs =
      write_all-Reads bs (fields (parse bs)) encoded_size a.size (fields-Adjacent (parse bs) t)
        (Reads-parse bs a.size b a.marked a.suite a.flags) in
    subst (λ k. encode k ≡ ok bs) (sym a.header) (ground (arith, a.header))

-- For a typed header and any bytes: the header encodes to the bytes exactly when the bytes decode
-- to the header. So encoding is injective, and no other bytes decode to the same header.
pub encode_iff_decode_header :
    (h : Header) (bs : Bytes) → IsTyped h → All IsByte bs → (encode h ≡ ok bs) ↔ (decode bs ≡ ok h)
encode_iff_decode_header h bs t b = (decode-encode h bs t, encode-decode bs h b)
