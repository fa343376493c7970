-- ===== src/Protocol/EnvelopeFrame/RoundTrip.antt =====
-- The framing is canonical, and a frame that passes carries a valid routing header.
use seven_mirror_server.Common.{
  ℕ, ◌+◌, ◌-◌, ◌≤◌, ◌%◌, ◌^◌, ◌≡◌, ◌↔◌, sym, subst, true, arith, length, All,
}
use seven_mirror_server.Common.Result.{ok, bind-eq-ok}
use seven_mirror_server.Common.Bytes.{Bytes, IsArray, IsByte, slice, make, equal, equal_iff}
use seven_mirror_server.Common.Bytes.Layout.{
  Adjacent, Reads, write_all, Reads-write_all, write_all-Reads, length-write_all, length-slice,
  slice-IsByte,
}
use seven_mirror_server.Common.Bytes.BigEndian.{put, get, length-put, get-put, put-get, get-lt}
use seven_mirror_server.Protocol.RoutingHeader
use seven_mirror_server.Protocol.RoutingHeader.RoundTrip
use seven_mirror_server.Protocol.RoutingHeader.Validity.{IsValid, validate-IsValid}
use seven_mirror_server.Protocol.EnvelopeFrame.{
  Frame, IsTyped, validate, fields, encode, parse, decode, magic, prefix_size, min_ciphertext_size,
  max_ciphertext_size, min_frame_size, max_frame_size,
}

-- A valid frame's ciphertext length is in range.
validate-range :
    (f : Frame)
    → validate f ≡ ok tt
    → (min_ciphertext_size ≤ length f.ciphertext) × (length f.ciphertext ≤ max_ciphertext_size)
unfolding validate
validate-range f v = ground arith

pub validate-header :
    (f : Frame)
    → validate f ≡ ok tt
    → (h : RoutingHeader.Header) × (RoutingHeader.decode f.routing_header ≡ ok h)
unfolding validate
validate-header f v = ground arith

fields-Adjacent :
    (f : Frame) → IsTyped f → Adjacent 0 (fields f) (prefix_size + length f.ciphertext)
unfolding fields
fields-Adjacent f t = omega (arith, length-put)

-- A buffer that holds the fields of a valid frame decodes to that frame.
decode-Reads :
    (f : Frame) (bs : Bytes)
    → length bs ≡ prefix_size + length f.ciphertext
    → Reads bs (fields f)
    → validate f ≡ ok tt
    → decode bs ≡ ok f
unfolding decode fields parse
decode-Reads f bs size r v = ground (
  arith,
  (equal_iff (slice 0 4 bs) magic).1 r.0,
  validate-range f v,
  get-put 4 (length f.ciphertext % 2 ^ 32) (omega arith),
)

-- Decoding the encoding of a frame returns that frame.
pub decode-encode : (f : Frame) (bs : Bytes) → IsTyped f → encode f ≡ ok bs → decode bs ≡ ok f
unfolding encode
decode-encode f bs t e =
    let total : ℕ = prefix_size + length f.ciphertext in
    let (_, v, written) = bind-eq-ok (validate f) (λ _. ok (write_all (fields f) (make total))) e in
    let place : Adjacent 0 (fields f) total = fields-Adjacent f t in
    let same : write_all (fields f) (make total) ≡ bs = cc in
    subst (λ b. decode b ≡ ok f) same
      (decode-Reads f _ (length-write_all (fields f) total place)
        (Reads-write_all (fields f) total place) v)

-- What `Decode` has checked when it returns a frame.
pub record Accepted (bs : Bytes) (f : Frame) : Type 0 where
  pub lower : min_frame_size ≤ length bs
  pub upper : length bs ≤ max_frame_size
  pub marked : equal (slice 0 4 bs) magic ≡ true
  pub size : length bs ≡ prefix_size + get (slice 229 233 bs)
  pub frame : f ≡ parse bs
  pub valid : validate f ≡ ok tt

pub decode-Accepted : (bs : Bytes) (f : Frame) → decode bs ≡ ok f → Accepted bs f
unfolding decode
decode-Accepted bs f e = ground arith

module _ (bs : Bytes) (f : Frame) (b : All IsByte bs) (a : Accepted bs f) where
  part : (lo hi : ℕ) → lo ≤ hi → hi ≤ length bs → IsArray (hi - lo) (slice lo hi bs)
  part lo hi p q = record { size = length-slice lo hi bs p q; bytes = slice-IsByte lo hi bs b }

  parse-IsTyped : IsTyped (parse bs)
  unfolding parse
  parse-IsTyped = record {
    routing_header = part 4 164 (omega arith) (omega (arith, a.lower));
    encapsulated_key = part 164 229 (omega arith) (omega (arith, a.lower));
    ciphertext = slice-IsByte 233 (length bs) bs b;
  }

  length-ciphertext : length (slice 233 (length bs) bs) ≡ get (slice 229 233 bs)
  length-ciphertext = omega (
    arith,
    length-slice 233 (length bs) bs (omega (arith, a.lower)) (omega arith),
    a.size,
    a.lower,
  )

  length_field : slice 229 233 bs ≡ put 4 (get (slice 229 233 bs) % 2 ^ 32)
  length_field =
      let n : IsArray 4 (slice 229 233 bs) = part 229 233 (omega arith) (omega (arith, a.lower)) in
      let small : get (slice 229 233 bs) % 2 ^ 32 ≡ get (slice 229 233 bs) =
        omega (arith, get-lt 4 (slice 229 233 bs) n.size n.bytes) in
      rw small (sym (put-get 4 (slice 229 233 bs) n.size n.bytes))

  Reads-parse : Reads bs (fields (parse bs))
  unfolding fields parse
  Reads-parse =
      ground (
        arith,
        (equal_iff (slice 0 4 bs) magic).0 a.marked,
        length_field,
        length-ciphertext,
        a.size,
      )

-- Encoding a decoded frame gives back the bytes that were decoded.
pub encode-decode : (bs : Bytes) (f : Frame) → All IsByte bs → decode bs ≡ ok f → encode f ≡ ok bs
unfolding encode parse
encode-decode bs f b e =
    let a : Accepted bs f = decode-Accepted bs f e in
    let t : IsTyped (parse bs) = parse-IsTyped bs f b a in
    let total : length bs ≡ prefix_size + length (parse bs).ciphertext =
      omega (arith, a.size, length-ciphertext bs f b a) in
    let written : write_all (fields (parse bs)) (make (prefix_size + length (parse bs).ciphertext))
        ≡ bs =
      write_all-Reads bs (fields (parse bs)) _ total (fields-Adjacent (parse bs) t)
        (Reads-parse bs f b a) in
    subst (λ k. encode k ≡ ok bs) (sym a.frame) (ground (arith, a.frame, a.valid))

-- For a typed frame and any bytes: the frame encodes to the bytes exactly when the bytes decode to
-- the frame.
pub encode_iff_decode_frame :
    (f : Frame) (bs : Bytes) → IsTyped f → All IsByte bs → (encode f ≡ ok bs) ↔ (decode bs ≡ ok f)
encode_iff_decode_frame f bs t b = (decode-encode f bs t, encode-decode bs f b)

-- Bytes that decode to a frame number 249 to 524521, and the routing header in them decodes on its
-- own to a header that passes its validation.
pub decode_frame_header :
    (bs : Bytes) (f : Frame)
    → decode bs ≡ ok f
    → (min_frame_size ≤ length bs)
      × (length bs ≤ max_frame_size)
      × (h : RoutingHeader.Header) × (RoutingHeader.decode (slice 4 164 bs) ≡ ok h)
      × IsValid h
unfolding parse
decode_frame_header bs f e =
    let a : Accepted bs f = decode-Accepted bs f e in
    let (h, decoded) = validate-header f a.valid in
    (
      a.lower,
      a.upper,
      h,
      cc (a.frame),
      validate-IsValid h (
          RoutingHeader.RoundTrip.Accepted.valid
            (RoutingHeader.RoundTrip.decode-Accepted _ h decoded)),
    )
