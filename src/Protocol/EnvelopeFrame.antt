-- ===== src/Protocol/EnvelopeFrame.antt =====
-- protocol/envelopeframe/frame.go: Encrypted Envelope v1 transport framing.
pub mod RoundTrip
use seven_mirror_server.Common.{
  ℕ, ◌+◌, ◌*◌, ◌%◌, ◌^◌, ◌≡◌, Bool, ◌||◌, not, List, [], ◌∷◌, All, ltb, ◌==◌, length,
}
use seven_mirror_server.Common.Result.{Result, ok, err, ◌>>=◌, ◌>>◌, refuse_if, wrap_error}
use seven_mirror_server.Common.Bytes.{Bytes, IsArray, IsByte, slice, make, equal, byte_at}
use seven_mirror_server.Common.Bytes.Layout.{Field, field, write_all}
use seven_mirror_server.Common.Bytes.BigEndian.{put, get}
use seven_mirror_server.Protocol.RoutingHeader

abbrev pub prefix_size : ℕ
prefix_size = 233

abbrev pub min_ciphertext_size : ℕ
min_ciphertext_size = 16

abbrev pub max_ciphertext_size : ℕ
max_ciphertext_size = 512 * 1024

abbrev pub min_frame_size : ℕ
min_frame_size = prefix_size + min_ciphertext_size

abbrev pub max_frame_size : ℕ
max_frame_size = prefix_size + max_ciphertext_size

-- "SNE1"
abbrev pub magic : Bytes
magic = 83 ∷ 78 ∷ 69 ∷ 49 ∷ []

pub record Frame : Type 0 where
  pub routing_header : Bytes
  pub encapsulated_key : Bytes
  pub ciphertext : Bytes

-- What the Go type guarantees of a value.
pub record IsTyped (f : Frame) : Type 0 where
  pub routing_header : IsArray 160 f.routing_header
  pub encapsulated_key : IsArray 65 f.encapsulated_key
  pub ciphertext : All IsByte f.ciphertext

pub data Error : Type 0 where
  bad_header : RoutingHeader.Error → Error
  bad_frame_size bad_magic bad_key bad_ciphertext_size length_mismatch : Error

unfoldable pub validate : Frame → Result Error (Unit {0})
validate f = do
  wrap_error bad_header (RoutingHeader.decode f.routing_header)
  refuse_if (not (byte_at 0 f.encapsulated_key == 4)) bad_key
  refuse_if
      (ltb (length f.ciphertext) min_ciphertext_size
        || ltb max_ciphertext_size (length f.ciphertext))
      bad_ciphertext_size

-- The writes of `Encode`, in the source's order; `uint32(…)` keeps the low 32 bits.
unfoldable pub fields : Frame → List Field
fields f =
    field 0 4 magic
    ∷ field 4 164 f.routing_header
    ∷ field 164 229 f.encapsulated_key
    ∷ field 229 233 (put 4 (length f.ciphertext % 2 ^ 32))
    ∷ field 233 (prefix_size + length f.ciphertext) f.ciphertext
    ∷ []

unfoldable pub encode : Frame → Result Error Bytes
encode f = do validate f; ok (write_all (fields f) (make (prefix_size + length f.ciphertext)))

-- The reads of `Decode`.
unfoldable pub parse : Bytes → Frame
parse encoded = record {
  routing_header = slice 4 164 encoded;
  encapsulated_key = slice 164 229 encoded;
  ciphertext = slice 233 (length encoded) encoded;
}

unfoldable pub decode : Bytes → Result Error Frame
decode encoded = do
  refuse_if (ltb (length encoded) min_frame_size || ltb max_frame_size (length encoded))
      bad_frame_size
  refuse_if (not (equal (slice 0 4 encoded) magic)) bad_magic
  let ciphertext_size = get (slice 229 233 encoded)
  refuse_if (ltb ciphertext_size min_ciphertext_size || ltb max_ciphertext_size ciphertext_size)
      bad_ciphertext_size
  refuse_if (not (length encoded == prefix_size + ciphertext_size)) length_mismatch
  validate (parse encoded)
  ok (parse encoded)
