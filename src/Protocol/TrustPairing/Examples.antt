-- ===== src/Protocol/TrustPairing/Examples.antt =====
-- An offer and an approval of it, over a stand-in for the curve and the hash.
use seven_mirror_server.Common.{
  ◌+◌, ◌-◌, ◌≡◌, refl, ap, true, false, some, [], ◌∷◌, ◌++◌, map, take, length, ◌==◌, replicate,
  arith,
}
use seven_mirror_server.Common.Result.{ok}
use seven_mirror_server.Common.Bytes.{Bytes, slice, make, copy_at, equal, all_zero, byte_at}
use seven_mirror_server.Common.Bytes.Layout.{write_all}
use seven_mirror_server.Common.Bytes.BigEndian.{put, get}
use seven_mirror_server.Protocol.TrustPairing.{
  Crypto, Offer, Approval, encode_offer, decode_offer, encode_approval, decode_approval,
  validate_offer, validate_approval, validate_public_key, validate_ttl, offer_fields,
  approval_fields, parse_offer, parse_approval, validate_pair, qr_prefix, has_padding, encode_qr,
  decode_qr, decode_record,
}
use seven_mirror_server.Protocol.TrustPairing.Offers.{IsOffer, encode_iff_decode_offer}
use seven_mirror_server.Protocol.TrustPairing.Approvals.{IsApproval, encode_iff_decode_approval}
use seven_mirror_server.Protocol.TrustPairing.Texts.{IsBase64, encode_iff_decode_qr}
use seven_mirror_server.Protocol.TrustPairing.Pairs.{IsPair, validate_pair_iff}

abbrev crypto : Crypto
crypto = record {
  unmarshal = λ bs. some (byte_at 1 bs, 0);
  is_on_curve = λ x y. true;
  marshal = λ x y. 4 ∷ replicate 64 x;
  sum256 = λ bs. take 32 bs;
  encode_base64 = λ bs. bs;
  decode_base64 = λ bs. some bs;
  trim_space = λ bs. bs;
}

abbrev offer : Offer
offer = record {
  workspace_id = replicate 16 1;
  device_id = replicate 16 2;
  public_key = 4 ∷ replicate 64 9;
  nonce = replicate 16 3;
  created_at_ms = 1;
  expires_at_ms = 200;
}

abbrev offer_bytes : Bytes
offer_bytes =
    (83 ∷ 78 ∷ 84 ∷ 49 ∷ [])
    ++ (replicate 16 1
        ++ (replicate 16 2
            ++ (4 ∷ replicate 64 9
                ++ (replicate 16 3 ++ (replicate 7 0 ++ (1 ∷ replicate 7 0 ++ (200 ∷ [])))))))

abbrev approval : Approval
approval = record {
  offer_hash = take 32 offer_bytes;
  device_id = replicate 16 4;
  public_key = 4 ∷ replicate 64 10;
  nonce = replicate 16 5;
  created_at_ms = 2;
  expires_at_ms = 100;
}

abbrev approval_bytes : Bytes
approval_bytes =
    (83 ∷ 78 ∷ 84 ∷ 50 ∷ [])
    ++ (take 32 offer_bytes
        ++ (replicate 16 4
            ++ (4 ∷ replicate 64 10
                ++ (replicate 16 5 ++ (replicate 7 0 ++ (2 ∷ replicate 7 0 ++ (100 ∷ [])))))))

offer-IsOffer : IsOffer offer
offer-IsOffer = record {
  workspace_id = omega arith;
  device_id = omega arith;
  public_key = omega arith;
  nonce = omega arith;
  created_at_ms = omega arith;
  expires_at_ms = omega arith;
}

approval-IsApproval : IsApproval approval
approval-IsApproval = record {
  offer_hash = omega arith;
  device_id = omega arith;
  public_key = omega arith;
  nonce = omega arith;
  created_at_ms = omega arith;
  expires_at_ms = omega arith;
}

offer_encoded : encode_offer crypto offer ≡ ok offer_bytes
unfolding encode_offer validate_offer validate_public_key validate_ttl offer_fields write_all make
    copy_at put all_zero equal
offer_encoded = refl

approval_encoded : encode_approval crypto approval ≡ ok approval_bytes
unfolding encode_approval validate_approval validate_public_key validate_ttl approval_fields
    write_all make copy_at put all_zero equal
approval_encoded = refl

encode_iff_decode_offer_example : decode_offer crypto offer_bytes ≡ ok offer
encode_iff_decode_offer_example =
    (encode_iff_decode_offer crypto offer offer_bytes offer-IsOffer (omega arith)).0 offer_encoded

encode_iff_decode_approval_example : decode_approval crypto approval_bytes ≡ ok approval
encode_iff_decode_approval_example =
    (encode_iff_decode_approval crypto approval approval_bytes approval-IsApproval (omega arith)).0
      approval_encoded

pair_valid : validate_pair crypto offer_bytes approval_bytes ≡ ok tt
unfolding validate_pair decode_offer decode_approval parse_offer parse_approval validate_offer
    validate_approval validate_public_key validate_ttl slice get all_zero equal
pair_valid = refl

validate_pair_iff_example : IsPair crypto offer_bytes approval_bytes
validate_pair_iff_example = (validate_pair_iff crypto offer_bytes approval_bytes).0 pair_valid

-- A stand-in for base64url that keeps clear of the padding.
abbrev shifted : Crypto
shifted = record crypto {
  encode_base64 = map (λ b. b + 100);
  decode_base64 = λ bs. some (map (λ b. b - 100) bs);
}

shift-decodes : (bs : Bytes) → map (λ b. b - 100) (map (λ b. b + 100) bs) ≡ bs
shift-decodes [] = refl
shift-decodes (b ∷ bs) = ground (arith, shift-decodes bs)

shift-unpadded : (bs : Bytes) → has_padding (map (λ b. b + 100) bs) ≡ false
unfolding has_padding
shift-unpadded [] = refl
shift-unpadded (b ∷ bs) = ground (arith, shift-unpadded bs)

shift-not_empty : (bs : Bytes) → (length (map (λ b. b + 100) bs) == 0) ≡ (length bs == 0)
shift-not_empty [] = refl
shift-not_empty (b ∷ bs) = ground arith

shifted-IsBase64 : IsBase64 shifted
shifted-IsBase64 = record {
  decodes = λ bs. ap some (shift-decodes bs);
  unpadded = shift-unpadded;
  not_empty = shift-not_empty;
  untrimmed = λ bs. refl;
}

offer_text : encode_qr shifted offer_bytes ≡ ok (qr_prefix ++ map (λ b. b + 100) offer_bytes)
unfolding encode_qr decode_record decode_offer parse_offer validate_offer validate_public_key
    validate_ttl slice get all_zero equal
offer_text = refl

encode_iff_decode_qr_example :
    decode_qr shifted (qr_prefix ++ map (λ b. b + 100) offer_bytes) ≡ ok offer_bytes
encode_iff_decode_qr_example =
    (encode_iff_decode_qr shifted (qr_prefix ++ map (λ b. b + 100) offer_bytes) offer_bytes
        shifted-IsBase64).0
      offer_text
