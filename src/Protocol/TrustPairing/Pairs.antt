-- ===== src/Protocol/TrustPairing/Pairs.antt =====
-- What ValidatePair accepts.
use seven_mirror_server.Common.{◌≤◌, ◌≡◌, ◌≢◌, ◌↔◌, true, false, arith}
use seven_mirror_server.Common.Result.{ok}
use seven_mirror_server.Common.Bytes.{Bytes, equal, equal_iff}
use seven_mirror_server.Protocol.TrustPairing.{
  Crypto, Offer, Approval, decode_offer, decode_approval, validate_pair,
}

-- An offer and an approval that belong together.
pub record IsPair (c : Crypto) (offer_bytes approval_bytes : Bytes) : Type 0 where
  pub offer : Offer
  pub approval : Approval
  pub decoded_offer : decode_offer c offer_bytes ≡ ok offer
  pub decoded_approval : decode_approval c approval_bytes ≡ ok approval
  pub bound : c.sum256 offer_bytes ≡ approval.offer_hash
  pub expiry : approval.expires_at_ms ≤ offer.expires_at_ms
  pub devices : offer.device_id ≢ approval.device_id
  pub keys : offer.public_key ≢ approval.public_key

checked :
    (c : Crypto) (a b : Bytes)
    → validate_pair c a b ≡ ok tt
    → (offer : Offer) × (approval : Approval) × (decode_offer c a ≡ ok offer)
      × (decode_approval c b ≡ ok approval)
      × (equal (c.sum256 a) approval.offer_hash ≡ true)
      × (approval.expires_at_ms ≤ offer.expires_at_ms)
      × (equal offer.device_id approval.device_id ≡ false)
      × (equal offer.public_key approval.public_key ≡ false)
unfolding validate_pair
checked c a b h = ground arith

not_equal : (a b : Bytes) → equal a b ≡ false → a ≢ b
not_equal a b h = λ e. ground (arith, h, equal_iff a b, e)

-- Validation accepts exactly the pairs of an offer and an approval that decode, where the approval
-- holds the offer's hash, does not outlive it, and names another device and another public key.
pub validate_pair_iff :
    (c : Crypto) (offer_bytes approval_bytes : Bytes)
    → (validate_pair c offer_bytes approval_bytes ≡ ok tt) ↔ IsPair c offer_bytes approval_bytes
unfolding validate_pair
validate_pair_iff c a b = (
  λ h.
      let (offer, approval, o, p, bound, expiry, devices, keys) = checked c a b h in
      record {
        offer = offer;
        approval = approval;
        decoded_offer = o;
        decoded_approval = p;
        bound = ground (arith, bound, equal_iff (c.sum256 a) approval.offer_hash);
        expiry = expiry;
        devices = not_equal offer.device_id approval.device_id devices;
        keys = not_equal offer.public_key approval.public_key keys;
      },
  λ pair. ground (
    arith,
    pair.decoded_offer,
    pair.decoded_approval,
    pair.bound,
    pair.expiry,
    pair.devices,
    pair.keys,
    equal_iff (c.sum256 a) pair.approval.offer_hash,
    equal_iff pair.offer.device_id pair.approval.device_id,
    equal_iff pair.offer.public_key pair.approval.public_key,
  ),
)
