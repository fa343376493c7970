-- ===== src/Protocol/Membership/Signing.antt =====
-- What an authority signs passes validation.
use seven_mirror_server.Common.{ℕ, ◌≡◌, ◌≢◌, sym, ap, ◌∙◌, true, false, some, [], length, arith}
use seven_mirror_server.Common.Bytes.{Bytes, equal, equal_iff, equal_refl}
use seven_mirror_server.Common.Result.{ok}
use seven_mirror_server.Protocol.Membership.{
  Roster, SignedRoster, AuthorityTransition, SignedAuthorityTransition, Primitives, encode,
  domain_hash, domain_bytes, authority_private_key_size, authority_public_key_size, signature_size,
}
use seven_mirror_server.Protocol.Membership.Domains.{
  roster_digest_domain, roster_signature_domain, authority_transition_digest_domain,
  authority_transition_old_signature_domain, authority_transition_new_signature_domain,
}
use seven_mirror_server.Protocol.Membership.Rosters.{
  validate_workspace_roster, validate_signed_workspace_roster, sign_workspace_roster,
}
use seven_mirror_server.Protocol.Membership.Authority.{
  validate_authority_key_transition, validate_signed_authority_key_transition,
  sign_authority_key_transition,
}

-- The size of a seed of crypto/ed25519.
abbrev pub seed_size : ℕ
seed_size = 32

-- crypto/ed25519: sizes, and a signature verifies under the public half of the key that
-- `NewKeyFromSeed` makes of a seed.
pub record IsEd25519 (p : Primitives) (new_key_from_seed : Bytes → Bytes) : Type 0 where
  pub signature :
      (key message : Bytes)
      → length key ≡ authority_private_key_size
      → length (p.sign key message) ≡ signature_size
  pub public :
      (key : Bytes)
      → length key ≡ authority_private_key_size
      → length (p.public_key key) ≡ authority_public_key_size
  pub verified :
      (seed message : Bytes)
      → length seed ≡ seed_size
      → p.verify
          (p.public_key (new_key_from_seed seed))
          message
          (p.sign (new_key_from_seed seed) message)
        ≡ true

abbrev signed_roster : Primitives → Roster → Bytes → Bytes → SignedRoster
signed_roster p roster key encoded = record {
  unknown = [];
  roster = some roster;
  roster_digest = domain_hash p roster_digest_domain encoded;
  authority_signature = p.sign key (domain_bytes roster_signature_domain encoded);
}

signed_roster-eq :
    (p : Primitives) (roster : Roster) (key : Bytes) (signed : SignedRoster)
    → sign_workspace_roster p roster key ≡ ok signed
    → (encoded : Bytes) × (encode p.roster roster ≡ ok encoded)
      × (validate_workspace_roster p roster (p.public_key key) ≡ ok tt)
      × (length key ≡ authority_private_key_size)
      × (signed_roster p roster key encoded ≡ signed)
unfolding sign_workspace_roster
signed_roster-eq p roster key signed e = ground arith

signed_roster-valid :
    (p : Primitives) (new_key : Bytes → Bytes) (roster : Roster) (seed encoded : Bytes)
    → IsEd25519 p new_key
    → length seed ≡ seed_size
    → encode p.roster roster ≡ ok encoded
    → validate_workspace_roster p roster (p.public_key (new_key seed)) ≡ ok tt
    → length (new_key seed) ≡ authority_private_key_size
    → validate_signed_workspace_roster p
        (signed_roster p roster (new_key seed) encoded)
        (p.public_key (new_key seed))
      ≡ ok tt
unfolding validate_signed_workspace_roster
signed_roster-valid p new_key roster seed encoded law seeded e v size = ground (
  arith,
  e,
  v,
  law.public (new_key seed) size,
  law.signature (new_key seed) (domain_bytes roster_signature_domain encoded) size,
  law.verified seed (domain_bytes roster_signature_domain encoded) seeded,
  equal_refl (domain_hash p roster_digest_domain encoded),
)

-- With Ed25519 signatures and a key made from a seed, a roster that is signed is carried unchanged,
-- and the signed roster passes validation under the public half of the key.
pub sign_workspace_roster-valid :
    (p : Primitives) (new_key : Bytes → Bytes) (roster : Roster) (seed : Bytes)
    (signed : SignedRoster)
    → IsEd25519 p new_key
    → length seed ≡ seed_size
    → sign_workspace_roster p roster (new_key seed) ≡ ok signed
    → (validate_signed_workspace_roster p signed (p.public_key (new_key seed)) ≡ ok tt)
      × (signed.roster ≡ some roster)
sign_workspace_roster-valid p new_key roster seed signed law seeded e =
    let key = new_key seed in
    let (encoded, marshalled, valid, size, same) = signed_roster-eq p roster key signed e in
    (
      ap (λ r. validate_signed_workspace_roster p r (p.public_key key)) (sym same)
          ∙ signed_roster-valid p new_key roster seed encoded law seeded marshalled valid size,
      ap (λ r. r.roster) (sym same),
    )

abbrev signed_transition :
    Primitives → AuthorityTransition → Bytes → Bytes → Bytes → SignedAuthorityTransition
signed_transition p t old new encoded = record {
  unknown = [];
  transition = some t;
  transition_digest = domain_hash p authority_transition_digest_domain encoded;
  previous_authority_signature =
      p.sign old (domain_bytes authority_transition_old_signature_domain encoded);
  new_authority_signature =
      p.sign new (domain_bytes authority_transition_new_signature_domain encoded);
}

signed_transition-eq :
    (p : Primitives) (t : AuthorityTransition) (old new : Bytes)
    (signed : SignedAuthorityTransition)
    → sign_authority_key_transition p t old new ≡ ok signed
    → (encoded : Bytes) × (encode p.transition t ≡ ok encoded)
      × (validate_authority_key_transition t (p.public_key old) (p.public_key new) ≡ ok tt)
      × (length old ≡ authority_private_key_size)
      × (length new ≡ authority_private_key_size)
      × (signed_transition p t old new encoded ≡ signed)
unfolding sign_authority_key_transition
signed_transition-eq p t old new signed e = ground arith

-- An accepted transition names the keys that it was checked with.
transition-keys :
    (t : AuthorityTransition) (old new : Bytes)
    → validate_authority_key_transition t old new ≡ ok tt
    → (old ≡ t.previous_authority_public_key) × (new ≡ t.new_authority_public_key) × (old ≢ new)
unfolding validate_authority_key_transition
transition-keys t old new v =
    let tested : (equal old t.previous_authority_public_key ≡ true)
        × (equal new t.new_authority_public_key ≡ true)
        × (equal old new ≡ false) =
      ground arith in
    (
      (equal_iff old t.previous_authority_public_key).0 tested.0,
      (equal_iff new t.new_authority_public_key).0 tested.1,
      λ same. ground (arith, tested.2, equal_iff old new),
    )

signed_transition-valid :
    (p : Primitives) (new_key : Bytes → Bytes) (t : AuthorityTransition)
    (old_seed new_seed encoded : Bytes)
    → IsEd25519 p new_key
    → length old_seed ≡ seed_size
    → length new_seed ≡ seed_size
    → encode p.transition t ≡ ok encoded
    → validate_authority_key_transition t t.previous_authority_public_key t.new_authority_public_key
      ≡ ok tt
    → p.public_key (new_key old_seed) ≡ t.previous_authority_public_key
    → p.public_key (new_key new_seed) ≡ t.new_authority_public_key
    → length (new_key old_seed) ≡ authority_private_key_size
    → length (new_key new_seed) ≡ authority_private_key_size
    → validate_signed_authority_key_transition p
        (signed_transition p t (new_key old_seed) (new_key new_seed) encoded)
      ≡ ok tt
unfolding validate_signed_authority_key_transition
signed_transition-valid p new_key t old_seed new_seed encoded law seeded seeded' e v from to size
      size' =
    let old = new_key old_seed in
    let new = new_key new_seed in
    let old_bytes = domain_bytes authority_transition_old_signature_domain encoded in
    let new_bytes = domain_bytes authority_transition_new_signature_domain encoded in
    ground (
      arith,
      e,
      v,
      law.signature old old_bytes size,
      law.signature new new_bytes size',
      ap (λ k. p.verify k old_bytes (p.sign old old_bytes)) (sym from)
          ∙ law.verified old_seed old_bytes seeded,
      ap (λ k. p.verify k new_bytes (p.sign new new_bytes)) (sym to)
          ∙ law.verified new_seed new_bytes seeded',
      equal_refl (domain_hash p authority_transition_digest_domain encoded),
    )

-- With Ed25519 signatures and keys made from seeds, a handover that both keys sign is carried
-- unchanged and passes validation, and it leads from the first key's public half to the second's,
-- which differs.
pub sign_authority_key_transition-valid :
    (p : Primitives) (new_key : Bytes → Bytes) (t : AuthorityTransition) (old_seed new_seed : Bytes)
    (signed : SignedAuthorityTransition)
    → IsEd25519 p new_key
    → length old_seed ≡ seed_size
    → length new_seed ≡ seed_size
    → sign_authority_key_transition p t (new_key old_seed) (new_key new_seed) ≡ ok signed
    → (validate_signed_authority_key_transition p signed ≡ ok tt)
      × (signed.transition ≡ some t)
      × (t.previous_authority_public_key ≡ p.public_key (new_key old_seed))
      × (t.new_authority_public_key ≡ p.public_key (new_key new_seed))
      × (p.public_key (new_key old_seed) ≢ p.public_key (new_key new_seed))
sign_authority_key_transition-valid p new_key t old_seed new_seed signed law seeded seeded' e =
    let old = new_key old_seed in
    let new = new_key new_seed in
    let (encoded, marshalled, valid, size, size', same) =
      signed_transition-eq p t old new signed e in
    let (from, to, differ) = transition-keys t (p.public_key old) (p.public_key new) valid in
    let named : validate_authority_key_transition t t.previous_authority_public_key
          t.new_authority_public_key
        ≡ ok tt =
      ap (λ k. validate_authority_key_transition t k t.new_authority_public_key) (sym from)
      ∙ ap (λ k. validate_authority_key_transition t (p.public_key old) k) (sym to)
      ∙ valid in
    (
      ap (validate_signed_authority_key_transition p) (sym same)
          ∙ signed_transition-valid p new_key t old_seed new_seed encoded law seeded seeded'
              marshalled named from to size size',
      ap (λ r. r.transition) (sym same),
      sym from,
      sym to,
      differ,
    )
