-- ===== src/Protocol/Membership/Active.antt =====
-- What a valid roster says of its certificates, transitions and revocations.
use seven_mirror_server.Common.{
  ◌≤◌, ◌≡◌, ◌≢◌, ◌⊎◌, inl, inr, ap, ◌∙◌, true, false, Option, none, some, List, [], ◌∷◌, map, arith,
  All, All-map, length, Bool-cases,
}
use seven_mirror_server.Common.Bytes.{Bytes, equal, equal_iff}
use seven_mirror_server.Common.Result.{ok, bind-eq-ok}
use seven_mirror_server.Protocol.Membership.{
  Certificate, SignedCertificate, CertificateTransition, Revocation, Roster, Primitives,
  max_active_certificates,
}
use seven_mirror_server.Protocol.Membership.Certificates.{
  present, validate_signed_device_certificate,
}
use seven_mirror_server.Protocol.Membership.Rosters.{
  Active, is_active_id, active_of, previous_of, check_certificate, check_certificates,
  is_replacement, check_transitions, check_revocations, validate_workspace_roster,
}
use seven_mirror_server.Common.Bytes.Order.{follows, IsChain, AreApart, IsChain-AreApart}

abbrev pub device_of : SignedCertificate → Bytes
device_of c = elim c.certificate [ none ↦ [] | some body ↦ body.device_id ]

-- A certificate that the authority signed for a device of the workspace, not after the roster.
pub record IsCertified (p : Primitives) (v : Roster) (key : Bytes) (c : SignedCertificate)
    : Type 0 where
  pub valid : validate_signed_device_certificate p c key ≡ ok tt
  pub body : Certificate
  pub stated : c.certificate ≡ some body
  pub workspace : body.workspace_id ≡ v.workspace_id
  pub epoch : body.membership_epoch ≤ v.roster_epoch

-- Some certificate of the list is the device's, with the id.
abbrev pub HasCertificate : Bytes → Bytes → List SignedCertificate → Type 0
HasCertificate device_id id [] = ⊥
HasCertificate device_id id (c ∷ cs) =
    ((device_of c ≡ device_id) × (c.certificate_id ≡ id)) ⊎ HasCertificate device_id id cs

-- What the authority's devices may rely on in a roster.
pub record IsRoster (p : Primitives) (v : Roster) (key : Bytes) : Type 0 where
  pub certified : All (IsCertified p v key) v.active_certificates
  pub one_each : AreApart (map device_of v.active_certificates)
  pub at_most : length v.active_certificates ≤ max_active_certificates
  pub replaced :
      All
        (λ t. HasCertificate t.device_id t.new_certificate_id v.active_certificates)
        v.certificate_transitions
  pub replaced_once : AreApart (map (λ t. t.device_id) v.certificate_transitions)
  pub revoked :
      All (λ r. All (λ c. c.certificate_id ≢ r.certificate_id) v.active_certificates) v.revocations
  pub revoked_once : AreApart (map (λ r. r.certificate_id) v.revocations)

abbrev note : SignedCertificate → Active
note c = record { device_id = device_of c; certificate_id = c.certificate_id }

abbrev note_all : List Active → List SignedCertificate → List Active
note_all active [] = active
note_all active (c ∷ cs) = note_all (note c ∷ active) cs

pub present-some : {A : Type 0} (o : Option A) (a : A) → present o ≡ ok a → o ≡ some a
present-some none a e = cc
present-some (some b) a e = cc

check_certificate-lem :
    (p : Primitives) (v : Roster) (key : Bytes) (active next : List Active) (c : SignedCertificate)
    → check_certificate p v key active c ≡ ok next
    → IsCertified p v key c
      × (follows (previous_of active) (device_of c) ≡ true)
      × (note c ∷ active ≡ next)
unfolding check_certificate
check_certificate-lem p v key active next c e =
    let (u, valid, rest) = bind-eq-ok (validate_signed_device_certificate p c key) _ e in
    let (body, there, last) = bind-eq-ok (present c.certificate) _ rest in
    let found : c.certificate ≡ some body = present-some c.certificate body there in
    let tested : (body.workspace_id ≡ v.workspace_id)
        × (body.membership_epoch ≤ v.roster_epoch)
        × (follows (previous_of active) body.device_id ≡ true)
        × (◌∷◌ (record { device_id = body.device_id; certificate_id = c.certificate_id }) active
            ≡ next) =
      ground (arith, equal_iff body.workspace_id v.workspace_id) in
    let device : device_of c ≡ body.device_id = ground (arith, found) in
    (
      record { valid = valid; body = body; stated = found; workspace = tested.0; epoch = tested.1 },
      ap (follows (previous_of active)) device ∙ tested.2,
      ap (λ d. ◌∷◌ (record { device_id = d; certificate_id = c.certificate_id }) active) device
          ∙ tested.3,
    )

-- The first loop: every certificate is valid, each follows the one before, all are noted.
check_certificates-lem :
    (p : Primitives) (v : Roster) (key : Bytes) (active next : List Active)
    (cs : List SignedCertificate)
    → check_certificates p v key active cs ≡ ok next
    → All (IsCertified p v key) cs
      × IsChain (previous_of active) (map device_of cs)
      × (note_all active cs ≡ next)
unfolding check_certificates
check_certificates-lem p v key active next [] e = (tt, tt, ground arith)
check_certificates-lem p v key active next (c ∷ cs) e =
    let (noted, one, rest) = bind-eq-ok (check_certificate p v key active c) _ e in
    let (certified, ordered, same) = check_certificate-lem p v key active noted c one in
    let (all, chain, last) =
      check_certificates-lem p v key (note c ∷ active) next cs
        (ap (λ a. check_certificates p v key a cs) same ∙ rest) in
    ((certified, all), (ordered, chain), last)

is_active_id-note_all :
    (active : List Active) (cs : List SignedCertificate) (id : Bytes)
    → is_active_id (note_all active cs) id ≡ false
    → (is_active_id active id ≡ false) × All (λ c. c.certificate_id ≢ id) cs
unfolding is_active_id
is_active_id-note_all active [] id e = (e, tt)
is_active_id-note_all active (c ∷ cs) id e =
    let (here, rest) = is_active_id-note_all (note c ∷ active) cs id e in
    (ground (arith, here), ((λ same. ground (arith, here, equal_iff c.certificate_id id)), rest))

active_of-note_all :
    (active : List Active) (cs : List SignedCertificate) (device_id id : Bytes)
    → active_of (note_all active cs) device_id ≡ some id
    → (active_of active device_id ≡ some id) ⊎ HasCertificate device_id id cs
unfolding active_of
active_of-note_all active [] device_id id e = inl e
active_of-note_all active (c ∷ cs) device_id id e =
    elim (active_of-note_all (note c ∷ active) cs device_id id e) [
      | inr later ↦ inr (inr later)
      | inl here ↦ elim (Bool-cases (equal (device_of c) device_id)) [
        | inl same ↦ inr (
            inl
              (ground (arith, same, equal_iff (device_of c) device_id), ground (arith, here, same)))
        | inr other ↦ inl (ground (arith, here, other))
      ]
    ]

replacement-some : (o : Option Bytes) (id : Bytes) → is_replacement o id ≡ true → o ≡ some id
replacement-some none id e = cc
replacement-some (some a) id e = ap some (ground (arith, equal_iff a id))

check_transitions-lem :
    (v : Roster) (active : List Active) (previous : Option Bytes) (ts : List CertificateTransition)
    → check_transitions v active previous ts ≡ ok tt
    → All (λ t. active_of active t.device_id ≡ some t.new_certificate_id) ts
      × IsChain previous (map (λ t. t.device_id) ts)
unfolding check_transitions
check_transitions-lem v active previous [] e = (tt, tt)
check_transitions-lem v active previous (t ∷ ts) e =
    let tested : (is_replacement (active_of active t.device_id) t.new_certificate_id ≡ true)
        × (follows previous t.device_id ≡ true)
        × (check_transitions v active (some t.device_id) ts ≡ ok tt) =
      ground arith in
    let (all, chain) = check_transitions-lem v active (some t.device_id) ts tested.2 in
    (
      (replacement-some (active_of active t.device_id) t.new_certificate_id tested.0, all),
      (tested.1, chain),
    )

check_revocations-lem :
    (active : List Active) (previous : Option Bytes) (rs : List Revocation)
    → check_revocations active previous rs ≡ ok tt
    → All (λ r. is_active_id active r.certificate_id ≡ false) rs
      × IsChain previous (map (λ r. r.certificate_id) rs)
unfolding check_revocations
check_revocations-lem active previous [] e = (tt, tt)
check_revocations-lem active previous (r ∷ rs) e =
    let tested : (is_active_id active r.certificate_id ≡ false)
        × (follows previous r.certificate_id ≡ true)
        × (check_revocations active (some r.certificate_id) rs ≡ ok tt) =
      ground arith in
    let (all, chain) = check_revocations-lem active (some r.certificate_id) rs tested.2 in
    ((tested.0, all), (tested.1, chain))

has_certificate :
    (device_id id : Bytes) (cs : List SignedCertificate)
    → active_of (note_all [] cs) device_id ≡ some id
    → HasCertificate device_id id cs
unfolding active_of
has_certificate device_id id cs e = elim (active_of-note_all [] cs device_id id e) [
  | inl nothing ↦ absurd (cc nothing)
  | inr found ↦ found
]

-- The loops that an accepted roster has passed.
passed :
    (p : Primitives) (v : Roster) (key : Bytes)
    → validate_workspace_roster p v key ≡ ok tt
    → (active : List Active) × (check_certificates p v key [] v.active_certificates ≡ ok active)
      × (check_transitions v active none v.certificate_transitions ≡ ok tt)
      × (check_revocations active none v.revocations ≡ ok tt)
      × (length v.active_certificates ≤ max_active_certificates)
unfolding validate_workspace_roster
passed p v key e = ground arith

-- In a roster that passes validation every certificate is valid under the authority's key, belongs
-- to the workspace and is not newer than the roster; a device has at most one certificate, and
-- there are at most 256; every transition leads to the active certificate of its device, once for
-- a device; and no revoked certificate is active, nor listed twice.
pub validate_workspace_roster-IsRoster :
    (p : Primitives) (v : Roster) (key : Bytes)
    → validate_workspace_roster p v key ≡ ok tt
    → IsRoster p v key
validate_workspace_roster-IsRoster p v key e =
    let (active, first, second, third, few) = passed p v key e in
    let (certified, ordered, noted) =
      check_certificates-lem p v key [] active v.active_certificates first in
    let (replaced, replacements) =
      check_transitions-lem v active none v.certificate_transitions second in
    let (revoked, revocations) = check_revocations-lem active none v.revocations third in
    record {
      certified = certified;
      one_each = IsChain-AreApart none _ ordered;
      at_most = few;
      replaced =
          All-map _ _
            (λ t found.
              has_certificate t.device_id t.new_certificate_id v.active_certificates
                (ap (λ a. active_of a t.device_id) noted ∙ found))
            v.certificate_transitions replaced;
      replaced_once = IsChain-AreApart none _ replacements;
      revoked =
          All-map _ _
            (λ r free.
              (is_active_id-note_all [] v.active_certificates r.certificate_id
                (ap (λ a. is_active_id a r.certificate_id) noted ∙ free)).1)
            v.revocations revoked;
      revoked_once = IsChain-AreApart none _ revocations;
    }
