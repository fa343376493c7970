-- ===== src/Protocol/Membership/Naming.antt =====
-- A change of display name changes nothing else.
use seven_mirror_server.Common.{
  ◌≡◌, ◌≢◌, ◌↔◌, sym, ap, true, false, some, arith, Bool-cases, inl, inr,
}
use seven_mirror_server.Common.Bytes.{Bytes, equal, equal_iff}
use seven_mirror_server.Common.Result.{ok, bind-eq-ok}
use seven_mirror_server.Protocol.Membership.{Certificate, SignedCertificate, CertificateTransition}
use seven_mirror_server.Protocol.Membership.Active.{present-some}
use seven_mirror_server.Protocol.Membership.Certificates.{
  present, reason_display_name, same_protected, is_bound_transition,
  validate_display_name_certificate_transition,
}

-- The new certificate is the old one under another name, issued by the transition.
pub record IsRenaming (previous current : SignedCertificate) (t : CertificateTransition)
    (old new : Certificate) : Type 0 where
  pub before : previous.certificate ≡ some old
  pub after : current.certificate ≡ some new
  pub renamed : old.display_name ≢ new.display_name
  pub rest : new ≡ record old {
    display_name = new.display_name;
    issued_at_unix_ms = t.issued_at_unix_ms;
    membership_epoch = t.activation_roster_epoch;
  }
  pub workspace : t.workspace_id ≡ old.workspace_id
  pub device : t.device_id ≡ old.device_id
  pub previous_id : t.previous_certificate_id ≡ previous.certificate_id
  pub new_id : t.new_certificate_id ≡ current.certificate_id
  pub reason : t.reason ≡ reason_display_name

-- The tests, field by field.
record AreBound (previous current : SignedCertificate) (t : CertificateTransition)
    (old new : Certificate) : Type 0 where
  transition_workspace : t.workspace_id ≡ old.workspace_id
  transition_device : t.device_id ≡ old.device_id
  workspace : old.workspace_id ≡ new.workspace_id
  device : old.device_id ≡ new.device_id
  previous_id : t.previous_certificate_id ≡ previous.certificate_id
  new_id : t.new_certificate_id ≡ current.certificate_id
  reason : t.reason ≡ reason_display_name
  renamed : equal old.display_name new.display_name ≡ false
  epoch : new.membership_epoch ≡ t.activation_roster_epoch
  issued : new.issued_at_unix_ms ≡ t.issued_at_unix_ms

bound_iff :
    (previous current : SignedCertificate) (t : CertificateTransition) (old new : Certificate)
    → (is_bound_transition previous current t old new ≡ true) ↔ AreBound previous current t old new
unfolding is_bound_transition
bound_iff previous current t old new = ground (
  arith,
  equal_iff t.workspace_id old.workspace_id,
  equal_iff t.device_id old.device_id,
  equal_iff old.workspace_id new.workspace_id,
  equal_iff old.device_id new.device_id,
  equal_iff t.previous_certificate_id previous.certificate_id,
  equal_iff t.new_certificate_id current.certificate_id,
)

record AreProtected (a b : Certificate) : Type 0 where
  unknown : a.unknown ≡ b.unknown
  version : a.version ≡ b.version
  workspace : a.workspace_id ≡ b.workspace_id
  device : a.device_id ≡ b.device_id
  kind : a.device_type ≡ b.device_type
  roles : a.roles ≡ b.roles
  key : a.identity_public_key ≡ b.identity_public_key
  key_id : a.identity_key_id ≡ b.identity_key_id
  expires : a.expires_at_unix_ms ≡ b.expires_at_unix_ms

protected_iff : (a b : Certificate) → (same_protected a b ≡ true) ↔ AreProtected a b
unfolding same_protected
protected_iff a b = ground (
  arith,
  equal_iff a.unknown b.unknown,
  equal_iff a.workspace_id b.workspace_id,
  equal_iff a.device_id b.device_id,
  equal_iff a.roles b.roles,
  equal_iff a.identity_public_key b.identity_public_key,
  equal_iff a.identity_key_id b.identity_key_id,
)

unequal : (a b : Bytes) → a ≢ b → equal a b ≡ false
unequal a b differ = elim (Bool-cases (equal a b)) [
  | inr other ↦ other
  | inl same ↦ absurd (differ ((equal_iff a b).0 same))
]

renaming :
    (previous current : SignedCertificate) (t : CertificateTransition) (old new : Certificate)
    → previous.certificate ≡ some old
    → current.certificate ≡ some new
    → AreBound previous current t old new
    → AreProtected old new
    → IsRenaming previous current t old new
renaming previous current t old new before after b p = record {
  before = before;
  after = after;
  renamed = λ same. ground (arith, b.renamed, equal_iff old.display_name new.display_name);
  rest = λ i. record {
    unknown = sym p.unknown i;
    version = sym p.version i;
    workspace_id = sym p.workspace i;
    device_id = sym p.device i;
    device_type = sym p.kind i;
    display_name = new.display_name;
    roles = sym p.roles i;
    identity_public_key = sym p.key i;
    identity_key_id = sym p.key_id i;
    issued_at_unix_ms = b.issued i;
    expires_at_unix_ms = sym p.expires i;
    membership_epoch = b.epoch i;
  };
  workspace = b.transition_workspace;
  device = b.transition_device;
  previous_id = b.previous_id;
  new_id = b.new_id;
  reason = b.reason;
}

-- A display name's transition passes validation exactly when it links two certificates that are
-- there by their ids, and the new one is the old one under another name, with the transition's time
-- and epoch and nothing else changed.
pub validate_display_name_certificate_transition_iff :
    (previous current : SignedCertificate) (t : CertificateTransition)
    → (validate_display_name_certificate_transition previous current t ≡ ok tt)
      ↔ ((old : Certificate) × (new : Certificate) × IsRenaming previous current t old new)
unfolding validate_display_name_certificate_transition
validate_display_name_certificate_transition_iff previous current t = (
  λ e.
      let (old, first, rest) = bind-eq-ok (present previous.certificate) _ e in
      let (new, second, tests) = bind-eq-ok (present current.certificate) _ rest in
      let before : previous.certificate ≡ some old = present-some previous.certificate old first in
      let after : current.certificate ≡ some new = present-some current.certificate new second in
      let bound : is_bound_transition previous current t old new ≡ true = ground arith in
      let kept : same_protected old new ≡ true = ground arith in
      (
        old,
        new,
        renaming previous current t old new before after
            ((bound_iff previous current t old new).0 bound) ((protected_iff old new).0 kept),
      ),
  λ (old, new, r).
      let bound : is_bound_transition previous current t old new ≡ true =
        (bound_iff previous current t old new).1 (record {
          transition_workspace = r.workspace;
          transition_device = r.device;
          workspace = sym (ap (λ c. c.workspace_id) r.rest);
          device = sym (ap (λ c. c.device_id) r.rest);
          previous_id = r.previous_id;
          new_id = r.new_id;
          reason = r.reason;
          renamed = unequal old.display_name new.display_name r.renamed;
          epoch = ap (λ c. c.membership_epoch) r.rest;
          issued = ap (λ c. c.issued_at_unix_ms) r.rest;
        }) in
      let kept : same_protected old new ≡ true = (protected_iff old new).1 (record {
        unknown = sym (ap (λ c. c.unknown) r.rest);
        version = sym (ap (λ c. c.version) r.rest);
        workspace = sym (ap (λ c. c.workspace_id) r.rest);
        device = sym (ap (λ c. c.device_id) r.rest);
        kind = sym (ap (λ c. c.device_type) r.rest);
        roles = sym (ap (λ c. c.roles) r.rest);
        key = sym (ap (λ c. c.identity_public_key) r.rest);
        key_id = sym (ap (λ c. c.identity_key_id) r.rest);
        expires = sym (ap (λ c. c.expires_at_unix_ms) r.rest);
      }) in
      ground (arith, r.before, r.after, bound, kept),
)
