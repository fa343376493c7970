-- ===== src/Admission/Advances.antt =====
-- How the row of a device can change.
use seven_mirror_server.Common.{
  ℕ, ◌≤◌, ◌<◌, ◌≡◌, refl, ◌∙◌, ◌⊎◌, inl, inr, Bool, true, false, Option, none, some, List, arith,
  Bool-cases,
}
use seven_mirror_server.Common.Bytes.{Bytes}
use seven_mirror_server.Common.Table.{find, update, find-update}
use seven_mirror_server.Admission.{
  Platform, Device, MembershipState, pending_proof, pending_approval, approved, revoked,
  legacy_active, is_null, is_pending_proof, is_device,
}
use seven_mirror_server.Admission.Pairing.{PendingIdentityProof, is_provable, prove}
use seven_mirror_server.Admission.Rotation.{rotate}
use seven_mirror_server.Admission.Access.{sign_in, touch}
use seven_mirror_server.Admission.Membership.{
  is_pending_approval, is_approvable, approve, revoke, set_name,
}

-- How far a membership has come. A device from before the approvals has come as far as an approved
-- one.
abbrev pub stage : MembershipState → ℕ
stage pending_proof = 0
stage pending_approval = 1
stage approved = 2
stage legacy_active = 2
stage revoked = 3

abbrev pub is_legacy : MembershipState → Bool
is_legacy legacy_active = true
is_legacy pending_proof = false
is_legacy pending_approval = false
is_legacy approved = false
is_legacy revoked = false

-- A later row of the same device: its credential version has not gone down and names one token, a
-- time of revocation stands as it was, and its membership is as it was or has come further.
pub record Advances (d later : Device) : Type 0 where
  pub version : d.credential_version ≤ later.credential_version
  pub token :
      d.credential_version ≡ later.credential_version → d.auth_token_hash ≡ later.auth_token_hash
  pub revocation : (later.revoked_at_ms ≡ d.revoked_at_ms) ⊎ (d.revoked_at_ms ≡ none)
  pub membership :
      (later.membership_state ≡ d.membership_state)
      ⊎ ((stage d.membership_state < stage later.membership_state)
          × (is_legacy later.membership_state ≡ false))

pub Advances-refl : (d : Device) → Advances d d
Advances-refl d = record {
  version = omega arith;
  token = λ e. refl;
  revocation = inl refl;
  membership = inl refl;
}

pub Advances-trans : (a b c : Device) → Advances a b → Advances b c → Advances a c
Advances-trans a b c f g = record {
  version = omega (arith, f.version, g.version);
  token = λ e.
      f.token (omega (arith, f.version, g.version, e))
      ∙ g.token (omega (arith, f.version, g.version, e));
  revocation = ground (arith, f.revocation, g.revocation);
  membership = ground (arith, f.membership, g.membership);
}

is_pending_proof-eq : (m : MembershipState) → is_pending_proof m ≡ true → m ≡ pending_proof
is_pending_proof-eq pending_proof h = refl
is_pending_proof-eq approved h = cc
is_pending_proof-eq legacy_active h = cc
is_pending_proof-eq pending_approval h = cc
is_pending_proof-eq revoked h = cc

pub prove-Advances :
    (p : Platform) (input : PendingIdentityProof) (now : ℕ) (d : Device)
    → is_provable p input d ≡ true
    → Advances d (prove now d)
prove-Advances p input now d h = record {
  version = omega arith;
  token = λ e. refl;
  revocation = inl refl;
  membership =
      inr (ground (arith, is_pending_proof-eq d.membership_state (ground (arith, h))), refl);
}

pub rotate-Advances : (hash : Bytes) (d : Device) → Advances d (rotate hash d)
rotate-Advances hash d = record {
  version = omega arith;
  token = λ e. ground (arith, e);
  revocation = inl refl;
  membership = inl refl;
}

pub sign_in-Advances : (now : ℕ) (d : Device) → Advances d (sign_in now d)
sign_in-Advances now d = record {
  version = omega arith;
  token = λ e. refl;
  revocation = inl refl;
  membership = inl refl;
}

pub touch-Advances : (now : ℕ) (d : Device) → Advances d (touch now d)
touch-Advances now d = record {
  version = omega arith;
  token = λ e. refl;
  revocation = inl refl;
  membership = inl refl;
}

approvable-stage : (m : MembershipState) → is_pending_approval m ≡ true → stage m ≡ 1
approvable-stage pending_approval h = refl
approvable-stage approved h = cc
approvable-stage pending_proof h = cc
approvable-stage legacy_active h = cc
approvable-stage revoked h = cc

revocable-stage : (m : MembershipState) → (revoked ≡ m) ⊎ (stage m < 3)
revocable-stage revoked = inl refl
revocable-stage pending_proof = inr (omega arith)
revocable-stage pending_approval = inr (omega arith)
revocable-stage approved = inr (omega arith)
revocable-stage legacy_active = inr (omega arith)

is_null-eq : {A : Type 0} (column : Option A) → is_null column ≡ true → column ≡ none
is_null-eq none h = refl
is_null-eq (some a) h = cc

pub approve-Advances :
    (w i : Bytes) (d : Device) → is_approvable w i d ≡ true → Advances d (approve d)
approve-Advances w i d h = record {
  version = omega arith;
  token = λ e. refl;
  revocation = inl refl;
  membership = inr (ground (arith, approvable-stage d.membership_state (ground (arith, h))), refl);
}

pub revoke-Advances :
    (now : ℕ) (d : Device) → is_null d.revoked_at_ms ≡ true → Advances d (revoke now d)
revoke-Advances now d h = record {
  version = omega arith;
  token = λ e. refl;
  revocation = inr (is_null-eq d.revoked_at_ms h);
  membership = ground (arith, revocable-stage d.membership_state);
}

pub set_name-Advances : (name : Bytes) (d : Device) → Advances d (set_name name d)
set_name-Advances name d = record {
  version = omega arith;
  token = λ e. refl;
  revocation = inl refl;
  membership = inl refl;
}

-- The device of a key is stored, in a row that the given row can have become.
abbrev pub HasAdvanced : Bytes → Bytes → Device → List Device → Type 0
HasAdvanced workspace_id device_id d ds =
    (later : Device) × (find (is_device workspace_id device_id) ds ≡ some later) × Advances d later

pub update-Advances :
    (workspace_id device_id : Bytes) (reach : Device → Bool) (change : Device → Device)
    (ds : List Device) (d : Device)
    → ((x : Device)
        → is_device workspace_id device_id (change x) ≡ is_device workspace_id device_id x)
    → (reach d ≡ true → Advances d (change d))
    → find (is_device workspace_id device_id) ds ≡ some d
    → (later : Device) × (find (is_device workspace_id device_id) (update reach change ds)
        ≡ some later)
      × Advances d later
update-Advances workspace_id device_id reach change ds d keep advance stored =
    let moved = find-update (is_device workspace_id device_id) reach change ds d keep stored in
    elim (Bool-cases (reach d)) [
      | inl reached ↦ (change d, rw (reached) at moved, advance reached)
      | inr missed ↦ (d, rw (missed) at moved, Advances-refl d)
    ]
