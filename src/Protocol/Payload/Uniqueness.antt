-- ===== src/Protocol/Payload/Uniqueness.antt =====
-- What accepted snapshots and notifications list, they list once.
use seven_mirror_server.Common.{
  ℕ, ◌≤◌, ◌≡◌, ◌≢◌, true, false, Option, none, some, List, [], ◌∷◌, map, arith, All, length,
}
use seven_mirror_server.Common.Bytes.{Bytes, equal_iff}
use seven_mirror_server.Common.Bytes.Order.{follows, IsChain, AreApart, IsChain-AreApart}
use seven_mirror_server.Common.Result.{ok}
use seven_mirror_server.Protocol.Payload.{
  ActionDescriptor, Upsert, Revision, Manifest, Library, max_snapshot_entries,
  max_notification_actions, validate_notification_binding,
}
use seven_mirror_server.Protocol.Payload.Notifications.{
  validate_notification_action_descriptor, has_id_among, check_actions,
  validate_notification_upsert, check_entries, validate_notification_snapshot_manifest,
}

-- A complete snapshot: each notification once, at a revision below the mark.
pub record IsSnapshot (l : Library) (m : Manifest) : Type 0 where
  pub valid :
      All
        (λ e.
          (validate_notification_binding l e.notification_id e.notification_revision ≡ ok tt)
          × (e.notification_revision ≤ m.high_water_revision))
        m.active_notifications
  pub once : AreApart (map (λ e. e.notification_id) m.active_notifications)
  pub at_most : length m.active_notifications ≤ max_snapshot_entries

check_entries-lem :
    (l : Library) (high : ℕ) (previous : Option Bytes) (es : List Revision)
    → check_entries l high previous es ≡ ok tt
    → All
        (λ e.
          (validate_notification_binding l e.notification_id e.notification_revision ≡ ok tt)
          × (e.notification_revision ≤ high))
        es
      × IsChain previous (map (λ e. e.notification_id) es)
unfolding check_entries
check_entries-lem l high previous [] h = (tt, tt)
check_entries-lem l high previous (e ∷ es) h =
    let tested : (validate_notification_binding l e.notification_id e.notification_revision ≡ ok tt)
        × (e.notification_revision ≤ high)
        × (follows previous e.notification_id ≡ true)
        × (check_entries l high (some e.notification_id) es ≡ ok tt) =
      ground arith in
    let (all, chain) = check_entries-lem l high (some e.notification_id) es tested.3 in
    (((tested.0, tested.1), all), (tested.2, chain))

-- An accepted snapshot manifest names at most 200 notifications, each once, each with a valid id
-- and a revision that is not above the manifest's high-water mark.
pub validate_notification_snapshot_manifest-IsSnapshot :
    (l : Library) (m : Manifest)
    → validate_notification_snapshot_manifest l m ≡ ok tt
    → IsSnapshot l m
unfolding validate_notification_snapshot_manifest
validate_notification_snapshot_manifest-IsSnapshot l m e =
    let tested : (check_entries l m.high_water_revision none m.active_notifications ≡ ok tt)
        × (length m.active_notifications ≤ max_snapshot_entries) =
      ground arith in
    let (all, chain) =
      check_entries-lem l m.high_water_revision none m.active_notifications tested.0 in
    record { valid = all; once = IsChain-AreApart none _ chain; at_most = tested.1 }

-- No id of the list was seen before.
abbrev AreNew : List Bytes → List ActionDescriptor → Type 0
AreNew seen = All (λ a. has_id_among seen a.action_id ≡ false)

-- An id that was not seen is neither the last one nor one before it.
AreNew-split :
    (id : Bytes) (seen : List Bytes) (as' : List ActionDescriptor)
    → AreNew (id ∷ seen) as'
    → AreNew seen as' × All (λ y. id ≢ y) (map (λ a. a.action_id) as')
unfolding has_id_among
AreNew-split id seen [] v = (tt, tt)
AreNew-split id seen (a ∷ as') (here, rest) =
    let (before, apart) = AreNew-split id seen as' rest in
    (
      (ground (arith, here), before),
      ((λ same. ground (arith, here, equal_iff id a.action_id)), apart),
    )

check_actions-lem :
    (l : Library) (seen : List Bytes) (as' : List ActionDescriptor)
    → check_actions l seen as' ≡ ok tt
    → All (λ a. validate_notification_action_descriptor l a ≡ ok tt) as'
      × AreNew seen as'
      × AreApart (map (λ a. a.action_id) as')
unfolding check_actions has_id_among
check_actions-lem l seen [] h = (tt, tt, tt)
check_actions-lem l seen (a ∷ as') h =
    let tested : (validate_notification_action_descriptor l a ≡ ok tt)
        × (has_id_among seen a.action_id ≡ false)
        × (check_actions l (a.action_id ∷ seen) as' ≡ ok tt) =
      ground arith in
    let (valid, fresh, apart) = check_actions-lem l (a.action_id ∷ seen) as' tested.2 in
    let (before, differ) = AreNew-split a.action_id seen as' fresh in
    ((tested.0, valid), (tested.1, before), (differ, apart))

-- An accepted notification offers at most 16 actions, each valid and under an id of its own.
pub validate_notification_upsert-actions :
    (l : Library) (n : Upsert)
    → validate_notification_upsert l n ≡ ok tt
    → All (λ a. validate_notification_action_descriptor l a ≡ ok tt) n.actions
      × AreApart (map (λ a. a.action_id) n.actions)
      × (length n.actions ≤ max_notification_actions)
unfolding validate_notification_upsert
validate_notification_upsert-actions l n e =
    let tested : (check_actions l [] n.actions ≡ ok tt)
        × (length n.actions ≤ max_notification_actions) =
      ground arith in
    let (valid, fresh, apart) = check_actions-lem l [] n.actions tested.0 in
    (valid, apart, tested.1)
