-- ===== src/Protocol/Membership/Domains.antt =====
-- protocol/membershipcodec/membership.go: the domains of its hashes and signatures, as ASCII bytes.
use seven_mirror_server.Common.{[], ◌∷◌}
use seven_mirror_server.Common.Bytes.{Bytes}

-- "SyncNotifications-membership-possession-hpke-info-v1\x00"
abbrev pub possession_hpke_info_domain : Bytes
possession_hpke_info_domain =
    83 ∷ 121 ∷ 110 ∷ 99 ∷ 78 ∷ 111 ∷ 116 ∷ 105 ∷ 102 ∷ 105 ∷ 99 ∷ 97 ∷ 116 ∷ 105 ∷ 111 ∷ 110 ∷ 115
    ∷ 45 ∷ 109 ∷ 101 ∷ 109 ∷ 98 ∷ 101 ∷ 114 ∷ 115 ∷ 104 ∷ 105 ∷ 112 ∷ 45 ∷ 112 ∷ 111 ∷ 115 ∷ 115
    ∷ 101 ∷ 115 ∷ 115 ∷ 105 ∷ 111 ∷ 110 ∷ 45 ∷ 104 ∷ 112 ∷ 107 ∷ 101 ∷ 45 ∷ 105 ∷ 110 ∷ 102 ∷ 111
    ∷ 45 ∷ 118 ∷ 49 ∷ 0 ∷ []

-- "SyncNotifications-membership-possession-challenge-digest-v1\x00"
abbrev pub challenge_digest_domain : Bytes
challenge_digest_domain =
    83 ∷ 121 ∷ 110 ∷ 99 ∷ 78 ∷ 111 ∷ 116 ∷ 105 ∷ 102 ∷ 105 ∷ 99 ∷ 97 ∷ 116 ∷ 105 ∷ 111 ∷ 110 ∷ 115
    ∷ 45 ∷ 109 ∷ 101 ∷ 109 ∷ 98 ∷ 101 ∷ 114 ∷ 115 ∷ 104 ∷ 105 ∷ 112 ∷ 45 ∷ 112 ∷ 111 ∷ 115 ∷ 115
    ∷ 101 ∷ 115 ∷ 115 ∷ 105 ∷ 111 ∷ 110 ∷ 45 ∷ 99 ∷ 104 ∷ 97 ∷ 108 ∷ 108 ∷ 101 ∷ 110 ∷ 103 ∷ 101
    ∷ 45 ∷ 100 ∷ 105 ∷ 103 ∷ 101 ∷ 115 ∷ 116 ∷ 45 ∷ 118 ∷ 49 ∷ 0 ∷ []

-- "SyncNotifications-membership-device-certificate-id-v1\x00"
abbrev pub certificate_id_domain : Bytes
certificate_id_domain =
    83 ∷ 121 ∷ 110 ∷ 99 ∷ 78 ∷ 111 ∷ 116 ∷ 105 ∷ 102 ∷ 105 ∷ 99 ∷ 97 ∷ 116 ∷ 105 ∷ 111 ∷ 110 ∷ 115
    ∷ 45 ∷ 109 ∷ 101 ∷ 109 ∷ 98 ∷ 101 ∷ 114 ∷ 115 ∷ 104 ∷ 105 ∷ 112 ∷ 45 ∷ 100 ∷ 101 ∷ 118 ∷ 105
    ∷ 99 ∷ 101 ∷ 45 ∷ 99 ∷ 101 ∷ 114 ∷ 116 ∷ 105 ∷ 102 ∷ 105 ∷ 99 ∷ 97 ∷ 116 ∷ 101 ∷ 45 ∷ 105 ∷ 100
    ∷ 45 ∷ 118 ∷ 49 ∷ 0 ∷ []

-- "SyncNotifications-membership-device-certificate-signature-v1\x00"
abbrev pub certificate_signature_domain : Bytes
certificate_signature_domain =
    83 ∷ 121 ∷ 110 ∷ 99 ∷ 78 ∷ 111 ∷ 116 ∷ 105 ∷ 102 ∷ 105 ∷ 99 ∷ 97 ∷ 116 ∷ 105 ∷ 111 ∷ 110 ∷ 115
    ∷ 45 ∷ 109 ∷ 101 ∷ 109 ∷ 98 ∷ 101 ∷ 114 ∷ 115 ∷ 104 ∷ 105 ∷ 112 ∷ 45 ∷ 100 ∷ 101 ∷ 118 ∷ 105
    ∷ 99 ∷ 101 ∷ 45 ∷ 99 ∷ 101 ∷ 114 ∷ 116 ∷ 105 ∷ 102 ∷ 105 ∷ 99 ∷ 97 ∷ 116 ∷ 101 ∷ 45 ∷ 115 ∷ 105
    ∷ 103 ∷ 110 ∷ 97 ∷ 116 ∷ 117 ∷ 114 ∷ 101 ∷ 45 ∷ 118 ∷ 49 ∷ 0 ∷ []

-- "SyncNotifications-membership-workspace-roster-digest-v1\x00"
abbrev pub roster_digest_domain : Bytes
roster_digest_domain =
    83 ∷ 121 ∷ 110 ∷ 99 ∷ 78 ∷ 111 ∷ 116 ∷ 105 ∷ 102 ∷ 105 ∷ 99 ∷ 97 ∷ 116 ∷ 105 ∷ 111 ∷ 110 ∷ 115
    ∷ 45 ∷ 109 ∷ 101 ∷ 109 ∷ 98 ∷ 101 ∷ 114 ∷ 115 ∷ 104 ∷ 105 ∷ 112 ∷ 45 ∷ 119 ∷ 111 ∷ 114 ∷ 107
    ∷ 115 ∷ 112 ∷ 97 ∷ 99 ∷ 101 ∷ 45 ∷ 114 ∷ 111 ∷ 115 ∷ 116 ∷ 101 ∷ 114 ∷ 45 ∷ 100 ∷ 105 ∷ 103
    ∷ 101 ∷ 115 ∷ 116 ∷ 45 ∷ 118 ∷ 49 ∷ 0 ∷ []

-- "SyncNotifications-membership-workspace-roster-signature-v1\x00"
abbrev pub roster_signature_domain : Bytes
roster_signature_domain =
    83 ∷ 121 ∷ 110 ∷ 99 ∷ 78 ∷ 111 ∷ 116 ∷ 105 ∷ 102 ∷ 105 ∷ 99 ∷ 97 ∷ 116 ∷ 105 ∷ 111 ∷ 110 ∷ 115
    ∷ 45 ∷ 109 ∷ 101 ∷ 109 ∷ 98 ∷ 101 ∷ 114 ∷ 115 ∷ 104 ∷ 105 ∷ 112 ∷ 45 ∷ 119 ∷ 111 ∷ 114 ∷ 107
    ∷ 115 ∷ 112 ∷ 97 ∷ 99 ∷ 101 ∷ 45 ∷ 114 ∷ 111 ∷ 115 ∷ 116 ∷ 101 ∷ 114 ∷ 45 ∷ 115 ∷ 105 ∷ 103
    ∷ 110 ∷ 97 ∷ 116 ∷ 117 ∷ 114 ∷ 101 ∷ 45 ∷ 118 ∷ 49 ∷ 0 ∷ []

-- "SyncNotifications-membership-authority-transition-digest-v1\x00"
abbrev pub authority_transition_digest_domain : Bytes
authority_transition_digest_domain =
    83 ∷ 121 ∷ 110 ∷ 99 ∷ 78 ∷ 111 ∷ 116 ∷ 105 ∷ 102 ∷ 105 ∷ 99 ∷ 97 ∷ 116 ∷ 105 ∷ 111 ∷ 110 ∷ 115
    ∷ 45 ∷ 109 ∷ 101 ∷ 109 ∷ 98 ∷ 101 ∷ 114 ∷ 115 ∷ 104 ∷ 105 ∷ 112 ∷ 45 ∷ 97 ∷ 117 ∷ 116 ∷ 104
    ∷ 111 ∷ 114 ∷ 105 ∷ 116 ∷ 121 ∷ 45 ∷ 116 ∷ 114 ∷ 97 ∷ 110 ∷ 115 ∷ 105 ∷ 116 ∷ 105 ∷ 111 ∷ 110
    ∷ 45 ∷ 100 ∷ 105 ∷ 103 ∷ 101 ∷ 115 ∷ 116 ∷ 45 ∷ 118 ∷ 49 ∷ 0 ∷ []

-- "SyncNotifications-membership-authority-transition-old-signature-v1\x00"
abbrev pub authority_transition_old_signature_domain : Bytes
authority_transition_old_signature_domain =
    83 ∷ 121 ∷ 110 ∷ 99 ∷ 78 ∷ 111 ∷ 116 ∷ 105 ∷ 102 ∷ 105 ∷ 99 ∷ 97 ∷ 116 ∷ 105 ∷ 111 ∷ 110 ∷ 115
    ∷ 45 ∷ 109 ∷ 101 ∷ 109 ∷ 98 ∷ 101 ∷ 114 ∷ 115 ∷ 104 ∷ 105 ∷ 112 ∷ 45 ∷ 97 ∷ 117 ∷ 116 ∷ 104
    ∷ 111 ∷ 114 ∷ 105 ∷ 116 ∷ 121 ∷ 45 ∷ 116 ∷ 114 ∷ 97 ∷ 110 ∷ 115 ∷ 105 ∷ 116 ∷ 105 ∷ 111 ∷ 110
    ∷ 45 ∷ 111 ∷ 108 ∷ 100 ∷ 45 ∷ 115 ∷ 105 ∷ 103 ∷ 110 ∷ 97 ∷ 116 ∷ 117 ∷ 114 ∷ 101 ∷ 45 ∷ 118 ∷ 49
    ∷ 0 ∷ []

-- "SyncNotifications-membership-authority-transition-new-signature-v1\x00"
abbrev pub authority_transition_new_signature_domain : Bytes
authority_transition_new_signature_domain =
    83 ∷ 121 ∷ 110 ∷ 99 ∷ 78 ∷ 111 ∷ 116 ∷ 105 ∷ 102 ∷ 105 ∷ 99 ∷ 97 ∷ 116 ∷ 105 ∷ 111 ∷ 110 ∷ 115
    ∷ 45 ∷ 109 ∷ 101 ∷ 109 ∷ 98 ∷ 101 ∷ 114 ∷ 115 ∷ 104 ∷ 105 ∷ 112 ∷ 45 ∷ 97 ∷ 117 ∷ 116 ∷ 104
    ∷ 111 ∷ 114 ∷ 105 ∷ 116 ∷ 121 ∷ 45 ∷ 116 ∷ 114 ∷ 97 ∷ 110 ∷ 115 ∷ 105 ∷ 116 ∷ 105 ∷ 111 ∷ 110
    ∷ 45 ∷ 110 ∷ 101 ∷ 119 ∷ 45 ∷ 115 ∷ 105 ∷ 103 ∷ 110 ∷ 97 ∷ 116 ∷ 117 ∷ 114 ∷ 101 ∷ 45 ∷ 118 ∷ 49
    ∷ 0 ∷ []
