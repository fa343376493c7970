-- ===== src/Relay/Service/Isolation.antt =====
-- What a client message can change of the stored deliveries.
use seven_mirror_server.Common.{
  ℕ, ◌<◌, ◌≡◌, refl, ap, ◌∙◌, subst, true, arith, Bool-cases, inl, inr,
}
use seven_mirror_server.Common.Bytes.{Bytes, equal}
use seven_mirror_server.Common.Result.{ok, bind-eq-ok, wrap_error, wrap_error-ok, ◌>>=◌}
use seven_mirror_server.Protocol.RoutingHeader.{Header}
use seven_mirror_server.Protocol.RelayDelivery.{
  ClientMessageKind, envelope_online, envelope_durable, resume, acknowledge, decode_client_message,
}
use seven_mirror_server.Delivery.{Recipient, append_delivery, acknowledge_delivery}
use seven_mirror_server.Relay.{PeerIdentity, validate_routed_envelope}
use seven_mirror_server.Relay.Routing.{IsFrom, recipient_in, validate_routed_envelope_iff}
use seven_mirror_server.Relay.Hub.{Hub, same_peer}
use seven_mirror_server.Relay.Hub.Soundness.{same_peer-eq}
use seven_mirror_server.Relay.Service.{
  Authorizer, Deliveries, Served, bad_envelope, bad_message, bad_delivery, failed_lookup,
  heartbeat_request, set_recipient, from_unix_milli, commit_durable, route_durable,
  acknowledge_session, dispatch, serve_message,
}

-- The peer's deliveries got one frame of the sender, that is for the peer and still valid, while
-- the peer is authorized.
pub record IsAppended (authorizer : Authorizer) (sender : PeerIdentity) (now : ℕ)
    (before after : Recipient) (q : PeerIdentity) : Type 0 where
  pub frame : Bytes
  pub header : Header
  pub from : IsFrom sender frame header
  pub to : q ≡ recipient_in sender header
  pub authorized : authorizer q ≡ ok true
  pub valid : now < from_unix_milli header.expires_at_unix_ms
  pub id : ℕ
  pub stored :
      append_delivery before frame (from_unix_milli header.expires_at_unix_ms) now ≡ ok (id, after)

-- The peer acknowledged deliveries of its own.
pub record IsAcknowledged (sender : PeerIdentity) (before after : Recipient) (q : PeerIdentity)
    : Type 0 where
  pub own : q ≡ sender
  pub cursor : ℕ
  pub stored : acknowledge_delivery before cursor ≡ ok after

-- What may happen to the deliveries of one peer.
pub data IsAllowed (authorizer : Authorizer) (sender : PeerIdentity) (now : ℕ)
    (before after : Recipient) (q : PeerIdentity) : Type 0 where
  unchanged : after ≡ before → IsAllowed authorizer sender now before after q
  appended :
      IsAppended authorizer sender now before after q
      → IsAllowed authorizer sender now before after q
  acknowledged :
      IsAcknowledged sender before after q → IsAllowed authorizer sender now before after q

-- Only one peer's deliveries are written.
set_recipient-IsAllowed :
    (authorizer : Authorizer) (sender : PeerIdentity) (now : ℕ) (p : PeerIdentity) (r : Recipient)
    (d : Deliveries)
    → IsAllowed authorizer sender now (d p) r p
    → (q : PeerIdentity) → IsAllowed authorizer sender now (d q) (set_recipient p r d q) q
set_recipient-IsAllowed authorizer sender now p r d v q = elim (Bool-cases (same_peer q p)) [
  | inl same ↦ rw (same, same_peer-eq q p same) v
  | inr other ↦ rw other (unchanged refl)
]

module _ (authorizer : Authorizer) (others : Hub → Hub) (h : Hub) (s : ℕ) (d : Deliveries)
    (now : ℕ) where
  commit-eq-ok :
      (recipient : PeerIdentity) (header : Header) (frame : Bytes) (d' : Deliveries)
      → commit_durable authorizer d recipient header frame now ≡ ok d'
      → (id : ℕ) × (r : Recipient) × (authorizer recipient ≡ ok true)
        × (now < from_unix_milli header.expires_at_unix_ms)
        × (append_delivery (d recipient) frame (from_unix_milli header.expires_at_unix_ms) now
            ≡ ok (id, r))
        × (set_recipient recipient r d ≡ d')
  unfolding commit_durable
  commit-eq-ok recipient header frame d' e =
      let (authorized, answered, rest) =
        bind-eq-ok (wrap_error (λ e. failed_lookup) (authorizer recipient)) _ e in
      let allowed : authorizer recipient ≡ ok authorized =
        wrap_error-ok (λ e. failed_lookup) (authorizer recipient) answered in
      let passed : (authorized ≡ true) × (now < from_unix_milli header.expires_at_unix_ms) =
        ground arith in
      let ((id, r), stored, written) =
        bind-eq-ok
          (wrap_error bad_delivery
            (append_delivery (d recipient) frame (from_unix_milli header.expires_at_unix_ms) now))
          (λ (id, r). ok (set_recipient recipient r d)) {b = d'} (ground arith) in
      (id, r, allowed ∙ ap ok passed.0, passed.1, wrap_error-ok bad_delivery _ stored, ground arith)

  -- A durable envelope that was accepted.
  durable-eq-ok :
      (frame : Bytes) (h' : Hub) (d' : Deliveries)
      → route_durable authorizer others h s d frame now ≡ ok (h', d')
      → (a : PeerIdentity × Header) × (validate_routed_envelope (h.session s).peer frame ≡ ok a)
        × (commit_durable authorizer d a.0 a.1 frame now ≡ ok d')
  unfolding route_durable
  durable-eq-ok frame h' d' e =
      let (a, routed, rest) =
        bind-eq-ok (wrap_error bad_envelope (validate_routed_envelope (h.session s).peer frame)) _
          e in
      (
        a,
        wrap_error-ok bad_envelope (validate_routed_envelope (h.session s).peer frame) routed,
        ground arith,
      )

  durable-IsAllowed :
      (frame : Bytes) (h' : Hub) (d' : Deliveries) (q : PeerIdentity)
      → route_durable authorizer others h s d frame now ≡ ok (h', d')
      → IsAllowed authorizer (h.session s).peer now (d q) (d' q) q
  durable-IsAllowed frame h' d' q e =
      let ((recipient, header), routed, rest) = durable-eq-ok frame h' d' e in
      let (id, r, authorized, valid, stored, written) =
        commit-eq-ok recipient header frame d' rest in
      let (from, to) =
        (validate_routed_envelope_iff (h.session s).peer frame recipient header).0 routed in
      subst (λ x. IsAllowed authorizer (h.session s).peer now (d q) (x q) q) written
        (set_recipient-IsAllowed authorizer (h.session s).peer now recipient r d
          (appended (record {
            frame = frame;
            header = header;
            from = from;
            to = to;
            authorized = authorized;
            valid = valid;
            id = id;
            stored = stored;
          }))
          q)

  acknowledge-eq-ok :
      (cursor : ℕ) (d' : Deliveries)
      → acknowledge_session h s d cursor ≡ ok d'
      → (r : Recipient) × (acknowledge_delivery (d (h.session s).peer) cursor ≡ ok r)
        × (set_recipient (h.session s).peer r d ≡ d')
  unfolding acknowledge_session
  acknowledge-eq-ok cursor d' e = ground arith

  acknowledge-IsAllowed :
      (cursor : ℕ) (d' : Deliveries) (q : PeerIdentity)
      → acknowledge_session h s d cursor ≡ ok d'
      → IsAllowed authorizer (h.session s).peer now (d q) (d' q) q
  acknowledge-IsAllowed cursor d' q e =
      let (r, stored, written) = acknowledge-eq-ok cursor d' e in
      subst (λ x. IsAllowed authorizer (h.session s).peer now (d q) (x q) q) written
        (set_recipient-IsAllowed authorizer (h.session s).peer now (h.session s).peer r d
          (acknowledged (record { own = refl; cursor = cursor; stored = stored })) q)

  dispatch-IsAllowed :
      (kind : ClientMessageKind) (cursor : ℕ) (envelope : Bytes) (served : Served)
      (q : PeerIdentity)
      → dispatch authorizer others h s d now kind cursor envelope ≡ ok served
      → IsAllowed authorizer (h.session s).peer now (d q) (served.deliveries q) q
  dispatch-IsAllowed envelope_online cursor envelope served q e =
      let same : served.deliveries ≡ d = ground arith in unchanged (ap (λ f. f q) same)
  dispatch-IsAllowed envelope_durable cursor envelope served q e =
      let ((h', d'), stored, rest) =
        bind-eq-ok (route_durable authorizer others h s d envelope now) _ e in
      let same : d' ≡ served.deliveries = ground arith in
      subst (λ x. IsAllowed authorizer (h.session s).peer now (d q) (x q) q) same
        (durable-IsAllowed envelope h' d' q stored)
  dispatch-IsAllowed resume cursor envelope served q e =
      let same : served.deliveries ≡ d = ground arith in unchanged (ap (λ f. f q) same)
  dispatch-IsAllowed acknowledge cursor envelope served q e =
      let (d', stored, rest) = bind-eq-ok (acknowledge_session h s d cursor) _ e in
      let same : d' ≡ served.deliveries = ground arith in
      subst (λ x. IsAllowed authorizer (h.session s).peer now (d q) (x q) q) same
        (acknowledge-IsAllowed cursor d' q stored)

-- Whatever bytes a client sends, a message that is served leaves the deliveries of every peer as
-- they were, but for two cases: an append of one frame, whose header names the session's own peer
-- as its sender, to an authorized recipient of the same workspace, before the frame expires; or an
-- acknowledgement of the session's own deliveries.
pub serve_message-IsAllowed :
    (authorizer : Authorizer) (others : Hub → Hub) (h : Hub) (s : ℕ) (d : Deliveries) (now : ℕ)
    (encoded : Bytes) (served : Served) (q : PeerIdentity)
    → serve_message authorizer others h s d now encoded ≡ ok served
    → IsAllowed authorizer (h.session s).peer now (d q) (served.deliveries q) q
unfolding serve_message
serve_message-IsAllowed authorizer others h s d now encoded served q e =
    elim (Bool-cases (equal encoded heartbeat_request)) [
      | inl beat ↦ let same : served.deliveries ≡ d = ground arith in unchanged (ap (λ f. f q) same)
      | inr message ↦
          let rest : (wrap_error bad_message (decode_client_message encoded) >>= λ m.
          dispatch authorizer others h s d now m.kind m.cursor m.envelope)
              ≡ ok served =
            ground arith in
          let (m, decoded, handled) =
            bind-eq-ok (wrap_error bad_message (decode_client_message encoded)) _ rest in
          dispatch-IsAllowed authorizer others h s d now m.kind m.cursor m.envelope served q handled
    ]
