-- ===== src/Lib.antt =====
-- SevenMirror Server, the relay of end-to-end encrypted notifications: it admits devices to a
-- workspace, authenticates their connections, and hands ciphertext from one device to another,
-- live or through a durable queue for each recipient. It never holds decryption keys.
--
-- The parts and where they are modelled. Paths are from the repository's root, and a definition has
-- the name of its function in snake_case.
--   Protocol          protocol/routingheader, protocol/envelopeframe, protocol/relaydelivery and
--                     protocol/trustpairing: the codecs. An encoder is the list of its writes into
--                     a buffer (Common.Bytes.Layout), a decoder the list of its checks and slices.
--                     Protocol.Membership is protocol/membershipcodec: the certificates, rosters and
--                     handovers that an authority signs, whose wire format is protobuf's, and
--                     Protocol.Payload is protocol/payloadcodec: the plaintext of an envelope.
--   Delivery          internal/admission/relay_delivery_store.go: the durable queue. A recipient is
--                     its row of relay_delivery_state with its rows of relay_deliveries. Delivery.Log
--                     is the abstract view: a history of envelopes, numbered from 1, of which the
--                     rows are the part above two marks.
--   Admission         internal/admission/store.go: pairing codes, pending registrations and their
--                     identity proofs, credential rotation, sign-in and session checks, and the
--                     approval, renaming and revocation of the devices.
--                     Admission.Requests lists the transactions as one type of requests.
--   Preferences       internal/admission/store.go: the workspace preferences and their revisions.
--   RateLimit         internal/ratelimit/fixed_window.go: the limiter in front of relay
--                     authentication and of the HTTP API.
--   Relay             internal/relay/hub.go: which envelopes are routed, and to whom. Relay.Hub is
--                     the slots of the connected devices and their sessions, as events over a
--                     state; Relay.Service is what a client message does (with the reader of
--                     internal/relay/websocket.go), and Relay.Writer how the writer there sends
--                     the stored deliveries.
--   Common            the language's parts that the others share: errors as results, byte slices,
--                     big-endian numbers, tables with SELECT and UPDATE, lists over native numbers.
-- How they interact: the relay decodes a client message and its envelope frame with Protocol,
-- appends the frame to the recipient's queue with Delivery, and reads it back for the recipient's
-- connection; a connection is accepted when RateLimit lets its address pass and Admission
-- authenticates its token, and it stays while its session is authorized.
--
-- Conventions. Go's (value, error) is `Result`, and an error carries no new state: transactions are
-- rolled back, and the single statements that report a failure have changed no row. A table is the
-- list of its rows; the keys, foreign keys and UNIQUE columns that a statement can break are
-- written out. Concurrent requests are sequences, since SQLite serialises writers and the limiter
-- and the hub hold a mutex; what others do between two steps of a loop is an argument. Random bytes
-- are arguments. SHA-256, base64, P-256, UTF-8 validation and TrimSpace are fields of a record that
-- every definition using them takes, and so are Ed25519 and the protobuf codecs of the membership
-- messages and the payloads. What is assumed of them is stated where it is used:
-- Protocol.TrustPairing.Texts.IsBase64, Protocol.Membership.Canonical.IsCodec and
-- Protocol.Membership.Signing.IsEd25519, which is about keys made from a seed.
--
-- Bounds and fuel. Unsigned numbers on the wire are below 2^64 and byte values below 256 where a
-- theorem needs it. Delivery numbers stop at 2^63 - 1, as in the source; credential versions and
-- revisions are counted by the database one at a time and are not bounded. The capacity loop of the
-- queue runs on fuel: one more than the number of its rows is enough, since each round removes one.
-- Register's loop has its two rounds. The loop that drains deliveries to a socket goes on while
-- others append, so a run counts the turns they had; on fuel, one round more than the deliveries
-- that are left is enough once they stop.
--
-- Not modelled: failures of the database driver and of the random source, and cancelled contexts;
-- the certificates and the roster chain that approving, renaming and revoking a member write
-- (internal/admission/store.go), whose outcome Admission.Membership takes as an argument, the
-- rotation of the authority, which writes no column that is modelled, and the authority's key files
-- (internal/membership); the administrator's account; the sockets themselves, the authentication
-- frame, the cause that a session ends with and the authorization monitor of the relay
-- (internal/relay/authenticated_handler.go, internal/relay/authorization_monitor.go), and the HTTP
-- handlers (internal/httpapi, internal/adminweb, internal/adminservice); client addresses,
-- configuration, readiness, backups (internal/clientaddress, internal/config, internal/readiness,
-- internal/workspacebackup, internal/protecteddir); generated protobuf code, which is not written
-- by hand; the commands under cmd, which only wire these parts together; and schema migrations.

pub mod Common
pub mod Protocol
pub mod Delivery
pub mod RateLimit
pub mod Admission
pub mod Preferences
pub mod Relay
