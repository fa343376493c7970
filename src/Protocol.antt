-- ===== src/Protocol.antt =====
-- The wire formats: protocol/routingheader, protocol/envelopeframe, protocol/relaydelivery,
-- protocol/trustpairing, protocol/membershipcodec, protocol/payloadcodec.
pub mod RoutingHeader
pub mod EnvelopeFrame
pub mod RelayDelivery
pub mod TrustPairing
pub mod Membership
pub mod Payload
pub mod Examples
