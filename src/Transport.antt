-- ===== src/Transport.antt =====
-- apps/web-client/src/transport/WebRtcTransport.ts, with ITransport.ts: the peer connection with its
-- data channel, and signaling.
pub mod State
pub mod Peer
pub mod Listeners
pub mod Events
pub mod Candidates
pub mod Delivery
pub mod Run
pub mod Attempts
pub mod Closed
pub mod Retry
