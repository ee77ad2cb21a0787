-- ===== src/Protocol.antt =====
-- packages/protocol-types/src: the wire protocol that the client speaks with the host.
pub mod Constants
pub mod Types
pub mod View
pub mod Encoder
pub mod Sequence
pub mod Reader
pub mod Decoder
