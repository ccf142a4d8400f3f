-- ===== src/Protocol.antt =====
-- framework/protocol: the wire format between a client and the connector.
pub mod PackageType
pub mod MessageType
pub mod Types
pub mod Tools
pub mod Dictionary
pub mod MsgId
pub mod Message
pub mod Packet
mod Tests
