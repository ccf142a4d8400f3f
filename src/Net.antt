-- ===== src/Net.antt =====
-- framework/net: the connector's side of the clients, and how it chooses servers.
pub mod Hash
pub mod Context
pub mod Strategy
pub mod Ring
pub mod Selection
pub mod Session
pub mod Clients
pub mod Handlers
pub mod Serve
pub mod Stream
pub mod Batches
pub mod Remote
pub mod Workers
pub mod Packets
pub mod Pool
pub mod Connection
mod Tests
mod Runs
mod Traffic
mod Queues
