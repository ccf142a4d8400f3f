-- ===== src/Discovery.antt =====
-- common/discovery: services in etcd, and the gRPC resolver that follows them.
pub mod Server
pub mod Resolver
pub mod Register
mod Tests
