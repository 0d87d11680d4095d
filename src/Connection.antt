-- ===== src/Connection.antt =====
-- connections/: the lifecycle of connections, and which of them serves a profile.
pub mod Failures
pub mod World
pub mod Protocol
pub mod Leaf
pub mod Sftp
pub mod Tunnel
pub mod Lifecycle
pub mod Factory
pub mod Forwarder
