-- ===== src/Storage.antt =====
-- storage/: paths, and the facade over the backends.
pub mod Helpers
pub mod Suffixes
pub mod Facade
pub mod Transfer
pub mod Registry
