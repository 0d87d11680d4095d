-- ===== src/Backend.antt =====
-- storage/backends: the enumeration, the metadata, the ranges and the errors of the backends.
pub mod Entry
pub mod Walk
pub mod Local
pub mod Sftp
pub mod S3
pub mod Http
