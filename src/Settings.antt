-- ===== src/Settings.antt =====
-- settings/storage/loader.py: how a named profile is read from the configuration, and what its errors
-- may show.
pub mod References
pub mod Loader
