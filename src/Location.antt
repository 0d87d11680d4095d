-- ===== src/Location.antt =====
-- _schemes.py and location.py: which locations a caller may reach.
pub mod Schemes
pub mod Policy
pub mod Redaction
pub mod Tree
