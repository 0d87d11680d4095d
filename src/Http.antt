-- ===== src/Http.antt =====
-- The HTTP transport: _core/http.
pub mod Errors
pub mod Policy
pub mod Engine
