-- ===== src/Tests.antt =====
-- The theorems at concrete inputs, and runs of the definitions.
mod Streams
mod Transforms
mod Requests
mod Locations
mod Trees
mod Directories
mod Facades
mod Callers
mod Connections
mod Backends
mod Ranges
mod Settings
