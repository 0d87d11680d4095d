-- ===== src/Stream.antt =====
-- Byte streams: _core/sequential_io.py, _core/ranged_io.py and _core/stream_errors.py.
pub mod Caller
pub mod Sequential
pub mod Chunks
pub mod Ranged
