-- ===== src/Transform.antt =====
-- Stream transforms: _core/transforms.
pub mod Pipeline
pub mod Bounded
pub mod Encoder
