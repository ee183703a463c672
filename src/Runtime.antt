-- ===== src/Runtime.antt =====
-- The receiver's runtime (receiver/runtime).
pub mod Slots
