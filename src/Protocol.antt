-- ===== src/Protocol.antt =====
-- The frame protocols (common/transport and common/ecc_rs.py).
pub mod Bits
pub mod Basic
pub mod Gray4
pub mod Layered
pub mod Layout
pub mod ReedSolomon
