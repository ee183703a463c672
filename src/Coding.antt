-- ===== src/Coding.antt =====
-- common/information/coding.py: GF(256) arithmetic by log and exp tables, payload combinations and
-- the expansion of a seed into equation terms. Payloads are lists of bytes.
pub mod Tables
pub mod Gf256
pub mod Payload
pub mod Equation
