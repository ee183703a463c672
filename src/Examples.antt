-- ===== src/Examples.antt =====
-- Concrete inputs, and the theorems applied to them.
pub mod Data
pub mod Coding
pub mod Rows
pub mod Solve
pub mod Receive
pub mod Send
pub mod Store
pub mod Envelope
pub mod Slots
pub mod Frames
pub mod Layers
pub mod Geometry
pub mod Blocks
pub mod Schedule
pub mod Assembler
