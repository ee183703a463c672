-- ===== src/Receiver.antt =====
-- The receiver's information layer (receiver/information) around the solver.
pub mod Store
pub mod Locator
pub mod Assembler
pub mod Decoder
