-- ===== src/Sender.antt =====
-- The sender (sender/information): payload chunks cut into generations, and their units.
pub mod Builder
pub mod Packing
pub mod Schedule
