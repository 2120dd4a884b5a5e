-- ===== src/Tests.antt =====
-- Runs of the model on concrete memories and messages, and the theorems at concrete arguments.
pub mod Fields
pub mod Messages
pub mod Vss
pub mod Headers
pub mod CanStream
