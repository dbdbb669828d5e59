-- ===== src/Log.antt =====
-- log.py: `AttestationLog`, reading (Log/Reader) and writing (Log/Writer), and the theorems on both.
pub mod Lines
pub mod Reader
pub mod Writer
pub mod Format
pub mod Steps
pub mod Append
pub mod Failure
pub mod Read
pub mod Refine
pub mod Torn
pub mod Returns
pub mod Emits
pub mod Digits
pub mod Faults
