-- ===== src/Tests.antt =====
-- The theorems of the other modules at concrete masks, strings, states and files.
pub mod Masks
pub mod Options
pub mod Statistics
pub mod Setup
pub mod Strings
pub mod Tables
pub mod Kernels
pub mod Commands
pub mod Devices
pub mod Processes
