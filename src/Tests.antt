-- ===== src/Tests.antt =====
-- The theorems at concrete inputs, and runs of the definitions.
pub mod Files
pub mod Faults
pub mod Tables
pub mod Formats
pub mod Storage
pub mod Tracing
pub mod Requests
pub mod Records
pub mod Whole
pub mod Calls
