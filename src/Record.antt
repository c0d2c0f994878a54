-- ===== src/Record.antt =====
-- The record functions of molten_intercept.c: what becomes a span when a traced call has returned.
pub mod Engine
pub mod Args
pub mod Errors
pub mod Pdo
pub mod Cache
pub mod Mysqli
pub mod Mongo
pub mod Client
pub mod Curl
pub mod Dispatch
pub mod Safe
pub mod Total
pub mod Links
pub mod Kept
