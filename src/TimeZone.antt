-- ===== src/TimeZone.antt =====
-- base/TimeZone.h and base/TimeZone.cc.
pub mod Utc
pub mod Data
pub mod Local
pub mod File
mod Examples
