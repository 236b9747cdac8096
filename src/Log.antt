-- ===== src/Log.antt =====
-- The logging half of the library, base/log.
pub mod Buffer
pub mod Convert
pub mod Stream
pub mod Async
pub mod LogFile
pub mod Logging
pub mod Pipeline
mod Examples
