-- ===== src/Thread.antt =====
-- The threads of base/: what they share, and how they wait for one another.
pub mod Wait
pub mod Mutex
pub mod Pool
pub mod Queue
pub mod Latch
pub mod CurrentThread
pub mod Life
pub mod Local
mod Examples
