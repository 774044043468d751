-- ===== src/Tests.antt =====
-- Runs of the model at concrete inputs.
pub mod Toy
pub mod Disk
pub mod Cursor
pub mod Interleaved
mod Examples
mod Globals
mod Threads
mod Watermark
mod Truncated
mod Concurrent
mod Ready
pub mod Memory
pub mod Daemon
mod Bindings
