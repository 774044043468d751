-- ===== src/Disk.antt =====
-- The persistent side (src/disk): its on-disk structs, the buffer over the mapped file, the cursor.
pub mod ControlBlock
pub mod Header
pub mod Outcome
pub mod Persistent
pub mod Queue
pub mod Reopen
pub mod Interrupted
pub mod Cursor
