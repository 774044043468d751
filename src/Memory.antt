-- ===== src/Memory.antt =====
-- The in-memory side (src/memory): records and their headers, the atomic index, the slot, and the
-- volatile buffer over them. The operations are those of one thread at a time: an atomic access is
-- a plain one, and its memory ordering plays no part.
pub mod RecordHeader
pub mod Record
pub mod Run
pub mod Index
pub mod Slot
pub mod Volatile
