-- ===== src/Globals.antt =====
-- The global buffers of src/lib.rs. An `Arc` is an index into the list of the buffers that were made,
-- each volatile one with the flag of its `consumer_signal`; a `OnceCell` is an optional index.
pub mod Persistent
pub mod Flush
pub mod First
pub mod Quiet
pub mod Threads
use ring_buffer.Prelude.{
  ℕ, ◌+◌, List, [], ◌∷◌, ◌++◌, Option, none, some, Bool, false, leb, if◌then◌else◌, length,
  get_elem?, set,
}
use ring_buffer.Platform.{Platform, sub64}
use ring_buffer.Memory.RecordHeader
use ring_buffer.Memory.Record
use ring_buffer.Memory.Run.{Run, returns, panic, ◌>>=◌, or_panic}
use ring_buffer.Memory.Volatile
use ring_buffer.Memory.Volatile.{VolatileRingBuffer, Reservation}
use ring_buffer.Memory.Volatile.Write
use ring_buffer.Disk.Persistent.{PersistentRingBuffer}

pub record Globals : Type 0 where
  pub buffers : List (VolatileRingBuffer × Bool)
  pub volatile_buffer : Option ℕ
  pub disks : List PersistentRingBuffer
  pub persistent_buffer : Option ℕ
  pub flush_daemon_running : Bool

-- `OnceCell::get_or_init` with an index at hand.
abbrev pub or_init : Option ℕ → ℕ → Option ℕ
or_init none at = some at
or_init (some old) at = some old

unfoldable pub init_memory_buffer : Globals → ℕ → Run (ℕ × Globals)
init_memory_buffer g capacity = do
  b ← Volatile.new capacity
  let at = length g.buffers
  returns (
    at,
    record g {
      buffers = g.buffers ++ ((b, false) ∷ []);
      volatile_buffer = or_init g.volatile_buffer at;
    },
  )

-- `get_memory_buffer`, by the content of the cell: 4096 slots, if there is no buffer yet.
unfoldable pub get_or_init : Globals → Option ℕ → Run (ℕ × Globals)
get_or_init g (some at) = returns (at, g)
get_or_init g none = init_memory_buffer g 4096

unfoldable pub get_memory_buffer : Globals → Run (ℕ × Globals)
get_memory_buffer g = get_or_init g g.volatile_buffer

unfoldable pub stop_flush_daemon : Globals → Globals
stop_flush_daemon g = record g { flush_daemon_running = false }

module _ ⦃p : Platform⦄ where
  -- The global `write`; `now` is the reading of the clock.
  unfoldable pub write : Globals → ℕ → List ℕ → ℕ → Run (Bool × Globals)
  write g now bytes tag = do
    let r = Record.new now bytes tag
    found ← get_memory_buffer g
    entry ← or_panic (get_elem? found.1.buffers found.0)
    written ← Write.write entry.0 r entry.1
    returns
        (written.0, record found.1 { buffers = set found.1.buffers found.0 (written.1, written.2) })

-- The global `reserve`, with the fuel of `VolatileRingBuffer::reserve`.
unfoldable pub reserve : ℕ → Globals → ℕ → Bool → Run (Option Reservation × Globals)
reserve fuel g size block = do
  found ← get_memory_buffer g
  entry ← or_panic (get_elem? found.1.buffers found.0)
  if leb size (sub64 entry.0.slot_size RecordHeader.header_size)
      then (Volatile.reserve fuel entry.0 size block >>= λ o.
          returns (o.0, record found.1 { buffers = set found.1.buffers found.0 (o.1, entry.1) }))
      else panic

-- A sequence of calls of `init_memory_buffer`.
unfoldable pub init_all : Globals → List ℕ → Run Globals
init_all g [] = returns g
init_all g (capacity ∷ cs) = init_memory_buffer g capacity >>= λ o. init_all o.1 cs
