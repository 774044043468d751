-- ===== src/Bindings.antt =====
-- The interfaces of the library to other languages: src/ios/mod.rs and src/jni/mod.rs. The tools
-- that generate the foreign side of them, swift_bridge and the jni crate, are not modelled.
pub mod Ios
pub mod Boxes
pub mod Jni
pub mod Session
pub mod Unread
use ring_buffer.Prelude.{ℕ, List, Option, none, some, Bool, true}
use ring_buffer.Platform.{Platform}
use ring_buffer.Memory.Run.{Run, returns, ◌>>=◌}
use ring_buffer.Disk.Cursor.{Cursor}
use ring_buffer.Globals.{Globals, init_memory_buffer, stop_flush_daemon}
use ring_buffer.Globals.Persistent.{FileAt, init_persistent_buffer}
use ring_buffer.Globals.Flush.{FlushDaemon, start_flush_daemon}
use ring_buffer.Daemon.{FlushDaemonConfig}

-- The globals, and `FLUSH_DAEMON_HANDLE`.
pub record Library : Type 0 where
  pub globals : Globals
  pub handle : Option FlushDaemon

-- A cursor that the foreign side holds, with the `Arc` of its buffer.
pub record OwnedCursor : Type 0 where
  pub buffer : ℕ
  pub cursor : Cursor

module _ ⦃p : Platform⦄ where
  -- The body that both `initialize` functions share, with the numbers as they have converted them.
  unfoldable pub initialize :
      Library → FileAt → FileAt → ℕ → ℕ → FlushDaemonConfig → Run (Bool × Library)
  initialize lib file temp volatile_buffer_size persistent_buffer_size config = do
    memory ← init_memory_buffer lib.globals volatile_buffer_size
    disk ← init_persistent_buffer memory.1 file persistent_buffer_size
    started ← start_flush_daemon disk.1 temp config
    returns (true, record { globals = started.1; handle = some started.0 })

-- The body that both `shutdown` functions share: the thread ends before `join` returns.
unfoldable pub shutdown : Library → Library
shutdown lib = record { globals = stop_flush_daemon lib.globals; handle = none }
