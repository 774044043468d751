-- ===== src/Globals/Persistent.antt =====
-- The global persistent buffer of src/lib.rs. Buffers over different files share nothing; a file that
-- is mapped twice is left out.
use Prim.Native.String.{String}
use ring_buffer.Prelude.{ℕ, ◌*◌, List, [], ◌∷◌, ◌++◌, Option, none, some, length}
use ring_buffer.Platform.{Platform}
use ring_buffer.Memory.Run.{Run, returns, panic, undefined, unfinished, ◌>>=◌}
use ring_buffer.Disk.Outcome.{Outcome, ok, err}
use ring_buffer.Disk.Persistent.{PersistentRingBuffer}
use ring_buffer.Disk.Persistent.Open
use ring_buffer.Disk.Persistent.Open.{OpenIo, Opened}
use ring_buffer.Globals.{Globals, or_init}

-- A file as a call finds it: where it is, how the system answers the calls on it, its bytes.
pub record FileAt : Type 0 where
  pub path : String
  pub io : OpenIo
  pub bytes : List ℕ

-- The match on the result of `PersistentRingBuffer::new`, and `expect`: an error is a panic.
unfoldable pub opened_or_panic : Opened → Run PersistentRingBuffer
opened_or_panic (ok b, file) = returns b
opened_or_panic (err e, file) = panic
opened_or_panic (Outcome.panic, file) = panic
opened_or_panic (Outcome.undefined, file) = undefined
opened_or_panic (Outcome.unfinished, file) = unfinished

module _ ⦃p : Platform⦄ where
  unfoldable pub init_persistent_buffer : Globals → FileAt → ℕ → Run (ℕ × Globals)
  init_persistent_buffer g file size = do
    b ← opened_or_panic (Open.new file.path file.io file.bytes size)
    let at = length g.disks
    returns (
      at,
      record g { disks = g.disks ++ (b ∷ []); persistent_buffer = or_init g.persistent_buffer at },
    )

  -- `get_persistent_buffer`, by the content of the cell: 10 MB in the temporary file, if there is
  -- no buffer yet.
  unfoldable pub get_or_init_persistent : Globals → FileAt → Option ℕ → Run (ℕ × Globals)
  get_or_init_persistent g temp (some at) = returns (at, g)
  get_or_init_persistent g temp none = init_persistent_buffer g temp (10 * 1024 * 1024)

  unfoldable pub get_persistent_buffer : Globals → FileAt → Run (ℕ × Globals)
  get_persistent_buffer g temp = get_or_init_persistent g temp g.persistent_buffer
