-- ===== src/Tests/Globals.antt =====
-- The global volatile buffer at concrete inputs.
use ring_buffer.Prelude.{◌≡◌, refl, [], ◌∷◌, none, some, false, arith, get_elem?}
use ring_buffer.Memory.Run.{returns}
use ring_buffer.Memory.Volatile
use ring_buffer.Memory.Volatile.{VolatileRingBuffer}
use ring_buffer.Globals.{Globals, init_all, get_memory_buffer}
use ring_buffer.Globals.First.{get_memory_buffer-init_all}

abbrev at_start : Globals
at_start = record {
  buffers = [];
  volatile_buffer = none;
  disks = [];
  persistent_buffer = none;
  flush_daemon_running = false;
}

get_memory_buffer-init_all_example :
    (b : VolatileRingBuffer) × (g' : Globals) × (Volatile.new 16 ≡ returns b)
    × (init_all at_start (16 ∷ (64 ∷ [])) ≡ returns g')
    × (get_memory_buffer g' ≡ returns (0, g'))
    × (get_elem? g'.buffers 0 ≡ some (b, false))
get_memory_buffer-init_all_example =
    get_memory_buffer-init_all 16 (64 ∷ []) at_start refl (omega arith) (omega arith, tt)
