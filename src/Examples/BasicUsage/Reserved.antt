-- ===== src/Examples/BasicUsage/Reserved.antt =====
-- A reserved log of the example, over global buffers with no ready slot.
use ring_buffer.Prelude.{
  ℕ, ◌+◌, ◌^◌, ◌≤◌, ◌<◌, ◌≡◌, refl, ap, ◌∙◌, List, none, some, Bool, false, arith, length, set, leb,
  le→leb, true, get_elem?-set_self, get_elem?-lt, dec_lt, subst,
}
use ring_buffer.Platform.{Platform, sub64}
use ring_buffer.Memory.Run.{returns, ◌>>=◌}
use ring_buffer.Memory.Volatile.{VolatileRingBuffer}
use ring_buffer.Memory.Volatile.Filled.{Filled, reserved_in, reserved_in-Filled, reservation_of}
use ring_buffer.Memory.Volatile.Outcomes.{fill-reservation}
use ring_buffer.Memory.Volatile.Reserve.{reserve-free, reserve-full}
use ring_buffer.Disk.Persistent.{PersistentRingBuffer}
use ring_buffer.Globals
use ring_buffer.Globals.{
  Globals, init_memory_buffer, get_or_init, get_memory_buffer, stop_flush_daemon,
}
use ring_buffer.Globals.Flush.{FlushDaemon}
use ring_buffer.Globals.Quiet.{Quiet}
use ring_buffer.Examples.BasicUsage.{debug_log, log_into}

module _ ⦃p : Platform⦄ where
  -- A buffer in place of the global one.
  replaced-Quiet :
      (k n : ℕ) (d : FlushDaemon) (disk : PersistentRingBuffer) (g : Globals)
      (entry : VolatileRingBuffer × Bool)
      → Quiet k d disk g
      → Filled k n entry.0
      → Quiet k d disk (record g { buffers = set g.buffers d.memory entry })
  replaced-Quiet k n d disk g entry h f = record {
    used = n;
    entry = entry;
    memory_cell = h.memory_cell;
    memory_at =
        get_elem?-set_self g.buffers d.memory entry (get_elem?-lt g.buffers d.memory h.memory_at);
    filled = f;
    disk_cell = h.disk_cell;
    disk_at = h.disk_at;
  }

  -- The global buffer, with another in its place.
  abbrev with_buffer : FlushDaemon → Globals → VolatileRingBuffer × Bool → Globals
  with_buffer d g entry = record g { buffers = set g.buffers d.memory entry }

  reserve-free_globals :
      (k size : ℕ) (d : FlushDaemon) (disk : PersistentRingBuffer) (g : Globals)
      (h : Quiet k d disk g)
      → h.used < 2 ^ k
      → size ≤ 232
      → Globals.reserve 1 g size false
        ≡ returns (
          some (reservation_of k h.entry.0 h.used (size + 24)),
          with_buffer d g (reserved_in h.entry.0 h.used, h.entry.1),
        )
  unfolding Globals.reserve get_memory_buffer get_or_init
  reserve-free_globals k size d disk g h room fits =
      let slot : leb size (sub64 h.entry.0.slot_size 24) ≡ true =
        le→leb _ _ (omega (arith, fits, h.filled.slot_size_eq)) in
      rw
        (
          h.memory_cell,
          h.memory_at,
          slot,
          reserve-free k h.used size 0 false h.entry.0 h.filled room fits,
        )
        refl

  reserve-full_globals :
      (k size : ℕ) (d : FlushDaemon) (disk : PersistentRingBuffer) (g : Globals)
      (h : Quiet k d disk g)
      → ¬ (h.used < 2 ^ k)
      → size ≤ 232
      → Globals.reserve 1 g size false ≡ returns (none, with_buffer d g h.entry)
  unfolding Globals.reserve get_memory_buffer get_or_init
  reserve-full_globals k size d disk g h none_left fits =
      let slot : leb size (sub64 h.entry.0.slot_size 24) ≡ true =
        le→leb _ _ (omega (arith, fits, h.filled.slot_size_eq)) in
      let all : h.used ≡ 2 ^ k = omega (arith, h.filled.room, none_left) in
      let f = subst (λ n. Filled k n h.entry.0) all h.filled in
      rw (h.memory_cell, h.memory_at, slot, reserve-full k size 0 h.entry.0 f fits) refl

  length-debug_log : (now : ℕ) (bytes : List ℕ) → length (debug_log now bytes).bytes ≡ length bytes
  unfolding debug_log
  length-debug_log now bytes = refl

  log_into-Quiet :
      (k now : ℕ) (bytes : List ℕ) (d : FlushDaemon) (disk : PersistentRingBuffer) (g : Globals)
      (h : Quiet k d disk g)
      → h.used < 2 ^ k
      → length bytes ≤ 232
      → (g' : Globals) × (log_into now bytes (
        some (reservation_of k h.entry.0 h.used (length bytes + 24)),
        with_buffer d g (reserved_in h.entry.0 h.used, h.entry.1),
      )
          ≡ returns g')
        × Quiet k d disk g'
  unfolding log_into get_memory_buffer get_or_init
  log_into-Quiet k now bytes d disk g h room fits =
      let entry : VolatileRingBuffer × Bool = (reserved_in h.entry.0 h.used, h.entry.1) in
      let f = reserved_in-Filled k h.used h.entry.0 h.filled room in
      let h' = replaced-Quiet k (h.used + 1) d disk g entry h f in
      let at =
        get_elem?-set_self g.buffers d.memory entry (get_elem?-lt g.buffers d.memory h.memory_at) in
      let (_, filled, _) =
        fill-reservation k h.used (length bytes) h.entry.0 (debug_log now bytes) h.entry.1 h.filled
          room fits (omega (arith, length-debug_log now bytes)) in
      (
        with_buffer d (with_buffer d g entry) entry,
        rw (h.memory_cell, at, filled) refl,
        replaced-Quiet k (h.used + 1) d disk (with_buffer d g entry) entry h' f,
      )

  pub log_reserved-Quiet :
      (k now : ℕ) (bytes : List ℕ) (d : FlushDaemon) (disk : PersistentRingBuffer) (g : Globals)
      → Quiet k d disk g
      → length bytes ≤ 232
      → (g' : Globals) × ((Globals.reserve 1 g (length bytes) false >>= log_into now bytes)
          ≡ returns g')
        × Quiet k d disk g'
  unfolding log_into
  log_reserved-Quiet k now bytes d disk g h fits = elim (dec_lt h.used (2 ^ k)) [
    | yes room ↦
        let (g', e, h') = log_into-Quiet k now bytes d disk g h room fits in
        (
          g',
          ap (λ m. m >>= log_into now bytes)
                (reserve-free_globals k (length bytes) d disk g h room fits)
              ∙ e,
          h',
        )
    | no none_left ↦ (
      with_buffer d g h.entry,
      ap (λ m. m >>= log_into now bytes)
          (reserve-full_globals k (length bytes) d disk g h none_left fits),
      replaced-Quiet k h.used d disk g h.entry h h.filled,
    )
  ]
