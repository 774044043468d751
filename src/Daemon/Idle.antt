-- ===== src/Daemon/Idle.antt =====
-- The daemon over a volatile buffer in the states that a new buffer reaches.
use ring_buffer.Prelude.{
  ℕ, Bool, Option, ◌≡◌, ap, ◌∙◌, if-of_true, if-of_false, Bool-cases, inl, inr,
}
use ring_buffer.Platform.{Platform}
use ring_buffer.Memory.Volatile.Read.{read}
use ring_buffer.Memory.Volatile.Filled.{Filled}
use ring_buffer.Memory.Volatile.Outcomes.{read-Filled}
use ring_buffer.Disk.Outcome.{ok}
use ring_buffer.Daemon.{
  FlushDaemonConfig, Usage, Buffers, batch_size, store_records, should_flush, daemon_round,
}

module _ ⦃p : Platform⦄ where
  store_records-Filled :
      (k n size : ℕ) (io : ℕ → Option ℕ) (io_flush : Option ℕ) (s : Buffers)
      → Filled k n s.memory
      → store_records s size io io_flush (read s.memory s.signal) ≡ (ok tt, s)
  unfolding store_records
  store_records-Filled k n size io io_flush s f =
      ap (store_records s size io io_flush) (read-Filled k n s.memory s.signal f)

  -- Over a volatile buffer in which the first `n` slots are reserved and the others are empty, a
  -- round of the flush daemon returns and changes nothing but the flag of the consumer's signal:
  -- no record gets to the persistent buffer, however the usage compares with the watermark and
  -- whether or not the wait ends by a notification.
  pub daemon_round-Filled :
      (k n : ℕ) (config : FlushDaemonConfig) (usage : Usage) (notified : Bool) (io : ℕ → Option ℕ)
      (io_flush : Option ℕ) (s : Buffers)
      → Filled k n s.memory
      → daemon_round config usage notified io io_flush s
        ≡ (ok tt, record s { signal = (should_flush config usage notified s.signal).1 })
  unfolding daemon_round
  daemon_round-Filled k n config usage notified io io_flush s f =
      let signal = (should_flush config usage notified s.signal).1 in
      let s' : Buffers = record s { signal = signal } in
      elim (Bool-cases (should_flush config usage notified s.signal).0) [
        | inl e ↦
            if-of_true _ (ok tt, s') e
            ∙ store_records-Filled k n (batch_size config usage) io io_flush s' f
        | inr e ↦ if-of_false _ (ok tt, s') e
      ]
