-- ===== src/Daemon.antt =====
-- The flush daemon of src/lib.rs: one round of its loop over a volatile and a persistent buffer.
-- `usage_percent` and the watermark are floating-point numbers: here the results of the comparisons
-- between them, and the product by 1.5, are arguments; Watermark computes them. What goes to the
-- standard error is left out.
pub mod Idle
pub mod Float
pub mod Watermark
pub mod Spin
use ring_buffer.Prelude.{
  ℕ, suc, ◌+◌, ◌/◌, max, List, [], ◌∷◌, take, Option, none, some, Bool, true, false, ltb,
  if◌then◌else◌,
}
use ring_buffer.Platform.{Platform}
use ring_buffer.Memory.Record.{Record}
use ring_buffer.Memory.Run.{Run, returns}
use ring_buffer.Memory.Volatile.{VolatileRingBuffer}
use ring_buffer.Memory.Volatile.Write.{wait_for_data}
use ring_buffer.Memory.Volatile.Read.{read}
use ring_buffer.Disk.Outcome.{Outcome, ok, err, panic, undefined, unfinished}
use ring_buffer.Disk.Persistent.{PersistentRingBuffer, write, flush}

-- How the usage compares with the watermark `w`: above `w`, below `w / 2`, at least `w`.
pub record Usage : Type 0 where
  pub is_high : Bool
  pub is_low : Bool
  pub is_full : Bool

-- `max_records_per_flush`, and the same times 1.5.
pub record FlushDaemonConfig : Type 0 where
  pub interval_ms : ℕ
  pub max_records_per_flush : ℕ
  pub increased : ℕ

-- The two buffers, and the flag of the volatile buffer's `consumer_signal`.
pub record Buffers : Type 0 where
  pub memory : VolatileRingBuffer
  pub signal : Bool
  pub disk : PersistentRingBuffer

unfoldable pub batch_size : FlushDaemonConfig → Usage → ℕ
batch_size config usage =
    max
      (if usage.is_high
        then config.increased
        else if usage.is_low
        then config.max_records_per_flush / 2
        else config.max_records_per_flush)
      1

-- The match on the result of one `write`: an error ends the loop, with the count so far.
unfoldable pub after_store {ℓ} :
    {A : Type ℓ}
    → (PersistentRingBuffer → Outcome ℕ × PersistentRingBuffer)
    → ℕ
    → Outcome A × PersistentRingBuffer
    → Outcome ℕ × PersistentRingBuffer
after_store again count (ok _, b) = again b
after_store again count (err e, b) = (ok count, b)
after_store again count (panic, b) = (panic, b)
after_store again count (undefined, b) = (undefined, b)
after_store again count (unfinished, b) = (unfinished, b)

-- The records, with the answer of the system to the `flush` of each `write`, by their number.
abbrev pub answered : List Record → (ℕ → Option ℕ) → List (Record × Option ℕ)
answered [] io = []
answered (r ∷ rs) io = (r, io 0) ∷ answered rs (λ n. io (suc n))

module _ ⦃p : Platform⦄ where
  -- The loop over the batch, with `count` records written so far.
  unfoldable pub write_batch :
      PersistentRingBuffer → List (Record × Option ℕ) → ℕ → Outcome ℕ × PersistentRingBuffer
  write_batch b [] count = (ok count, b)
  write_batch b ((r, io) ∷ rs) count =
      after_store (λ b'. write_batch b' rs (count + 1)) count (write b r io)

  -- The `flush` behind the loop, whose error is only reported.
  unfoldable pub finish_batch :
      Buffers → Option ℕ → Outcome ℕ × PersistentRingBuffer → Outcome (Unit {0}) × Buffers
  finish_batch s io (ok count, b) =
      let flushed = (flush b io).1 in
      (ok tt, record s { disk = if ltb 0 count then flushed else b })
  finish_batch s io (err e, b) = (err e, record s { disk = b })
  finish_batch s io (panic, b) = (panic, record s { disk = b })
  finish_batch s io (undefined, b) = (undefined, record s { disk = b })
  finish_batch s io (unfinished, b) = (unfinished, record s { disk = b })

  -- What follows `read`.
  unfoldable pub store_records :
      Buffers
      → ℕ
      → (ℕ → Option ℕ)
      → Option ℕ
      → Run (List Record × VolatileRingBuffer × Bool)
      → Outcome (Unit {0}) × Buffers
  store_records s size io io_flush (returns ([], memory, signal)) =
      (ok tt, record s { memory = memory; signal = signal })
  store_records s size io io_flush (returns (r ∷ rs, memory, signal)) =
      finish_batch (record s { memory = memory; signal = signal }) io_flush
        (write_batch s.disk (answered (take size (r ∷ rs)) io) 0)
  store_records s size io io_flush Run.panic = (panic, s)
  store_records s size io io_flush Run.undefined = (undefined, s)
  store_records s size io io_flush Run.unfinished = (unfinished, s)

  -- `should_flush`, and the flag that the wait leaves.
  unfoldable pub should_flush : FlushDaemonConfig → Usage → Bool → Bool → Bool × Bool
  should_flush config usage notified signal =
      if usage.is_full
      then (true, signal)
      else wait_for_data signal (some config.interval_ms) notified

  -- The body of `while FLUSH_DAEMON_RUNNING`.
  unfoldable pub daemon_round :
      FlushDaemonConfig
      → Usage
      → Bool
      → (ℕ → Option ℕ)
      → Option ℕ
      → Buffers
      → Outcome (Unit {0}) × Buffers
  daemon_round config usage notified io io_flush s =
      let (flush_now, signal) = should_flush config usage notified s.signal in
      let s' = record s { signal = signal } in
      let stored = store_records s' (batch_size config usage) io io_flush (read s.memory signal) in
      if flush_now then stored else (ok tt, s')
