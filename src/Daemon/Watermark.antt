-- ===== src/Daemon/Watermark.antt =====
-- `usage_percent` of src/memory/volatile.rs, and what the flush daemon of src/lib.rs makes of it in a
-- round.
use ring_buffer.Prelude.{ℕ, Option, Bool, not}
use ring_buffer.Platform.{Platform, sub64}
use ring_buffer.Memory.Index
use ring_buffer.Memory.Volatile.{VolatileRingBuffer}
use ring_buffer.Disk.Outcome.{Outcome}
use ring_buffer.Daemon.{FlushDaemonConfig, Usage, Buffers, daemon_round}
use ring_buffer.Daemon.Float.{Float}

-- The configuration as the caller gives it, with its watermark.
pub record Settings {ℓ} (F : Type ℓ) : Type ℓ where
  pub interval_ms : ℕ
  pub high_watermark_percent : F
  pub max_records_per_flush : ℕ

module _ {ℓ} {F : Type ℓ} ⦃f : Float F⦄ where
  unfoldable pub usage_percent : VolatileRingBuffer → F
  usage_percent b =
      let prod_seq = Index.load b.prod_seq in
      let cons_seq = Index.load b.cons_seq in
      let used = f.of_u64 (sub64 prod_seq cons_seq) in
      let capacity = f.of_u64 b.capacity in f.mul (f.div used capacity) (f.of_u64 100)

  -- The comparisons of a round.
  unfoldable pub compared : F → F → Usage
  compared usage watermark = record {
    is_high = f.lt watermark usage;
    is_low = f.lt usage (f.div watermark (f.of_u64 2));
    is_full = f.le watermark usage;
  }

  unfoldable pub config_of : Settings F → FlushDaemonConfig
  config_of c = record {
    interval_ms = c.interval_ms;
    max_records_per_flush = c.max_records_per_flush;
    increased = f.as_usize (f.mul (f.of_u64 c.max_records_per_flush) f.one_and_half);
  }

  -- `FlushDaemonConfig::default`.
  abbrev pub default : Settings F
  default = record {
    interval_ms = 1000;
    high_watermark_percent = f.of_u64 75;
    max_records_per_flush = 100;
  }

  -- Whether a round comes to `wait_for_data`: `||` does not look at it behind a true comparison.
  unfoldable pub waits : Settings F → VolatileRingBuffer → Bool
  waits c b = not (compared (usage_percent b) c.high_watermark_percent).is_full

  module _ ⦃p : Platform⦄ where
    -- A round of the daemon, from the usage that it finds.
    unfoldable pub round :
        Settings F → Bool → (ℕ → Option ℕ) → Option ℕ → Buffers → Outcome (Unit {0}) × Buffers
    round c notified io io_flush s =
        daemon_round (config_of c) (compared (usage_percent s.memory) c.high_watermark_percent)
          notified io io_flush s
