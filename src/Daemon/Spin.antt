-- ===== src/Daemon/Spin.antt =====
-- The flush daemon behind the watermark.
use native.Mathlib.Nat.{one-le-pow}
use ring_buffer.Prelude.{
  ℕ, ◌^◌, ◌≤◌, ◌≡◌, refl, ap, ◌∙◌, sym, List, [], ◌∷◌, Option, Bool, true, false, not, arith,
  length, if-of_true,
}
use ring_buffer.Platform.{Platform, sub64}
use ring_buffer.Memory.Record.{Record}
use ring_buffer.Memory.Run.{Run, returns, panic, undefined, unfinished, ◌>>=◌}
use ring_buffer.Memory.Volatile.{VolatileRingBuffer}
use ring_buffer.Memory.Volatile.Write
use ring_buffer.Memory.Volatile.Filled.{Filled, power_bound}
use ring_buffer.Memory.Volatile.History.Steps.{write-Filled}
use ring_buffer.Disk.Outcome.{Outcome, ok, err}
use ring_buffer.Daemon.{Buffers, should_flush}
use ring_buffer.Daemon.Idle.{daemon_round-Filled}
use ring_buffer.Daemon.Float.{Float, IsMonotone}
use ring_buffer.Daemon.Watermark.{Settings, usage_percent, compared, config_of, waits, round}

-- A `write` of the volatile buffer, or a round of the daemon, with the answers of the system.
pub data Event : Type 0 where
  writes : Record → Event
  rounds : Bool → (ℕ → Option ℕ) → Option ℕ → Event

abbrev pub AllFit : List Event → Type 0
AllFit [] = Unit {0}
AllFit (writes r ∷ es) = (length r.bytes ≤ 232) × AllFit es
AllFit (rounds notified io io_flush ∷ es) = AllFit es

unfoldable pub after_round : Outcome (Unit {0}) × Buffers → Run Buffers
after_round (ok _, s) = returns s
after_round (err e, s) = panic
after_round (Outcome.panic, s) = panic
after_round (Outcome.undefined, s) = undefined
after_round (Outcome.unfinished, s) = unfinished

not-false : (x : Bool) → not x ≡ false → x ≡ true
not-false true h = refl
not-false false h = sym h

module _ {ℓ} {F : Type ℓ} ⦃f : Float F⦄ ⦃p : Platform⦄ where
  unfoldable pub step : Settings F → Buffers → Event → Run Buffers
  step c s (writes r) =
      Write.write s.memory r s.signal >>= λ o. returns (record s { memory = o.1; signal = o.2 })
  step c s (rounds notified io io_flush) = after_round (round c notified io io_flush s)

  unfoldable pub run : Settings F → Buffers → List Event → Run Buffers
  run c s [] = returns s
  run c s (e ∷ es) = step c s e >>= λ s'. run c s' es

  usage-Filled :
      (k n : ℕ) (b : VolatileRingBuffer)
      → Filled k n b
      → usage_percent b ≡ f.mul (f.div (f.of_u64 n) (f.of_u64 (2 ^ k))) (f.of_u64 100)
  unfolding usage_percent
  usage-Filled k n b h =
      let prod : b.prod_seq.value ≡ n = ap (λ i. i.value) h.prod_eq in
      let cons : b.cons_seq.value ≡ 0 = ap (λ i. i.value) h.cons_eq in
      let used : sub64 b.prod_seq.value b.cons_seq.value ≡ n =
        omega (arith, prod, cons, h.room, power_bound k h.small) in
      ap (λ (u : ℕ). f.mul (f.div (f.of_u64 u) (f.of_u64 b.capacity)) (f.of_u64 100)) used
      ∙ ap (λ (m : ℕ). f.mul (f.div (f.of_u64 n) (f.of_u64 m)) (f.of_u64 100)) h.capacity_eq

  waits-full :
      (c : Settings F) (b : VolatileRingBuffer)
      → waits c b ≡ false
      → f.le c.high_watermark_percent (usage_percent b) ≡ true
  unfolding waits compared
  waits-full c b h = not-false _ h

  full-waits :
      (c : Settings F) (b : VolatileRingBuffer)
      → f.le c.high_watermark_percent (usage_percent b) ≡ true
      → waits c b ≡ false
  unfolding waits compared
  full-waits c b h = ap not h

  -- A round that does not wait changes nothing.
  round-Filled :
      (c : Settings F) (k n : ℕ) (notified : Bool) (io : ℕ → Option ℕ) (io_flush : Option ℕ)
      (s : Buffers)
      → Filled k n s.memory
      → waits c s.memory ≡ false
      → round c notified io io_flush s ≡ (ok tt, s)
  unfolding round should_flush compared
  round-Filled c k n notified io io_flush s h spins =
      daemon_round-Filled k n (config_of c)
        (compared (usage_percent s.memory) c.high_watermark_percent) notified io io_flush s h
      ∙ ap (λ (o : Bool × Bool). (ok tt, record s { signal = o.1 }))
          (if-of_true (true, s.signal) _ (waits-full c s.memory spins))

  module _ (laws : IsMonotone F) where
    open laws use {le_trans, of_u64_mono, div_mono, mul_mono}

    -- More slots in use keep the usage at the watermark.
    more-waits :
        (c : Settings F) (k n n' : ℕ) (b b' : VolatileRingBuffer)
        → Filled k n b
        → Filled k n' b'
        → n ≤ n'
        → waits c b ≡ false
        → waits c b' ≡ false
    more-waits c k n n' b b' h h' more spins = full-waits c b' (
        le_trans _ _ _ (waits-full c b spins) (
          rw (usage-Filled k n b h, usage-Filled k n' b' h')
            (mul_mono _ _ 100 (omega arith)
              (div_mono _ _ (2 ^ k) (one-le-pow k 2 (omega arith)) (of_u64_mono n n' more)))))

    -- If the conversion of integers to floating-point numbers is monotone, and so are quotients
    -- and products by a positive integer, and `<=` is transitive, then once the usage of a
    -- volatile buffer, in which the first slots are reserved and the others empty, has reached the
    -- watermark of the flush daemon, no round of it waits any more, whatever is written to the
    -- buffer, records of at most 232 bytes, and whatever the system answers: after any sequence of
    -- writes and rounds the usage is at the watermark, the persistent buffer is as it was, and the
    -- next round returns at once and changes nothing.
    pub run-spins :
        (c : Settings F) (k n : ℕ) (s : Buffers) (es : List Event)
        → Filled k n s.memory
        → waits c s.memory ≡ false
        → AllFit es
        → (s' : Buffers) × (run c s es ≡ returns s')
          × (waits c s'.memory ≡ false)
          × (s'.disk ≡ s.disk)
          × ((notified : Bool) (io : ℕ → Option ℕ) (io_flush : Option ℕ)
              → round c notified io io_flush s' ≡ (ok tt, s'))
    unfolding run step after_round
    run-spins c k n s [] h spins fits = (
      s,
      refl,
      spins,
      refl,
      λ notified io io_flush. round-Filled c k n notified io io_flush s h spins,
    )
    run-spins c k n s (writes r ∷ es) h spins fits =
        let (o, wrote, n', h', more) = write-Filled k n s.memory r s.signal h fits.0 in
        let s' : Buffers = record s { memory = o.1; signal = o.2 } in
        let t =
          run-spins c k n' s' es h' (more-waits c k n n' s.memory o.1 h h' more spins) fits.1 in
        (t.0, rw wrote t.1, t.2, t.3, t.4)
    run-spins c k n s (rounds notified io io_flush ∷ es) h spins fits =
        let t = run-spins c k n s es h spins fits in
        (t.0, rw (round-Filled c k n notified io io_flush s h spins) t.1, t.2, t.3, t.4)
