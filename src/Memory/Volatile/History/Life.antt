-- ===== src/Memory/Volatile/History/Life.antt =====
-- The whole life of a volatile buffer, from `new` on.
use ring_buffer.Prelude.{ℕ, ◌^◌, ◌≤◌, ◌≡◌, refl, ap, ◌∙◌, List, [], ◌∷◌, Bool, arith}
use ring_buffer.Platform.{Platform}
use ring_buffer.Memory.Run.{returns, ◌>>=◌}
use ring_buffer.Memory.Index.Powers.{IsNext, next_power_of_two_lem}
use ring_buffer.Memory.Volatile.{VolatileRingBuffer, new}
use ring_buffer.Memory.Volatile.Filled.{blank, new-blank, blank-Filled}
use ring_buffer.Memory.Volatile.History.{Call, Use, use_step, use_run, AllFit, run}
use ring_buffer.Memory.Volatile.History.Steps.{Uses, Follows, step-Follows}

module _ ⦃p : Platform⦄ where
  run-Uses :
      (cs : List Call) (k : ℕ) (u : Use) (b : VolatileRingBuffer) (signal : Bool)
      → Uses k u b
      → AllFit cs
      → (b' : VolatileRingBuffer) × (run b signal cs
          ≡ returns ((use_run (2 ^ k) u cs).0, b', signal))
        × Uses k (use_run (2 ^ k) u cs).1 b'
  unfolding run use_run Follows
  run-Uses [] k u b signal h fit = (b, refl, h)
  run-Uses (c ∷ cs) k u b signal h fit =
      let (b', e, h') = step-Follows k u b signal c h fit.0 in
      let (b'', e', h'') = run-Uses cs k (use_step (2 ^ k) u c).1 b' signal h' fit.1 in
      (
        b'',
        ap (λ m. m >>= λ o. (run o.1 o.2 cs >>= λ rest. returns (o.0 ∷ rest.0, rest.1, rest.2))) e
            ∙ ap (λ m. m >>= λ rest. returns ((use_step (2 ^ k) u c).0 ∷ rest.0, rest.1, rest.2))
                e',
        h'',
      )

  abbrev pub unused : Use
  unused = record { used = 0; queue = [] }

  blank-Uses : (k : ℕ) → k ≤ 54 → Uses k unused (blank k)
  blank-Uses k small = record {
    filled = blank-Filled k small;
    queue_eq = refl;
    queue_le = omega arith;
  }

  -- A new buffer, for a capacity up to 2^54, has as many slots as the least power of two that is
  -- not below the capacity. It answers every sequence of `write`, of reserve, write and commit
  -- without blocking, and of `read`, whose records and reservations are of at most 232 bytes, as
  -- the count of its slots in use does: it returns, the first writes and reservations get a slot
  -- each, none gets one after that, no `read` returns a record, and the flag of the consumer's
  -- signal stays as it was. The overflow queue that is left has the newest 1000 of the records
  -- whose `write` got no slot, in order.
  pub new-history :
      (capacity : ℕ) (cs : List Call) (signal : Bool)
      → capacity ≤ 2 ^ 54
      → AllFit cs
      → (k : ℕ) × IsNext capacity 0 k
        × (b : VolatileRingBuffer) × (new capacity ≡ returns b)
        × (b' : VolatileRingBuffer) × (run b signal cs
            ≡ returns ((use_run (2 ^ k) unused cs).0, b', signal))
        × (b'.overflow_queue ≡ (use_run (2 ^ k) unused cs).1.queue)
  new-history capacity cs signal small fit =
      let (k, e, _, next) = next_power_of_two_lem capacity (omega (arith, small)) in
      let bound' : k ≤ 54 = next.least 54 (omega arith) small in
      let (b', ran, h) = run-Uses cs k unused (blank k) signal (blank-Uses k bound') fit in
      (k, next, blank k, new-blank capacity k e bound', b', ran, h.queue_eq)
