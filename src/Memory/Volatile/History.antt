-- ===== src/Memory/Volatile/History.antt =====
-- Histories of calls on one volatile buffer: `write`, the reserve, write and commit of a record as
-- the README has it, and `read`.
pub mod Steps
pub mod Life
use ring_buffer.Prelude.{
  ℕ, zero, suc, ◌+◌, ◌-◌, ◌*◌, ◌^◌, ◌≤◌, ◌<◌, ◌≡◌, refl, ap, ◌∙◌, sym, List, [], ◌∷◌, ◌++◌, Option,
  none, some, Bool, true, false, arith, ltb, if◌then◌else◌, length, drop, length-drop, subst,
  if-of_true, if-of_false, length-append, dec_lt, lt→ltb, not_lt→ltb, replicate,
}
use ring_buffer.Platform.{Platform}
use ring_buffer.Memory.Record.{Record}
use ring_buffer.Memory.Run.{Run, returns, panic, undefined, unfinished, ◌>>=◌}
use ring_buffer.Memory.Index
use ring_buffer.Memory.Index.Powers.{new-power, IsNext, next_power_of_two_lem}
use ring_buffer.Memory.Slot
use ring_buffer.Memory.Volatile.{VolatileRingBuffer, Reservation, new, reserve}
use ring_buffer.Memory.Volatile.Write.{push_overflow, fill, write}
use ring_buffer.Memory.Volatile.Read.{read}
use ring_buffer.Memory.Volatile.Filled.{Filled, reserved_in, reservation_of, reserved_in-Filled}
use ring_buffer.Memory.Volatile.Reserve.{reserve-free, reserve-full}
use ring_buffer.Memory.Volatile.Outcomes.{
  fill-reservation, write-free, write-full, read-Filled, newest, push_overflow_lem,
}

-- `fills size r` reserves `size` bytes without blocking, writes `r` and commits.
pub data Call : Type 0 where
  writes : Record → Call
  fills : ℕ → Record → Call
  reads : Call

pub data Reply : Type 0 where
  accepted : Bool → Reply
  records : List Record → Reply

-- The slots in use and the overflow queue, which is all that a client can tell apart.
pub record Use : Type 0 where
  pub used : ℕ
  pub queue : List Record

-- A call against a capacity: a slot is used up for good, a record beyond the capacity goes to the
-- queue, and no record comes back.
unfoldable pub use_step : ℕ → Use → Call → Reply × Use
use_step capacity u (writes r) =
    if ltb u.used capacity
    then (accepted true, record u { used = u.used + 1 })
    else (accepted false, record u { queue = newest 1000 (u.queue ++ (r ∷ [])) })
use_step capacity u (fills size r) =
    if ltb u.used capacity
    then (accepted true, record u { used = u.used + 1 })
    else (accepted false, u)
use_step capacity u reads = (records [], u)

unfoldable pub use_run : ℕ → Use → List Call → List Reply × Use
use_run capacity u [] = ([], u)
use_run capacity u (c ∷ cs) =
    let (reply, u') = use_step capacity u c in
    let (replies, u'') = use_run capacity u' cs in (reply ∷ replies, u'')

abbrev pub Fits : Call → Type 0
Fits (writes r) = length r.bytes ≤ 232
Fits (fills size r) = (size ≤ 232) × (length r.bytes ≤ size)
Fits reads = Unit {0}

abbrev pub AllFit : List Call → Type 0
AllFit [] = Unit {0}
AllFit (c ∷ cs) = Fits c × AllFit cs

module _ ⦃p : Platform⦄ where
  unfoldable pub finish_fill :
      Record
      → Bool
      → Option Reservation × VolatileRingBuffer
      → Run (Reply × VolatileRingBuffer × Bool)
  finish_fill r signal (some res, b) =
      fill res r signal >>= λ filled. returns (accepted true, b, filled.1)
  finish_fill r signal (none, b) = returns (accepted false, b, signal)

  unfoldable pub step : VolatileRingBuffer → Bool → Call → Run (Reply × VolatileRingBuffer × Bool)
  step b signal (writes r) = write b r signal >>= λ o. returns (accepted o.0, o.1, o.2)
  step b signal (fills size r) = reserve 1 b size false >>= finish_fill r signal
  step b signal reads = read b signal >>= λ o. returns (records o.0, o.1, o.2)

  -- The replies to the calls, and the buffer and the flag that they leave.
  unfoldable pub run :
      VolatileRingBuffer → Bool → List Call → Run (List Reply × VolatileRingBuffer × Bool)
  run b signal [] = returns ([], b, signal)
  run b signal (c ∷ cs) =
      step b signal c >>= λ o. (run o.1 o.2 cs >>= λ rest. returns (o.0 ∷ rest.0, rest.1, rest.2))
