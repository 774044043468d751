-- ===== src/Bindings/Session.antt =====
-- The library in a process from its first `swift_initialize` on: writes, rounds of the daemon's
-- thread in any order between them, and what a cursor then reads.
use ring_buffer.Prelude.{ℕ, ◌≤◌, ◌≡◌, refl, ap, ◌∙◌, List, [], ◌∷◌, none, length}
use ring_buffer.Platform.{Platform}
use ring_buffer.Memory.Run.{Run, returns, panic, undefined, unfinished, ◌>>=◌}
use ring_buffer.Disk.Outcome.{Outcome, ok, err}
use ring_buffer.Disk.Persistent.{PersistentRingBuffer}
use ring_buffer.Globals.{Globals}
use ring_buffer.Globals.Flush.{FlushDaemon, Round, thread_round}
use ring_buffer.Globals.Quiet.{Quiet, unset, write-Quiet, thread_round-Quiet}
use ring_buffer.Bindings.{Library}
use ring_buffer.Bindings.Ios.{swift_write}

-- What happens in a session: a call of `swift_write`, with the clock's reading, or a round of the
-- thread.
pub data Event : Type 0 where
  swift_writes : ℕ → List ℕ → ℕ → Event
  rounds : Round → Event

abbrev pub AllFit : List Event → Type 0
AllFit [] = Unit {0}
AllFit (swift_writes now bytes tag ∷ es) = (length bytes ≤ 232) × AllFit es
AllFit (rounds r ∷ es) = AllFit es

-- The library as it is loaded.
abbrev pub at_load : Library
at_load = record { globals = unset; handle = none }

abbrev pub after_round : Library → Outcome (Unit {0}) × Globals → Run Library
after_round lib (ok _, g) = returns (record lib { globals = g })
after_round lib (err e, g) = panic
after_round lib (Outcome.panic, g) = panic
after_round lib (Outcome.undefined, g) = undefined
after_round lib (Outcome.unfinished, g) = unfinished

module _ ⦃p : Platform⦄ where
  unfoldable pub event_step : FlushDaemon → Library → Event → Run Library
  event_step d lib (swift_writes now bytes tag) = swift_write lib now bytes tag >>= λ o. returns o.1
  event_step d lib (rounds r) = after_round lib (thread_round d r lib.globals)

  unfoldable pub session : FlushDaemon → Library → List Event → Run Library
  session d lib [] = returns lib
  session d lib (e ∷ es) = event_step d lib e >>= λ lib'. session d lib' es

  event_step-Quiet :
      (k : ℕ) (d : FlushDaemon) (disk : PersistentRingBuffer) (lib : Library) (e : Event)
      → Quiet k d disk lib.globals
      → AllFit (e ∷ [])
      → (lib' : Library) × (event_step d lib e ≡ returns lib') × Quiet k d disk lib'.globals
  unfolding event_step swift_write
  event_step-Quiet k d disk lib (swift_writes now bytes tag) h fits =
      let (o, wrote, h') = write-Quiet k d disk lib.globals now bytes tag h fits.0 in
      (record lib { globals = o.1 }, rw wrote refl, h')
  event_step-Quiet k d disk lib (rounds r) h fits =
      let (g', ran, h') = thread_round-Quiet k d disk lib.globals r h in
      (record lib { globals = g' }, rw ran refl, h')

  pub session-Quiet :
      (k : ℕ) (d : FlushDaemon) (disk : PersistentRingBuffer) (es : List Event) (lib : Library)
      → Quiet k d disk lib.globals
      → AllFit es
      → (lib' : Library) × (session d lib es ≡ returns lib') × Quiet k d disk lib'.globals
  unfolding session
  session-Quiet k d disk [] lib h fits = (lib, refl, h)
  session-Quiet k d disk (e ∷ es) lib h fits =
      let (lib', ran, h') = event_step-Quiet k d disk lib e h (first e es fits) in
      let (lib'', ran', h'') = session-Quiet k d disk es lib' h' (others e es fits) in
      (lib'', ap (λ m. m >>= λ l. session d l es) ran ∙ ran', h'')
    where
      first : (e : Event) (es : List Event) → AllFit (e ∷ es) → AllFit (e ∷ [])
      first (swift_writes now bytes tag) es fits = (fits.0, tt)
      first (rounds r) es fits = tt

      others : (e : Event) (es : List Event) → AllFit (e ∷ es) → AllFit es
      others (swift_writes now bytes tag) es fits = fits.1
      others (rounds r) es fits = fits
