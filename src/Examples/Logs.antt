-- ===== src/Examples/Logs.antt =====
-- `read_logs` of examples/basic_usage.rs: it counts the records of a persistent buffer.
pub mod Count
use ring_buffer.Prelude.{ℕ, zero, suc, ◌+◌, ◌^◌, ◌%◌, List, [], ◌∷◌, none, ◌==◌, if◌then◌else◌}
use ring_buffer.Platform.{Platform}
use ring_buffer.Memory.Record.{Record}
use ring_buffer.Disk.Outcome.{Outcome, ok, err, panic, undefined, unfinished}
use ring_buffer.Disk.Persistent.{PersistentRingBuffer}
use ring_buffer.Disk.Cursor.{Cursor, new, read_batch}

abbrev pub tag_info : ℕ
tag_info = 1

abbrev pub tag_warning : ℕ
tag_warning = 2

abbrev pub tag_error : ℕ
tag_error = 3

abbrev pub tag_debug : ℕ
tag_debug = 4

pub record Counts : Type 0 where
  pub total : ℕ
  pub info : ℕ
  pub warning : ℕ
  pub error : ℕ
  pub debug : ℕ

abbrev pub no_logs : Counts
no_logs = record { total = 0; info = 0; warning = 0; error = 0; debug = 0 }

-- `+= 1` on an `i32`, which is taken for its 32 bits.
abbrev pub increment : ℕ → ℕ
increment n = (n + 1) % 2 ^ 32

-- The match on the tag.
unfoldable pub count_tag : Counts → ℕ → Counts
count_tag c tag =
    if tag == tag_info
    then record c { info = increment c.info }
    else if tag == tag_warning
    then record c { warning = increment c.warning }
    else if tag == tag_error
    then record c { error = increment c.error }
    else if tag == tag_debug
    then record c { debug = increment c.debug }
    else c

-- The body of `for record in batch`.
unfoldable pub count_record : Counts → Record → Counts
count_record c r = count_tag (record c { total = increment c.total }) r.header.tag

unfoldable pub count_batch : Counts → List Record → Counts
count_batch c [] = c
count_batch c (r ∷ rs) = count_batch (count_record c r) rs

-- The body of the loop, with the rounds after it. An error ends the loop as the last batch does.
unfoldable pub logs_round :
    (Counts → Cursor → Outcome Counts) → Counts → Outcome (List Record) × Cursor → Outcome Counts
logs_round again counts (ok [], c) = ok counts
logs_round again counts (ok (r ∷ rs), c) = again (count_batch counts (r ∷ rs)) c
logs_round again counts (err e, c) = ok counts
logs_round again counts (panic, c) = panic
logs_round again counts (undefined, c) = undefined
logs_round again counts (unfinished, c) = unfinished

module _ ⦃p : Platform⦄ where
  -- `while let Ok(batch) = cursor.read_batch(50)`, on fuel; `next_fuel` is that of `next`.
  unfoldable pub logs_loop : ℕ → ℕ → PersistentRingBuffer → Counts → Cursor → Outcome Counts
  logs_loop next_fuel zero b counts c = unfinished
  logs_loop next_fuel (suc fuel) b counts c =
      logs_round (λ counts' c'. logs_loop next_fuel fuel b counts' c') counts
        (read_batch next_fuel b c 50)

  unfoldable pub read_logs : ℕ → ℕ → PersistentRingBuffer → Outcome Counts
  read_logs next_fuel fuel b = logs_loop next_fuel fuel b no_logs (new b none)
