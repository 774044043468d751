-- ===== src/Examples/Logs/Count.antt =====
-- What `read_logs` counts.
use ring_buffer.Prelude.{
  ℕ, zero, suc, ◌+◌, ◌^◌, ◌≤◌, ◌<◌, ◌≡◌, refl, ap, ◌∙◌, sym, List, [], ◌∷◌, ◌++◌, map, arith,
  length, length-append, take, drop, take-append-drop, length-drop, length-take, length-map, ◌==◌,
  if◌then◌else◌, none,
}
use ring_buffer.Platform.{Platform}
use ring_buffer.Memory.Record.{Record}
use ring_buffer.Disk.Outcome.{Outcome, ok}
use ring_buffer.Disk.Persistent.{PersistentRingBuffer}
use ring_buffer.Disk.Persistent.Read.{stored}
use ring_buffer.Disk.Queue.Refine.{Holds}
use ring_buffer.Disk.Cursor.{Cursor, new, read_batch}
use ring_buffer.Disk.Cursor.Batch.{AtFrames, new-AtFrames, read_batch-frames}
use ring_buffer.Examples.Logs.{
  Counts, no_logs, tag_info, tag_warning, tag_error, tag_debug, count_tag, count_record,
  count_batch, logs_round, logs_loop, read_logs,
}

-- The records of a tag.
abbrev pub tagged : ℕ → List Record → ℕ
tagged tag [] = 0
tagged tag (r ∷ rs) = if r.header.tag == tag then suc (tagged tag rs) else tagged tag rs

-- The counts with those of more records.
abbrev pub plus : Counts → List Record → Counts
plus c rs = record {
  total = c.total + length rs;
  info = c.info + tagged tag_info rs;
  warning = c.warning + tagged tag_warning rs;
  error = c.error + tagged tag_error rs;
  debug = c.debug + tagged tag_debug rs;
}

-- No count is above the total.
record IsSound (c : Counts) : Type 0 where
  info_le : c.info ≤ c.total
  warning_le : c.warning ≤ c.total
  error_le : c.error ≤ c.total
  debug_le : c.debug ≤ c.total

tagged-append :
    (tag : ℕ) (xs ys : List Record) → tagged tag (xs ++ ys) ≡ tagged tag xs + tagged tag ys
tagged-append tag [] ys = omega arith
tagged-append tag (r ∷ xs) ys = let rest = tagged-append tag xs ys in ground (arith, rest)

tagged-le : (tag : ℕ) (rs : List Record) → tagged tag rs ≤ length rs
tagged-le tag [] = omega arith
tagged-le tag (r ∷ rs) = let rest = tagged-le tag rs in ground (arith, rest)

count_one :
    (c : Counts) (r : Record)
    → IsSound c
    → c.total + 1 < 2 ^ 31
    → count_record c r ≡ plus c (r ∷ [])
unfolding count_record count_tag
count_one c r s small = ground (arith, small, s)

plus-IsSound : (c : Counts) (rs : List Record) → IsSound c → IsSound (plus c rs)
plus-IsSound c rs s = record {
  info_le = omega (arith, s, tagged-le tag_info rs);
  warning_le = omega (arith, s, tagged-le tag_warning rs);
  error_le = omega (arith, s, tagged-le tag_error rs);
  debug_le = omega (arith, s, tagged-le tag_debug rs);
}

Counts-eq :
    (c d : Counts)
    → c.total ≡ d.total
    → c.info ≡ d.info
    → c.warning ≡ d.warning
    → c.error ≡ d.error
    → c.debug ≡ d.debug
    → c ≡ d
Counts-eq c d t i w e g = cc (t, i, w, e, g)

plus-append : (c : Counts) (xs ys : List Record) → plus (plus c xs) ys ≡ plus c (xs ++ ys)
plus-append c xs ys =
    Counts-eq _ _ (omega (arith, length-append xs ys)) (omega (arith, tagged-append tag_info xs ys))
      (omega (arith, tagged-append tag_warning xs ys))
      (omega (arith, tagged-append tag_error xs ys)) (omega (arith, tagged-append tag_debug xs ys))

plus-nil : (c : Counts) → plus c [] ≡ c
plus-nil c = Counts-eq _ _ (omega arith) (omega arith) (omega arith) (omega arith) (omega arith)

count_batch_lem :
    (rs : List Record) (c : Counts)
    → IsSound c
    → c.total + length rs < 2 ^ 31
    → count_batch c rs ≡ plus c rs
unfolding count_batch
count_batch_lem [] c s small = sym (plus-nil c)
count_batch_lem (r ∷ rs) c s small = rw (count_one c r s (omega arith)) (
    count_batch_lem rs (plus c (r ∷ [])) (plus-IsSound c (r ∷ []) s) (omega arith)
    ∙ plus-append c (r ∷ []) rs)

tagged-stored :
    ⦃p : Platform⦄ → (tag : ℕ) (rs : List Record) → tagged tag (map stored rs) ≡ tagged tag rs
tagged-stored tag [] = refl
tagged-stored tag (r ∷ rs) =
    ap (λ (n : ℕ). if r.header.tag == tag then suc n else n) (tagged-stored tag rs)

plus-stored : ⦃p : Platform⦄ → (c : Counts) (rs : List Record) → plus c (map stored rs) ≡ plus c rs
plus-stored c rs =
    Counts-eq _ _ (ap (λ n. c.total + n) (length-map rs stored))
      (ap (λ n. c.info + n) (tagged-stored tag_info rs))
      (ap (λ n. c.warning + n) (tagged-stored tag_warning rs))
      (ap (λ n. c.error + n) (tagged-stored tag_error rs))
      (ap (λ n. c.debug + n) (tagged-stored tag_debug rs))

module _ ⦃p : Platform⦄ where
  -- A round of the loop on a batch that is not empty.
  logs_round-batch :
      (again : Counts → Cursor → Outcome Counts) (counts : Counts) (r : Record) (rs : List Record)
      (c : Cursor)
      → IsSound counts
      → counts.total + length (r ∷ rs) < 2 ^ 31
      → logs_round again counts (ok (map stored (r ∷ rs)), c) ≡ again (plus counts (r ∷ rs)) c
  unfolding logs_round
  logs_round-batch again counts r rs c s small =
      rw
        (
          count_batch_lem (map stored (r ∷ rs)) counts s
              (omega (arith, length-map (r ∷ rs) stored)),
          plus-stored counts (r ∷ rs),
        )
        refl

  logs_loop-Frames :
      (next_fuel fuel : ℕ) (b : PersistentRingBuffer) (counts : Counts) (c : Cursor)
      (rs : List Record)
      → AtFrames b c rs
      → IsSound counts
      → counts.total + length rs < 2 ^ 31
      → length rs < fuel
      → logs_loop (suc next_fuel) fuel b counts c ≡ ok (plus counts rs)
  unfolding logs_loop logs_round
  logs_loop-Frames next_fuel zero b counts c rs h s small enough = absurd (omega arith)
  logs_loop-Frames next_fuel (suc fuel) b counts c [] h s small enough =
      let batch = read_batch-frames next_fuel b c 50 [] (omega arith) h in
      let after = (read_batch (suc next_fuel) b c 50).1 in
      let again = λ (counts' : Counts) (c' : Cursor). logs_loop (suc next_fuel) fuel b counts' c' in
      ap (λ o. logs_round again counts (o, after)) batch.0 ∙ ap ok (sym (plus-nil counts))
  logs_loop-Frames next_fuel (suc fuel) b counts c (r ∷ rs) h s small enough =
      let batch = read_batch-frames next_fuel b c 50 (r ∷ rs) (omega arith) h in
      let after = (read_batch (suc next_fuel) b c 50).1 in
      let again = λ (counts' : Counts) (c' : Cursor). logs_loop (suc next_fuel) fuel b counts' c' in
      let first = take 49 rs in
      let rest = drop 49 rs in
      let n = length-take 49 rs in
      let m = length-drop 49 rs in
      ap (λ o. logs_round again counts (o, after)) batch.0
      ∙ logs_round-batch again counts r first after s (omega (arith, n))
      ∙ logs_loop-Frames next_fuel fuel b (plus counts (r ∷ first)) after rest batch.1
          (plus-IsSound counts (r ∷ first) s) (omega (arith, n, m)) (omega (arith, m))
      ∙ ap ok (
          plus-append counts (r ∷ first) rest
          ∙ ap (λ l. plus counts (r ∷ l)) (take-append-drop 49 rs))

  -- Over a valid buffer with the unread records `q`, fewer than 2^31 and fewer than the fuel of
  -- its loop, `read_logs` of the example returns, and has counted each of them once: in all, and
  -- by its tag.
  pub read_logs-Holds :
      (next_fuel fuel : ℕ) (b : PersistentRingBuffer) (q : List Record)
      → Holds b q
      → length q < 2 ^ 31
      → length q < fuel
      → read_logs (suc next_fuel) fuel b
        ≡ ok (record {
          total = length q;
          info = tagged tag_info q;
          warning = tagged tag_warning q;
          error = tagged tag_error q;
          debug = tagged tag_debug q;
        })
  unfolding read_logs
  read_logs-Holds next_fuel fuel b q h small enough =
      logs_loop-Frames next_fuel fuel b no_logs (new b none) q (new-AtFrames b q h)
        (record {
          info_le = omega arith;
          warning_le = omega arith;
          error_le = omega arith;
          debug_le = omega arith;
        })
        (omega (arith, small)) enough
      ∙ ap ok (Counts-eq _ _ (omega arith) (omega arith) (omega arith) (omega arith) (omega arith))
