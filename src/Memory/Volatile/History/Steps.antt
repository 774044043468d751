-- ===== src/Memory/Volatile/History/Steps.antt =====
-- One call on a volatile buffer, against the count of its slots in use and its queue.
use ring_buffer.Prelude.{
  ℕ, ◌+◌, ◌-◌, ◌^◌, ◌≤◌, ◌<◌, ◌≡◌, ap, ◌∙◌, sym, List, [], ◌∷◌, ◌++◌, Bool, true, false, arith,
  length, length-drop, subst, if-of_true, if-of_false, dec_lt, lt→ltb, not_lt→ltb,
}
use ring_buffer.Platform.{Platform}
use ring_buffer.Memory.Record.{Record}
use ring_buffer.Memory.Run.{returns, ◌>>=◌}
use ring_buffer.Memory.Volatile.{VolatileRingBuffer}
use ring_buffer.Memory.Volatile.Write
use ring_buffer.Memory.Volatile.Write.{push_overflow}
use ring_buffer.Memory.Volatile.Filled.{Filled, reserved_in, reserved_in-Filled}
use ring_buffer.Memory.Volatile.Reserve.{reserve-free, reserve-full}
use ring_buffer.Memory.Volatile.Outcomes.{
  fill-reservation, write-free, write-full, read-Filled, newest, push_overflow_lem,
}
use ring_buffer.Memory.Volatile.History.{
  Call, writes, fills, reads, Reply, accepted, records, Use, use_step, Fits, finish_fill, step,
}

module _ ⦃p : Platform⦄ where
  -- A buffer and what a client can tell of it.
  pub record Uses (k : ℕ) (u : Use) (b : VolatileRingBuffer) : Type 0 where
    pub filled : Filled k u.used b
    pub queue_eq : b.overflow_queue ≡ u.queue
    pub queue_le : length u.queue ≤ 1000

  -- The call's run, its reply, and the buffer that it leaves.
  unfoldable pub Follows : ℕ → VolatileRingBuffer → Bool → Call → Reply × Use → Type 0
  Follows k b signal c o =
      (b' : VolatileRingBuffer) × (step b signal c ≡ returns (o.0, b', signal)) × Uses k o.1 b'

  length-newest : (max : ℕ) (xs : List Record) → length (newest max xs) ≤ max
  length-newest max xs = omega (arith, length-drop (length xs - max) xs)

  used-full :
      (k : ℕ) (u : Use) (b : VolatileRingBuffer) → Uses k u b → ¬ (u.used < 2 ^ k) → u.used ≡ 2 ^ k
  used-full k u b h none_left = omega (arith, h.filled.room, none_left)

  full :
      (k : ℕ) (u : Use) (b : VolatileRingBuffer)
      → Uses k u b
      → ¬ (u.used < 2 ^ k)
      → Filled k (2 ^ k) b
  full k u b h none_left = subst (λ n. Filled k n b) (used-full k u b h none_left) h.filled

  reserved_in-queue :
      (b : VolatileRingBuffer) (n : ℕ) (q : List Record)
      → b.overflow_queue ≡ q
      → (reserved_in b n).overflow_queue ≡ q
  unfolding reserved_in
  reserved_in-queue b n q e = e

  pub with_queue-Filled :
      (k : ℕ) (b : VolatileRingBuffer) (q : List Record)
      → Filled k (2 ^ k) b
      → Filled k (2 ^ k) (record b { overflow_queue = q })
  with_queue-Filled k b q f = record {
    small = f.small;
    room = f.room;
    capacity_eq = f.capacity_eq;
    slots_eq = f.slots_eq;
    prod_eq = f.prod_eq;
    cons_eq = f.cons_eq;
    slot_size_eq = f.slot_size_eq;
    max_overflow_eq = f.max_overflow_eq;
    max_spins_eq = f.max_spins_eq;
  }

  -- A write takes a slot or goes to the queue.
  pub write-Filled :
      (k n : ℕ) (b : VolatileRingBuffer) (r : Record) (signal : Bool)
      → Filled k n b
      → length r.bytes ≤ 232
      → (o : Bool × VolatileRingBuffer × Bool) × (Write.write b r signal ≡ returns o)
        × (n' : ℕ) × Filled k n' o.1
        × (n ≤ n')
  write-Filled k n b r signal f fits = elim (dec_lt n (2 ^ k)) [
    | yes room ↦ (
      _,
      write-free k n b r signal f room fits,
      n + 1,
      reserved_in-Filled k n b f room,
      omega arith,
    )
    | no none_left ↦
        let all : n ≡ 2 ^ k = omega (arith, f.room, none_left) in
        let f' = subst (λ m. Filled k m b) all f in
        (_, write-full k b r signal f' fits, 2 ^ k, with_queue-Filled k b _ f', omega (arith, all))
  ]

  write-Follows-free :
      (k : ℕ) (u : Use) (b : VolatileRingBuffer) (signal : Bool) (r : Record)
      → Uses k u b
      → length r.bytes ≤ 232
      → u.used < 2 ^ k
      → Follows k b signal (writes r) (accepted true, record u { used = u.used + 1 })
  unfolding Follows step
  write-Follows-free k u b signal r h fits room = (
    reserved_in b u.used,
    ap (λ m. m >>= λ o. returns (accepted o.0, o.1, o.2))
        (write-free k u.used b r signal h.filled room fits),
    record {
      filled = reserved_in-Filled k u.used b h.filled room;
      queue_eq = reserved_in-queue b u.used u.queue h.queue_eq;
      queue_le = h.queue_le;
    },
  )

  write-Follows-full :
      (k : ℕ) (u : Use) (b : VolatileRingBuffer) (signal : Bool) (r : Record)
      → Uses k u b
      → length r.bytes ≤ 232
      → ¬ (u.used < 2 ^ k)
      → Follows k b signal
          (writes r)
          (accepted false, record u { queue = newest 1000 (u.queue ++ (r ∷ [])) })
  unfolding Follows step
  write-Follows-full k u b signal r h fits none_left = (
    record b { overflow_queue = push_overflow b.max_overflow b.overflow_queue r },
    ap (λ m. m >>= λ o. returns (accepted o.0, o.1, o.2))
        (write-full k b r signal (full k u b h none_left) fits),
    record {
      filled =
          subst
            (λ n.
              Filled k n
                (record b { overflow_queue = push_overflow b.max_overflow b.overflow_queue r }))
            (sym (used-full k u b h none_left)) (with_queue-Filled k b _ (full k u b h none_left));
      queue_eq =
          ap (λ m. push_overflow m b.overflow_queue r) h.filled.max_overflow_eq
          ∙ ap (λ q. push_overflow 1000 q r) h.queue_eq
          ∙ push_overflow_lem 1000 u.queue r h.queue_le (omega arith);
      queue_le = length-newest 1000 (u.queue ++ (r ∷ []));
    },
  )

  fill-Follows-free :
      (k size : ℕ) (u : Use) (b : VolatileRingBuffer) (signal : Bool) (r : Record)
      → Uses k u b
      → size ≤ 232
      → length r.bytes ≤ size
      → u.used < 2 ^ k
      → Follows k b signal (fills size r) (accepted true, record u { used = u.used + 1 })
  unfolding Follows step finish_fill
  fill-Follows-free k size u b signal r h small fits room =
      let (r', e, _) = fill-reservation k u.used size b r signal h.filled room small fits in
      (
        reserved_in b u.used,
        ap (λ m. m >>= finish_fill r signal)
              (reserve-free k u.used size 0 false b h.filled room small)
            ∙ ap (λ m. m >>= λ filled. returns (accepted true, reserved_in b u.used, filled.1)) e,
        record {
          filled = reserved_in-Filled k u.used b h.filled room;
          queue_eq = reserved_in-queue b u.used u.queue h.queue_eq;
          queue_le = h.queue_le;
        },
      )

  fill-Follows-full :
      (k size : ℕ) (u : Use) (b : VolatileRingBuffer) (signal : Bool) (r : Record)
      → Uses k u b
      → size ≤ 232
      → ¬ (u.used < 2 ^ k)
      → Follows k b signal (fills size r) (accepted false, u)
  unfolding Follows step finish_fill
  fill-Follows-full k size u b signal r h small none_left = (
    b,
    ap (λ m. m >>= finish_fill r signal) (reserve-full k size 0 b (full k u b h none_left) small),
    h,
  )

  read-Follows :
      (k : ℕ) (u : Use) (b : VolatileRingBuffer) (signal : Bool)
      → Uses k u b
      → Follows k b signal reads (records [], u)
  unfolding Follows step
  read-Follows k u b signal h = (
    b,
    ap (λ m. m >>= λ o. returns (records o.0, o.1, o.2)) (read-Filled k u.used b signal h.filled),
    h,
  )

  pub step-Follows :
      (k : ℕ) (u : Use) (b : VolatileRingBuffer) (signal : Bool) (c : Call)
      → Uses k u b
      → Fits c
      → Follows k b signal c (use_step (2 ^ k) u c)
  unfolding use_step
  step-Follows k u b signal (writes r) h fits = elim (dec_lt u.used (2 ^ k)) [
    | yes room ↦
        subst (Follows k b signal (writes r)) (sym (if-of_true _ _ (lt→ltb u.used (2 ^ k) room)))
          (write-Follows-free k u b signal r h fits room)
    | no no_room ↦
        subst (Follows k b signal (writes r))
          (sym (if-of_false _ _ (not_lt→ltb u.used (2 ^ k) no_room)))
          (write-Follows-full k u b signal r h fits no_room)
  ]
  step-Follows k u b signal (fills size r) h fits = elim (dec_lt u.used (2 ^ k)) [
    | yes room ↦
        subst (Follows k b signal (fills size r))
          (sym (if-of_true _ _ (lt→ltb u.used (2 ^ k) room)))
          (fill-Follows-free k size u b signal r h fits.0 fits.1 room)
    | no no_room ↦
        subst (Follows k b signal (fills size r))
          (sym (if-of_false _ _ (not_lt→ltb u.used (2 ^ k) no_room)))
          (fill-Follows-full k size u b signal r h fits.0 no_room)
  ]
  step-Follows k u b signal reads h fits = read-Follows k u b signal h
