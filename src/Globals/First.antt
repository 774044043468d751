-- ===== src/Globals/First.antt =====
-- Which buffer the global functions use after several calls of `init_memory_buffer`.
use ring_buffer.Prelude.{
  ℕ, zero, suc, ◌^◌, ◌≤◌, ◌≡◌, refl, ap, ◌∙◌, List, [], ◌∷◌, ◌++◌, none, some, Bool, false, length,
  get_elem?, get_elem?-append, arith,
}
use ring_buffer.Memory.Run.{returns, ◌>>=◌}
use ring_buffer.Memory.Index.Powers.{next_power_of_two_lem}
use ring_buffer.Memory.Volatile
use ring_buffer.Memory.Volatile.{VolatileRingBuffer}
use ring_buffer.Memory.Volatile.Filled.{new-blank}
use ring_buffer.Globals.{
  Globals, or_init, init_memory_buffer, get_or_init, get_memory_buffer, init_all,
}

pub get_elem?-more {ℓ} :
    {A : Type ℓ} (xs ys : List A) (n : ℕ) (x : A)
    → get_elem? xs n ≡ some x
    → get_elem? (xs ++ ys) n ≡ some x
get_elem?-more [] ys n x e = absurd (cc e)
get_elem?-more (a ∷ xs) ys zero x e = e
get_elem?-more (a ∷ xs) ys (suc n) x e = get_elem?-more xs ys n x e

abbrev pub AllSmall : List ℕ → Type 0
AllSmall [] = Unit {0}
AllSmall (c ∷ cs) = (c ≤ 2 ^ 54) × AllSmall cs

pub made : (c : ℕ) → c ≤ 2 ^ 54 → (b : VolatileRingBuffer) × (Volatile.new c ≡ returns b)
made c small =
    let (k, e, _, next) = next_power_of_two_lem c (omega (arith, small)) in
    (_, new-blank c k e (next.least 54 (omega arith) small))

-- The global buffer is the one at `at`, and it is `entry`.
pub record IsGlobal (g : Globals) (at : ℕ) (entry : VolatileRingBuffer × Bool) : Type 0 where
  pub cell : g.volatile_buffer ≡ some at
  pub present : get_elem? g.buffers at ≡ some entry

init_memory_buffer-IsGlobal :
    (c : ℕ) (g : Globals) (at : ℕ) (entry : VolatileRingBuffer × Bool)
    → IsGlobal g at entry
    → c ≤ 2 ^ 54
    → (o : ℕ × Globals) × (init_memory_buffer g c ≡ returns o) × IsGlobal o.1 at entry
unfolding init_memory_buffer
init_memory_buffer-IsGlobal c g at entry h small =
    let (b, built) = made c small in
    (
      (
        length g.buffers,
        record g {
          buffers = g.buffers ++ ((b, false) ∷ []);
          volatile_buffer = or_init g.volatile_buffer (length g.buffers);
        },
      ),
      rw built refl,
      record {
        cell = ap (λ cell. or_init cell (length g.buffers)) h.cell;
        present = get_elem?-more g.buffers ((b, false) ∷ []) at entry h.present;
      },
    )

init_all-IsGlobal :
    (cs : List ℕ) (g : Globals) (at : ℕ) (entry : VolatileRingBuffer × Bool)
    → IsGlobal g at entry
    → AllSmall cs
    → (g' : Globals) × (init_all g cs ≡ returns g') × IsGlobal g' at entry
unfolding init_all
init_all-IsGlobal [] g at entry h s = (g, refl, h)
init_all-IsGlobal (c ∷ cs) g at entry h s =
    let (o, e, h') = init_memory_buffer-IsGlobal c g at entry h s.0 in
    let (g', e', h'') = init_all-IsGlobal cs o.1 at entry h' s.1 in
    (g', ap (λ m. m >>= λ o. init_all o.1 cs) e ∙ e', h'')

-- While no global buffer is set, one call of `init_memory_buffer` and any further ones, of
-- capacities up to 2^54, return, and `get_memory_buffer` then gives the buffer that the first call
-- made, as that call made it.
pub get_memory_buffer-init_all :
    (c : ℕ) (cs : List ℕ) (g : Globals)
    → g.volatile_buffer ≡ none
    → c ≤ 2 ^ 54
    → AllSmall cs
    → (b : VolatileRingBuffer) × (g' : Globals) × (Volatile.new c ≡ returns b)
      × (init_all g (c ∷ cs) ≡ returns g')
      × (get_memory_buffer g' ≡ returns (length g.buffers, g'))
      × (get_elem? g'.buffers (length g.buffers) ≡ some (b, false))
unfolding init_all init_memory_buffer get_memory_buffer get_or_init
get_memory_buffer-init_all c cs g unset small s =
    let (b, built) = made c small in
    let first : Globals = record g {
      buffers = g.buffers ++ ((b, false) ∷ []);
      volatile_buffer = or_init g.volatile_buffer (length g.buffers);
    } in
    let h : IsGlobal first (length g.buffers) (b, false) = record {
      cell = ap (λ cell. or_init cell (length g.buffers)) unset;
      present = get_elem?-append g.buffers (b, false) [];
    } in
    let (g', e, h') = init_all-IsGlobal cs first (length g.buffers) (b, false) h s in
    (b, g', built, rw built e, ap (get_or_init g') h'.cell, h'.present)
