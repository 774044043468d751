-- ===== src/Bindings/Jni/Handles.antt =====
-- The pointers that Java holds: what a Java program has to keep to.
use ring_buffer.Prelude.{
  ℕ, ◌≡◌, refl, ap, ◌∙◌, sym, subst, List, [], ◌∷◌, Option, none, Bool, true, false, ◌==◌, ◌||◌,
  if◌then◌else◌, get_elem?, Bool-cases, inl, inr,
}
use ring_buffer.Platform.{Platform}
use ring_buffer.Memory.Record.{Record}
use ring_buffer.Memory.Run.{Run}
use ring_buffer.Disk.Outcome.{Outcome, ok, err, panic, undefined, unfinished}
use ring_buffer.Disk.Cursor.{Cursor}
use ring_buffer.Globals.Persistent.{FileAt}
use ring_buffer.Bindings.{OwnedCursor}
use ring_buffer.Bindings.Boxes.{
  addresses, is_in, without, box_at-in, addresses-set_box, addresses-drop_box,
}
use ring_buffer.Bindings.Jni.{
  Native, extended, native, cursor_buffer, returned, aborted, dangling, Jvm, LogRecord,
  java_shutdown, java_write, close_cursor, to_array, create_cursor, batch_of, read_batch,
}

-- A Java program, with the address of each new box, and the other answers to a call: the clock, the
-- fuel, and whether the virtual machine answers with a success.
pub data JavaCall : Type 0 where
  creates : FileAt → ℕ → JavaCall
  reads : ℕ → ℕ → ℕ → Bool → JavaCall
  closes : ℕ → JavaCall
  writes : ℕ → Option (List ℕ) → ℕ → JavaCall
  shuts_down : JavaCall

-- The pointers in use after a call.
abbrev pub in_use : List ℕ → JavaCall → List ℕ
in_use ptrs (creates temp at) = at ∷ ptrs
in_use ptrs (reads fuel ptr max_count vm_ok) = ptrs
in_use ptrs (closes ptr) = if ptr == 0 then ptrs else without ptrs ptr
in_use ptrs (writes now array tag) = ptrs
in_use ptrs shuts_down = ptrs

-- A pointer is null or in use where it is passed.
abbrev pub Keeps : List ℕ → JavaCall → Type 0
Keeps ptrs (creates temp at) = Unit {0}
Keeps ptrs (reads fuel ptr max_count vm_ok) = ((ptr == 0) || is_in ptrs ptr) ≡ true
Keeps ptrs (closes ptr) = ((ptr == 0) || is_in ptrs ptr) ≡ true
Keeps ptrs (writes now array tag) = Unit {0}
Keeps ptrs shuts_down = Unit {0}

abbrev pub AllKeep : List ℕ → List JavaCall → Type 0
AllKeep ptrs [] = Unit {0}
AllKeep ptrs (c ∷ cs) = Keeps ptrs c × AllKeep (in_use ptrs c) cs

abbrev pub in_use_after : List ℕ → List JavaCall → List ℕ
in_use_after ptrs [] = ptrs
in_use_after ptrs (c ∷ cs) = in_use_after (in_use ptrs c) cs

-- The state that a call leaves.
unfoldable pub left_by {ℓ} : {A : Type ℓ} → Native (A × Jvm) → Native Jvm
left_by (returned (a, m)) = returned m
left_by aborted = aborted
left_by dangling = dangling
left_by Native.undefined = Native.undefined
left_by Native.unfinished = Native.unfinished

-- A call after which the pointers in use are the live boxes, if it returned; it
-- uses no pointer to a box that is not alive.
unfoldable pub Safe : List ℕ → Native Jvm → Type 0
Safe ptrs (returned m) = addresses m.cursors ≡ ptrs
Safe ptrs aborted = Unit {0}
Safe ptrs dangling = ⊥
Safe ptrs Native.undefined = Unit {0}
Safe ptrs Native.unfinished = Unit {0}

unfoldable pub and_call : Native Jvm → (Jvm → Native Jvm) → Native Jvm
and_call (returned m) next = next m
and_call aborted next = aborted
and_call dangling next = dangling
and_call Native.undefined next = Native.undefined
and_call Native.unfinished next = Native.unfinished

module _ ⦃p : Platform⦄ where
  unfoldable pub java_call : Jvm → JavaCall → Native Jvm
  java_call m (creates temp at) = left_by (create_cursor m temp at)
  java_call m (reads fuel ptr max_count vm_ok) = left_by (read_batch fuel m ptr max_count vm_ok)
  java_call m (closes ptr) = close_cursor m ptr
  java_call m (writes now array tag) = left_by (java_write m now array tag)
  java_call m shuts_down = returned (java_shutdown m)

  unfoldable pub java_run : Jvm → List JavaCall → Native Jvm
  java_run m [] = returned m
  java_run m (c ∷ cs) = and_call (java_call m c) (λ m'. java_run m' cs)

  is_live :
      (m : Jvm) (ptr : ℕ)
      → (ptr == 0) ≡ false
      → ((ptr == 0) || is_in (addresses m.cursors) ptr) ≡ true
      → is_in (addresses m.cursors) ptr ≡ true
  is_live m ptr live h = ap (λ t. t || is_in (addresses m.cursors) ptr) (sym live) ∙ h

  close_cursor-Safe :
      (m : Jvm) (ptr : ℕ)
      → Keeps (addresses m.cursors) (closes ptr)
      → Safe (in_use (addresses m.cursors) (closes ptr)) (close_cursor m ptr)
  unfolding close_cursor Safe
  close_cursor-Safe m ptr h = elim (Bool-cases (ptr == 0)) [
    | inl null ↦ rw null refl
    | inr live ↦
        let (c, found) = box_at-in m.cursors ptr (is_live m ptr live h) in
        rw (live, found) (addresses-drop_box m.cursors ptr)
  ]

  to_array-Safe :
      (m : Jvm) (ptr : ℕ) (owned : OwnedCursor) (vm_ok : Bool) (o : Outcome (List Record) × Cursor)
      → Safe (addresses m.cursors) (left_by (to_array m ptr owned vm_ok o))
  unfolding to_array left_by Safe
  to_array-Safe m ptr owned true (ok rs, c) = addresses-set_box m.cursors ptr _
  to_array-Safe m ptr owned false (ok rs, c) = tt
  to_array-Safe m ptr owned vm_ok (err e, c) = addresses-set_box m.cursors ptr _
  to_array-Safe m ptr owned vm_ok (panic, c) = tt
  to_array-Safe m ptr owned vm_ok (undefined, c) = tt
  to_array-Safe m ptr owned vm_ok (unfinished, c) = tt

  unchanged-Safe : (m : Jvm) → Safe (addresses m.cursors) (returned m)
  unfolding Safe
  unchanged-Safe m = refl

  null-Safe :
      (m : Jvm)
      → Safe (addresses m.cursors) (left_by {A = Option (List LogRecord)} (returned (none, m)))
  unfolding Safe left_by
  null-Safe m = refl

  read_batch-Safe :
      (fuel : ℕ) (m : Jvm) (ptr max_count : ℕ) (vm_ok : Bool)
      → Keeps (addresses m.cursors) (reads fuel ptr max_count vm_ok)
      → Safe (addresses m.cursors) (left_by (read_batch fuel m ptr max_count vm_ok))
  unfolding read_batch
  read_batch-Safe fuel m ptr max_count vm_ok h = elim (Bool-cases (ptr == 0)) [
    | inl null ↦ rw null (null-Safe m)
    | inr live ↦
        let (c, found) = box_at-in m.cursors ptr (is_live m ptr live h) in
        rw (live, found)
          (to_array-Safe m ptr c vm_ok
            (batch_of fuel c (extended max_count) (get_elem? m.library.globals.disks c.buffer)))
  ]

  native-Safe {ℓ} :
      {A : Type ℓ} {B : Type 0} (ptrs : List ℕ) (o : Run A) (f : A → B × Jvm)
      → ((a : A) → addresses (f a).1.cursors ≡ ptrs)
      → Safe ptrs (left_by (native o f))
  unfolding native left_by Safe
  native-Safe ptrs (Run.returns a) f h = h a
  native-Safe ptrs Run.panic f h = tt
  native-Safe ptrs Run.undefined f h = tt
  native-Safe ptrs Run.unfinished f h = tt

  java_call-Safe :
      (m : Jvm) (c : JavaCall)
      → Keeps (addresses m.cursors) c
      → Safe (in_use (addresses m.cursors) c) (java_call m c)
  unfolding java_call create_cursor java_write java_shutdown Safe
  java_call-Safe m (creates temp at) h =
      native-Safe (at ∷ addresses m.cursors) (cursor_buffer m.library.globals temp) _ (λ o. refl)
  java_call-Safe m (reads fuel ptr max_count vm_ok) h = read_batch-Safe fuel m ptr max_count vm_ok h
  java_call-Safe m (closes ptr) h = close_cursor-Safe m ptr h
  java_call-Safe m (writes now array tag) h = native-Safe (addresses m.cursors) _ _ (λ o. refl)
  java_call-Safe m shuts_down h = refl

  and_call-Safe :
      (o : Native Jvm) (ptrs out : List ℕ) (next : Jvm → Native Jvm)
      → Safe ptrs o
      → ((m : Jvm) → addresses m.cursors ≡ ptrs → Safe out (next m))
      → Safe out (and_call o next)
  unfolding and_call Safe
  and_call-Safe (returned m) ptrs out next h go = go m h
  and_call-Safe aborted ptrs out next h go = tt
  and_call-Safe dangling ptrs out next h go = h
  and_call-Safe Native.undefined ptrs out next h go = tt
  and_call-Safe Native.unfinished ptrs out next h go = tt

  -- A Java program that passes to `readBatch` and `closeCursor` null or a pointer that
  -- `createCursor` gave it and that it has not closed since, in any sequence of calls of these,
  -- `write` and `shutdown`, never makes them use or free a box that is not alive; if the calls
  -- return, the boxes that are then alive are those whose pointers are in use, so that `readBatch`
  -- frees none, whether or not it succeeds.
  pub java_run-Safe :
      (cs : List JavaCall) (m : Jvm)
      → AllKeep (addresses m.cursors) cs
      → Safe (in_use_after (addresses m.cursors) cs) (java_run m cs)
  unfolding java_run
  java_run-Safe [] m h = unchanged-Safe m
  java_run-Safe (c ∷ cs) m h =
      and_call-Safe (java_call m c) (in_use (addresses m.cursors) c)
        (in_use_after (in_use (addresses m.cursors) c) cs) (λ m'. java_run m' cs)
        (java_call-Safe m c h.0)
        (λ m' same.
          subst (λ ptrs. Safe (in_use_after ptrs cs) (java_run m' cs)) same
            (java_run-Safe cs m' (subst (λ ptrs. AllKeep ptrs cs) (sym same) h.1)))
