-- ===== src/Bindings/Boxes.antt =====
-- The boxes that the foreign side holds by their addresses: `Box::into_raw`, `Box::from_raw` and
-- `mem::forget` of src/jni/mod.rs.
use ring_buffer.Prelude.{
  ℕ, ◌≡◌, refl, ap, ◌∙◌, List, [], ◌∷◌, Option, none, some, Bool, true, false, ◌||◌, ◌==◌,
  if◌then◌else◌, Bool-cases, inl, inr, if-of_true, if-of_false, sym,
}

-- The boxes that are alive, by address.
abbrev pub Boxes {ℓ} : Type ℓ → Type ℓ
Boxes A = List (ℕ × A)

-- What stands at an address: `none` for one that was freed, or never allocated.
unfoldable pub box_at {ℓ} : {A : Type ℓ} → Boxes A → ℕ → Option A
box_at [] ptr = none
box_at ((at, a) ∷ bs) ptr = let other = box_at bs ptr in if at == ptr then some a else other

-- A box whose content has changed.
unfoldable pub set_box {ℓ} : {A : Type ℓ} → Boxes A → ℕ → A → Boxes A
set_box [] ptr v = []
set_box ((at, a) ∷ bs) ptr v =
    let others = set_box bs ptr v in if at == ptr then (at, v) ∷ bs else (at, a) ∷ others

-- A box that is dropped.
unfoldable pub drop_box {ℓ} : {A : Type ℓ} → Boxes A → ℕ → Boxes A
drop_box [] ptr = []
drop_box ((at, a) ∷ bs) ptr =
    let others = drop_box bs ptr in if at == ptr then bs else (at, a) ∷ others

-- The addresses alone.
abbrev pub addresses {ℓ} : {A : Type ℓ} → Boxes A → List ℕ
addresses [] = []
addresses ((at, a) ∷ bs) = at ∷ addresses bs

abbrev pub is_in : List ℕ → ℕ → Bool
is_in [] ptr = false
is_in (at ∷ ats) ptr = (at == ptr) || is_in ats ptr

-- The list without the first occurrence of an address.
unfoldable pub without : List ℕ → ℕ → List ℕ
without [] ptr = []
without (at ∷ ats) ptr = let others = without ats ptr in if at == ptr then ats else at ∷ others

-- At an address that is alive there is a box.
pub box_at-in {ℓ} :
    {A : Type ℓ} (bs : Boxes A) (ptr : ℕ)
    → is_in (addresses bs) ptr ≡ true
    → (a : A) × (box_at bs ptr ≡ some a)
unfolding box_at
box_at-in [] ptr e = absurd (cc e)
box_at-in ((at, a) ∷ bs) ptr e = elim (Bool-cases (at == ptr)) [
  | inl here ↦ (a, if-of_true (some a) _ here)
  | inr there ↦
      let (a', found) =
        box_at-in bs ptr (ap (λ t. t || is_in (addresses bs) ptr) (sym there) ∙ e) in
      (a', if-of_false (some a) _ there ∙ found)
]

pub addresses-set_box {ℓ} :
    {A : Type ℓ} (bs : Boxes A) (ptr : ℕ) (v : A) → addresses (set_box bs ptr v) ≡ addresses bs
unfolding set_box
addresses-set_box [] ptr v = refl
addresses-set_box ((at, a) ∷ bs) ptr v = elim (Bool-cases (at == ptr)) [
  | inl here ↦ ap addresses (if-of_true ((at, v) ∷ bs) _ here)
  | inr there ↦
      ap addresses (if-of_false ((at, v) ∷ bs) _ there)
      ∙ ap (λ ats. at ∷ ats) (addresses-set_box bs ptr v)
]

pub addresses-drop_box {ℓ} :
    {A : Type ℓ} (bs : Boxes A) (ptr : ℕ) → addresses (drop_box bs ptr) ≡ without (addresses bs) ptr
unfolding drop_box without
addresses-drop_box [] ptr = refl
addresses-drop_box ((at, a) ∷ bs) ptr = elim (Bool-cases (at == ptr)) [
  | inl here ↦ ap addresses (if-of_true bs _ here) ∙ sym (if-of_true (addresses bs) _ here)
  | inr there ↦
      ap addresses (if-of_false bs _ there)
      ∙ ap (λ ats. at ∷ ats) (addresses-drop_box bs ptr)
      ∙ sym (if-of_false (addresses bs) _ there)
]

-- A changed box has its new content.
pub box_at-set_box {ℓ} :
    {A : Type ℓ} (bs : Boxes A) (ptr : ℕ) (a v : A)
    → box_at bs ptr ≡ some a
    → box_at (set_box bs ptr v) ptr ≡ some v
unfolding box_at set_box
box_at-set_box [] ptr a v e = absurd (cc e)
box_at-set_box ((at, b) ∷ bs) ptr a v e = elim (Bool-cases (at == ptr)) [
  | inl here ↦
      ap (λ l. box_at l ptr) (if-of_true ((at, v) ∷ bs) _ here) ∙ if-of_true (some v) _ here
  | inr there ↦
      ap (λ l. box_at l ptr) (if-of_false ((at, v) ∷ bs) _ there)
      ∙ if-of_false (some b) _ there
      ∙ box_at-set_box bs ptr a v (sym (if-of_false (some b) _ there) ∙ e)
]
